-- ===== src/Session/Calls/Steps.antt =====
-- Callbacks one after another, and the calls of the host that they make
-- (core/src/main/resources/com/sandbox/runtime/v2/js/version_3/sandbox-patch.js, `wrapCallback`).
use mathlib.Core.Path.{subst}
use worker_cli.Prelude.{
  false, none, Option, ℕ, Bool, true, if◌then◌else◌, ◌≡◌, refl, sym, ◌∙◌, some, List, [], ◌∷◌, ◌++◌,
  All, append-nil, append_assoc,
}
use worker_cli.Validator.{Request}
use worker_cli.Session.Writes.{at}
use worker_cli.Wrapping.{Property, forward_request, HostObject, wrap}
use worker_cli.Wrapping.Laws.{last_image-none, lookup-copy_request, lookup-copy_request-some}
use worker_cli.Wrapping.Response.{lookup-wrap, lookup-wrap-some}
use worker_cli.Session.{World, Session, Event, dispatch, perform, perform_all}
use worker_cli.Session.Frame.{IsFree-distinct}
use worker_cli.Session.Private.{callable, Reads, private_step}
use worker_cli.Session.Private.Served.{served, Reads-dispatch}
use worker_cli.Session.Calls.{
  begun_with, Filters, IsFresh, IsOffered, called_by, calls_of, Serves, Visit, serve_all, all_calls,
  IsOwnVisit,
}
use worker_cli.Session.Calls.Events.{perform-Steps, perform-Serves}

module _ (w : World) (filters : Bool) (request response : HostObject) where
  perform_all-Serves :
      (events : List Event) (t : Session) (now : Request)
      → All (IsOffered request response) events
      → Serves w filters request response t now
      → ((perform_all w events t).calls ≡ t.calls ++ calls_of w filters request response events now)
        × IsFresh w filters (perform_all w events t)
  unfolding perform_all
  perform_all-Serves [] t now h serves = (
    sym (append-nil t.calls),
    record {
      remembers = serves.remembers;
      no_filter = λ cannot. serves.filter_at ∙ rw cannot refl;
    },
  )
  perform_all-Serves (event ∷ events) t now (h, hs) serves =
      let (calls, fresh) =
        perform_all-Serves events (perform w event t) (private_step w filters event now) hs
          (perform-Serves w filters request response event t now h serves) in
      (
        calls
            ∙ rw ((perform-Steps w filters request response event t now h serves).0) (
                append_assoc t.calls (called_by w filters request response event now)
                  (calls_of w filters request response events (private_step w filters event now))),
        fresh,
      )

begun_filter :
    (w : World) (filters : Bool) (request response : HostObject) (s : Session)
    → Filters filters request
    → IsFresh w filters s
    → at (perform w (dispatch request response) s) "param"
      ≡ (if filters then some (forward_request request.host "param") else none)
unfolding perform wrap
begun_filter w true request response s h fresh =
    lookup-copy_request-some request.host request.properties s.wrappers.request "param" _ (λ e. cc)
      h
begun_filter w false request response s h fresh =
    lookup-copy_request request.host request.properties s.wrappers.request "param" (λ e. cc)
    ∙ last_image-none request.host "param" request.properties _ h
    ∙ fresh.no_filter refl

filter-callable :
    (filters : Bool) (host : ℕ) (p : Option Property)
    → p ≡ (if filters then some (forward_request host "param") else none)
    → callable p ≡ filters
filter-callable true host p h = rw h refl
filter-callable false host p h = rw h refl

begun-Serves :
    (w : World) (filters : Bool) (v : Visit) (s : Session)
    → IsOwnVisit filters v
    → IsFresh w filters s
    → Serves w filters v.request v.response
        (perform w (dispatch v.request v.response) s)
        (begun_with v)
unfolding perform wrap
begun-Serves w filters v s own fresh =
    let filter_at = begun_filter w filters v.request v.response s own.has_filter fresh in
    record {
      request_at = λ k p free h.
          lookup-copy_request-some v.request.host v.request.properties s.wrappers.request k p
            (IsFree-distinct k free) h;
      response_at = λ k p other h. lookup-wrap-some v.request v.response s.wrappers k p other h;
      render_at = lookup-wrap v.request v.response s.wrappers "render";
      remembers = fresh.remembers;
      filter_at = filter_at;
      reads =
          subst (λ b. Reads b (perform w (dispatch v.request v.response) s) (begun_with v))
            (filter-callable filters v.request.host _ filter_at)
            (Reads-dispatch w v.request v.response v.params v.query v.body v.headers own.offers s);
    }

-- Callbacks one after another on the shared objects, whose requests have values for their
-- parameters, query, body and headers and nothing under the name of the errors, and of which each
-- calls functions that its own request and response have from the host, under names that neither the
-- validator nor the error callback uses. Let the table of render functions begin with nothing or with
-- the service's, and let all the requests have a function `param`, or none of them and no earlier one
-- have any. Then the host is called, in the callbacks' order, exactly as every callback says, on the
-- request and the response of that callback, whatever the earlier ones left on the objects. A function
-- of the request that is given one argument gets it in an array, and the functions of the response get
-- their arguments as they are. `filter` calls the request's `param` if there is one. `render` with
-- Liquid calls the response's `send` with what the service gives for the template's name, with the
-- context under "res" and "data" and, under "req", the host's request of that callback, in which the
-- callback's own sanitizers and updates up to then show; it calls nothing for another library or
-- where the service throws.
pub serve_all-calls :
    (w : World) (filters : Bool) (visits : List Visit) (s : Session)
    → All (IsOwnVisit filters) visits
    → IsFresh w filters s
    → (serve_all w visits s).calls ≡ s.calls ++ all_calls w filters visits
unfolding perform_all
serve_all-calls w filters [] s h fresh = sym (append-nil s.calls)
serve_all-calls w filters (v ∷ vs) s (h, hs) fresh =
    let (calls, later) =
      perform_all-Serves w filters v.request v.response v.events
        (perform w (dispatch v.request v.response) s) (begun_with v) h.offered
        (begun-Serves w filters v s h fresh) in
    serve_all-calls w filters vs (served w v.request v.response v.events s) hs later
    ∙ rw calls (
        append_assoc s.calls (calls_of w filters v.request v.response v.events (begun_with v))
          (all_calls w filters vs))
