-- ===== src/Session/Persistence.antt =====
-- Error callbacks through a sequence of requests
-- (core/src/main/resources/com/sandbox/runtime/v2/js/version_3/sandbox-validator.js,
-- `onValidationError`, and sandbox-patch.js, `wrapCallback`).
use worker_cli.Prelude.{
  ℕ, String, true, ◌≡◌, refl, ap, ◌∙◌, none, List, [], ◌∷◌, ◌++◌, All, lookup, lookup-insert_self,
}
use worker_cli.Js.{Value, truthy, ok}
use worker_cli.Validator.{Request}
use worker_cli.Validator.Checks.{Check, live, message}
use worker_cli.Validator.Checks.Copies.{copies}
use worker_cli.Validator.Checks.Rejections.{
  notified_after, Judged, rejections, run_chain-rejections,
}
use worker_cli.Wrapping.{value, wrap}
use worker_cli.Wrapping.Laws.{last_image-none, lookup-copy_request}
use worker_cli.Session.{
  check_of, World, Session, read, view, Source, getter_of, Event, dispatch, check,
  on_validation_error, sanitize, update, json_schema, render_template, call_request, call_response,
  perform, perform_all,
}
use worker_cli.Session.Frame.{Spares, at-perform}
use worker_cli.Session.Isolation.{perform-check}

-- The event registers no error callback, and brings none with the request.
abbrev pub Leaves : Event → Type 0
Leaves (dispatch request response) = lookup "onErrorCallback" request.properties ≡ none
Leaves (check source param fail_msg calls) = Unit
Leaves (sanitize param given name args) = Unit
Leaves (update name given) = Unit
Leaves (json_schema filename) = Unit
Leaves (render_template args) = Unit
Leaves (call_request name args) = Unit
Leaves (call_response name args) = Unit
Leaves (on_validation_error errback) = ⊥

view-notified : (s : Session) → (view s).notified ≡ s.notified
unfolding view
view-notified s = refl

called :
    (before : Request) (now : List Value) (n : ℕ) (msg errback : Value)
    → now ≡ notified_after n msg before
    → before.on_error ≡ errback
    → truthy errback ≡ true
    → now ≡ before.notified ++ copies n msg
called before now n msg errback h same live_one = h ∙ rw (same, live_one)

module _ (w : World) where
  at_on_error :
      (event : Event) (s : Session)
      → Spares "onErrorCallback" event
      → (view (perform w event s)).on_error ≡ (view s).on_error
  unfolding view
  at_on_error event s h =
      ap read (at-perform w "onErrorCallback" (refl, refl, refl, refl) event s h)

  perform-on_error :
      (event : Event) (s : Session)
      → Leaves event
      → (view (perform w event s)).on_error ≡ (view s).on_error
  unfolding perform view wrap
  perform-on_error (dispatch request response) s h = ap read (
      lookup-copy_request request.host request.properties s.wrappers.request "onErrorCallback"
        (λ p. cc)
      ∙ last_image-none request.host "onErrorCallback" request.properties _ h)
  perform-on_error (check source param fail_msg calls) s h =
      at_on_error (check source param fail_msg calls) s tt
  perform-on_error (sanitize param given name args) s h =
      at_on_error (sanitize param given name args) s tt
  perform-on_error (update name given) s h = at_on_error (update name given) s tt
  perform-on_error (json_schema filename) s h = at_on_error (json_schema filename) s tt
  perform-on_error (render_template args) s h = at_on_error (render_template args) s tt
  perform-on_error (call_request name args) s h = at_on_error (call_request name args) s tt
  perform-on_error (call_response name args) s h = at_on_error (call_response name args) s tt
  perform-on_error (on_validation_error errback) s h = absurd h

  perform_all-on_error :
      (events : List Event) (s : Session)
      → All Leaves events
      → (view (perform_all w events s)).on_error ≡ (view s).on_error
  unfolding perform_all
  perform_all-on_error [] s h = refl
  perform_all-on_error (event ∷ events) s (leaves, h) =
      perform_all-on_error events (perform w event s) h ∙ perform-on_error event s leaves

  registered :
      (errback : Value) (s : Session)
      → (view (perform w (on_validation_error errback) s)).on_error ≡ errback
  unfolding perform view
  registered errback s =
      ap read (lookup-insert_self "onErrorCallback" (value errback) s.wrappers.request)

  -- With the validator of every version, a truthy error callback that a callback registers stays
  -- for the requests after it: after any events none of which registers another or brings one, the
  -- errors of a check that is made and whose methods test the value without throwing still call it,
  -- once for each call that rejects the value.
  pub notified-perform_all :
      (errback : Value) (events : List Event) (s t : Session) (source : Source)
      (param fail_msg : Value) (calls : List (String × List Value)) (c : Check)
      → truthy errback ≡ true
      → All Leaves events
      → perform_all w (on_validation_error errback ∷ events) s ≡ t
      → check_of w.script w.engine (getter_of source w.engine (view t)) param fail_msg ≡ ok c
      → All (Judged w.library w.options c) calls
      → ((view t).on_error ≡ errback)
        × ((perform w (check source param fail_msg calls) t).notified
            ≡ t.notified ++ copies (rejections w.library w.options c calls) (message c.fail_msg))
  unfolding perform_all
  notified-perform_all errback events s t source param fail_msg calls c live_one leaves later
        made_check judged =
      let kept : (view t).on_error ≡ errback = rw (← later) (
        perform_all-on_error events (perform w (on_validation_error errback) s) leaves
        ∙ registered errback s) in
      let (after, runs, recorded_all) =
        run_chain-rejections w.library w.options c calls (view t) judged in
      (
        kept,
        rw (perform-check w source param fail_msg calls c (ok live) after t made_check runs) (
            called (view t) after.notified _ _ errback recorded_all.notified kept live_one
            ∙ ap (λ ns. ns ++ copies (rejections w.library w.options c calls) (message c.fail_msg))
                (view-notified t)),
      )
