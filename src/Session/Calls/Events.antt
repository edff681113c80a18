-- ===== src/Session/Calls/Events.antt =====
-- The calls of the host that one event of a callback makes
-- (core/src/main/resources/com/sandbox/runtime/v2/js/version_3/sandbox-patch.js, `wrapCallback`).
use worker_cli.Prelude.{
  none, Bool, Dict, if◌then◌else◌, map, String, ◌≡◌, suc, eqb, eqb_iff, length, Bool-cases, inl,
  inr, arith, refl, sym, ap, ◌∙◌, some, List, [], ◌∷◌, ◌++◌, lookup, append-nil,
}
use worker_cli.Validator.{Request}
use worker_cli.Session.Writes.{at}
use worker_cli.Js.{Result, obj, Value, string, arr}
use worker_cli.Validator.Sanitizers.{call_sanitizer}
use worker_cli.Templates.Laws.{Remembers}
use worker_cli.Wrapping.{current_properties, forward_request, HostObject, request_arguments}
use worker_cli.Session.{
  forwarded, view, World, HostCall, Session, sanitized, Event, dispatch, check, sanitize, update,
  json_schema, on_validation_error, render_template, call_request, call_response, IsOwn, perform,
}
use worker_cli.Session.Frame.{
  IsOwn-Spares, perform-response, at-perform, IsQuiet, rest-perform, rest-sanitized,
}
use worker_cli.Session.Rendering.{table, sent_by, rendered_for, run_render-calls}
use worker_cli.Session.Private.{Reads, private_step}
use worker_cli.Session.Private.Refines.{Reads-perform}
use worker_cli.Session.Calls.{properties_now, boxed, IsOffered, called_by, Serves}

request_arguments-boxed : (args : List Value) → request_arguments args ≡ boxed args
unfolding request_arguments
request_arguments-boxed [] = refl
request_arguments-boxed (arg ∷ []) = refl
request_arguments-boxed (arg ∷ other ∷ args) = elim (Bool-cases (eqb (suc (suc (length args))) 1)) [
  | inl one ↦
      let two : suc (suc (length args)) ≡ 1 = (eqb_iff (suc (suc (length args))) 1).0 one in
      let none_such : ⊥ = omega (arith, two) in absurd none_such
  | inr several ↦ rw several refl
]

IsOffered-IsOwn :
    (request response : HostObject) (event : Event) → IsOffered request response event → IsOwn event
IsOffered-IsOwn request response (dispatch q r) h = absurd h
IsOffered-IsOwn request response (check source param fail_msg calls) h = tt
IsOffered-IsOwn request response (sanitize param given name args) h = tt
IsOffered-IsOwn request response (update name given) h = tt
IsOffered-IsOwn request response (json_schema filename) h = tt
IsOffered-IsOwn request response (on_validation_error errback) h = tt
IsOffered-IsOwn request response (render_template args) h = tt
IsOffered-IsOwn request response (call_request name args) h = tt
IsOffered-IsOwn request response (call_response name args) h = tt

-- The host's request as it is now is what the callback has made of it.
current_properties-Reads :
    (filters : Bool) (t : Session) (now : Request) (properties : Dict Value)
    → Reads filters t now
    → current_properties t.wrappers.request properties ≡ properties_now now properties
current_properties-Reads filters t now [] h = refl
current_properties-Reads filters t now ((name, v) ∷ properties) h =
    rw (current_properties-Reads filters t now properties h, h.params, h.query, h.body) refl

module _ (w : World) (filters : Bool) (request response : HostObject) where
  -- What an event adds to the calls, and that the table stays as it should be
  abbrev pub Steps : Event → Session → Request → Type 0
  Steps event t now =
      ((perform w event t).calls ≡ t.calls ++ called_by w filters request response event now)
      × Remembers w.service (table (perform w event t))

  same_table :
      (t u : Session)
      → u.functions ≡ t.functions
      → Remembers w.service (table t)
      → Remembers w.service (table u)
  same_table t u same m = rw same m

  quiet :
      (event : Event) (t : Session) (now : Request)
      → IsQuiet event
      → called_by w filters request response event now ≡ []
      → Serves w filters request response t now
      → Steps event t now
  quiet event t now h none_called serves =
      let kept = rest-perform w event t h in
      (
        ap (λ x. x.2) kept ∙ sym (append-nil t.calls) ∙ ap (λ cs. t.calls ++ cs) (sym none_called),
        same_table t (perform w event t) (ap (λ x. x.1) kept) serves.remembers,
      )

  filtered :
      (param : String) (r : Result (Value × Request)) (t : Session) (now : Request)
      → Serves w filters request response t now
      → let u = sanitized (forwarded (at t "param") (string param ∷ [])) r t in
        (u.calls
          ≡ t.calls
            ++ (if filters
                then record {
                  host = request.host;
                  name = "param";
                  args = arr (string param ∷ []) ∷ [];
                }
                  ∷ []
                else []))
        × Remembers w.service (table u)
  unfolding request_arguments
  filtered param r t now serves = elim (Bool-cases filters) [
    | inl can ↦
        let found : at t "param" ≡ some (forward_request request.host "param") =
          serves.filter_at ∙ rw can refl in
        let c : HostCall = record {
          host = request.host;
          name = "param";
          args = arr (string param ∷ []) ∷ [];
        } in
        let kept = rest-sanitized c r t in
        rw (found, can)
          (
            ap (λ x. x.2) kept,
            same_table t (sanitized (some c) r t) (ap (λ x. x.1) kept) serves.remembers,
          )
    | inr cannot ↦
        let gone : at t "param" ≡ none = serves.filter_at ∙ rw cannot refl in
        rw (gone, cannot) (sym (append-nil t.calls), serves.remembers)
  ]

  pub perform-Steps :
      (event : Event) (t : Session) (now : Request)
      → IsOffered request response event
      → Serves w filters request response t now
      → Steps event t now
  unfolding perform
  perform-Steps (dispatch other_request other_response) t now h serves = absurd h
  perform-Steps (check source param fail_msg calls) t now h serves =
      quiet (check source param fail_msg calls) t now tt refl serves
  perform-Steps (update name given) t now h serves = quiet (update name given) t now tt refl serves
  perform-Steps (json_schema filename) t now h serves =
      quiet (json_schema filename) t now tt refl serves
  perform-Steps (on_validation_error errback) t now h serves =
      quiet (on_validation_error errback) t now tt refl serves
  perform-Steps (sanitize param given name args) t now h serves =
      filtered param (call_sanitizer w.engine w.library param given name args (view t)) t now serves
  perform-Steps (render_template args) t now h serves =
      let (calls, remembers) =
        run_render-calls w request args response.host t (serves.response_at "send" _ refl h)
          serves.remembers in
      rw serves.render_at (
        calls
            ∙ ap
                (λ properties.
                  t.calls ++ map (sent_by response.host) (rendered_for w (obj properties) args))
                (current_properties-Reads filters t now request.properties serves.reads),
        remembers,
      )
  perform-Steps (call_request name args) t now h serves =
      rw (serves.request_at name _ h.0 h.1, request_arguments-boxed args) (refl, serves.remembers)
  perform-Steps (call_response name args) t now h serves =
      rw (serves.response_at name _ h.0 h.1) (refl, serves.remembers)

  pub perform-Serves :
      (event : Event) (t : Session) (now : Request)
      → IsOffered request response event
      → Serves w filters request response t now
      → Serves w filters request response (perform w event t) (private_step w filters event now)
  perform-Serves event t now h serves =
      let own = IsOffered-IsOwn request response event h in
      record {
        request_at = λ k p free there.
            at-perform w k free.0 event t (IsOwn-Spares event k own free.1)
            ∙ serves.request_at k p free there;
        response_at = λ k p other there.
            ap (lookup k) (perform-response w event t own) ∙ serves.response_at k p other there;
        render_at = ap (lookup "render") (perform-response w event t own) ∙ serves.render_at;
        remembers = (perform-Steps event t now h serves).1;
        filter_at =
            at-perform w "param" (refl, refl, refl, refl) event t
              (IsOwn-Spares event "param" own refl)
            ∙ serves.filter_at;
        reads = Reads-perform w filters event own serves.reads;
      }
