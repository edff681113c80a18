-- ===== src/Session/Methods/Kept.antt =====
-- The methods and the errors through a sequence of requests
-- (core/src/main/resources/com/sandbox/runtime/v2/js/version_3/sandbox-patch.js, `wrapCallback`).
use worker_cli.Prelude.{
  String, ◌≡◌, refl, ap, ◌∙◌, Option, none, some, List, [], ◌∷◌, All, lookup, Option-cases, inl,
  inr, lookup-insert_self,
}
use worker_cli.Js.{Value, Result, ok, throw}
use worker_cli.Validator.{Request}
use worker_cli.Validator.Checks.{Check}
use worker_cli.Wrapping.{Property, value, faults, HostObject, validator_methods, wrap}
use worker_cli.Wrapping.Laws.{last_image-none, lookup-copy_request, copy_request-errors}
use worker_cli.Wrapping.Response.{last_response_image-none, lookup-wrap}
use worker_cli.Session.{
  World, HostCall, Session, view, note, sanitized, schema_check_of, write_back, write_updated,
  Event, dispatch, check, sanitize, update, json_schema, on_validation_error, render_template,
  call_request, call_response, IsOwn, run_check, perform, perform_all,
}
use worker_cli.Session.Writes.{at, at-put, at-write_places, note-wrappers, run_render-wrappers}
use worker_cli.Session.Frame.{IsFree, IsFree-distinct, IsOwn-Spares, at-perform, perform-response}
use worker_cli.Session.Methods.{IsErrors, HasMethods, IsFitted, LeavesMethods}

validator_methods-IsFree : All IsFree validator_methods
validator_methods-IsFree = (
  ((refl, refl, refl, refl), refl),
  (
    ((refl, refl, refl, refl), refl),
    (
      ((refl, refl, refl, refl), refl),
      (
        ((refl, refl, refl, refl), refl),
        (
          ((refl, refl, refl, refl), refl),
          (
            ((refl, refl, refl, refl), refl),
            (
              ((refl, refl, refl, refl), refl),
              (
                ((refl, refl, refl, refl), refl),
                (
                  ((refl, refl, refl, refl), refl),
                  (
                    ((refl, refl, refl, refl), refl),
                    (
                      ((refl, refl, refl, refl), refl),
                      (
                        ((refl, refl, refl, refl), refl),
                        (((refl, refl, refl, refl), refl), (((refl, refl, refl, refl), refl), tt)),
                      ),
                    ),
                  ),
                ),
              ),
            ),
          ),
        ),
      ),
    ),
  ),
)

write_back-IsErrors :
    (req : Request) (s : Session)
    → IsErrors (at s "_validationErrors")
    → IsErrors (at (write_back req s) "_validationErrors")
unfolding write_back
write_back-IsErrors req s h = elim (Option-cases req.errors) [
  | inl unset ↦ rw unset h
  | inr (fs, found) ↦
      rw found (rw (lookup-insert_self "_validationErrors" (faults fs) s.wrappers.request) tt)
]

run_check-IsErrors :
    (w : World) (r : Result Check) (calls : List (String × List Value)) (s : Session)
    → IsErrors (at s "_validationErrors")
    → IsErrors (at (run_check w r calls s) "_validationErrors")
run_check-IsErrors w (throw err) calls s h = h
run_check-IsErrors w (ok c) calls s h = write_back-IsErrors _ s h

write_updated-at_errors :
    (r : Result (Value × Request)) (s : Session)
    → at (write_updated r s) "_validationErrors" ≡ at s "_validationErrors"
write_updated-at_errors (throw err) s = refl
write_updated-at_errors (ok (returned, req)) s =
    at-write_places req s "_validationErrors" refl refl refl

sanitized-at_errors :
    (c : Option HostCall) (r : Result (Value × Request)) (s : Session)
    → at (sanitized c r s) "_validationErrors" ≡ at s "_validationErrors"
sanitized-at_errors none r s = refl
sanitized-at_errors (some c) r s = write_updated-at_errors r (note (some c) s)

IsErrors-same : {a b : Option Property} → a ≡ b → IsErrors b → IsErrors a
IsErrors-same same h = rw same h

module _ (w : World) where
  own-IsErrors :
      (event : Event) (s : Session)
      → IsOwn event
      → IsErrors (at s "_validationErrors")
      → IsErrors (at (perform w event s) "_validationErrors")
  unfolding perform
  own-IsErrors (dispatch request response) s own h = absurd own
  own-IsErrors (check source param fail_msg calls) s own h = run_check-IsErrors w _ calls s h
  own-IsErrors (sanitize param given name args) s own h =
      IsErrors-same (sanitized-at_errors _ _ s) h
  own-IsErrors (update name given) s own h = IsErrors-same (write_updated-at_errors _ s) h
  own-IsErrors (json_schema filename) s own h =
      write_back-IsErrors (schema_check_of w.script filename (view s)).1 s h
  own-IsErrors (on_validation_error errback) s own h =
      IsErrors-same (at-put "onErrorCallback" "_validationErrors" refl (value errback) s) h
  own-IsErrors (render_template args) s own h =
      IsErrors-same
        (ap (λ both. lookup "_validationErrors" both.request) (run_render-wrappers w _ args s)) h
  own-IsErrors (call_request name args) s own h =
      IsErrors-same (ap (λ both. lookup "_validationErrors" both.request) (note-wrappers _ s)) h
  own-IsErrors (call_response name args) s own h =
      IsErrors-same (ap (λ both. lookup "_validationErrors" both.request) (note-wrappers _ s)) h

  own-HasMethods :
      (event : Event) (s : Session) (names : List String)
      → IsOwn event
      → All IsFree names
      → HasMethods s names
      → HasMethods (perform w event s) names
  own-HasMethods event s [] own free h = tt
  own-HasMethods event s (name ∷ names) own (f, fs) (h, hs) = (
    at-perform w name f.0 event s (IsOwn-Spares event name own f.1) ∙ h,
    own-HasMethods event s names own fs hs,
  )

  own-IsFitted :
      (event : Event) (s : Session) → IsOwn event → IsFitted s → IsFitted (perform w event s)
  own-IsFitted event s own h = record {
    methods = own-HasMethods event s validator_methods own validator_methods-IsFree h.methods;
    renders = ap (lookup "renderWithRequest") (perform-response w event s own) ∙ h.renders;
    errors = own-IsErrors event s own h.errors;
  }

  -- The copying of a request without the names leaves the methods.
  dispatch-HasMethods :
      (request response : HostObject) (s : Session) (names : List String)
      → All IsFree names
      → All (λ name. lookup name request.properties ≡ none) names
      → HasMethods s names
      → HasMethods (perform w (dispatch request response) s) names
  unfolding perform wrap
  dispatch-HasMethods request response s [] free leaves h = tt
  dispatch-HasMethods request response s (name ∷ names) (f, fs) (l, ls) (h, hs) = (
    lookup-copy_request request.host request.properties s.wrappers.request name
          (IsFree-distinct name f)
        ∙ last_image-none request.host name request.properties (at s name) l
        ∙ h,
    dispatch-HasMethods request response s names fs ls hs,
  )

  dispatch-IsFitted :
      (request response : HostObject) (s : Session)
      → LeavesMethods (dispatch request response)
      → IsFitted s
      → IsFitted (perform w (dispatch request response) s)
  unfolding perform wrap
  dispatch-IsFitted request response s (leaves, no_errors, no_render) h = record {
    methods =
        dispatch-HasMethods request response s validator_methods validator_methods-IsFree leaves
          h.methods;
    renders =
        lookup-wrap request response s.wrappers "renderWithRequest"
        ∙ last_response_image-none response.host "renderWithRequest" response.properties _ no_render
        ∙ h.renders;
    errors =
        copy_request-errors IsErrors refl request.host request.properties s.wrappers.request
          no_errors h.errors;
  }

  perform-IsFitted :
      (event : Event) (s : Session)
      → LeavesMethods event
      → IsFitted s
      → IsFitted (perform w event s)
  perform-IsFitted (dispatch request response) s leaves h =
      dispatch-IsFitted request response s leaves h
  perform-IsFitted (check source param fail_msg calls) s leaves h =
      own-IsFitted (check source param fail_msg calls) s tt h
  perform-IsFitted (sanitize param given name args) s leaves h =
      own-IsFitted (sanitize param given name args) s tt h
  perform-IsFitted (update name given) s leaves h = own-IsFitted (update name given) s tt h
  perform-IsFitted (json_schema filename) s leaves h = own-IsFitted (json_schema filename) s tt h
  perform-IsFitted (on_validation_error errback) s leaves h =
      own-IsFitted (on_validation_error errback) s tt h
  perform-IsFitted (render_template args) s leaves h = own-IsFitted (render_template args) s tt h
  perform-IsFitted (call_request name args) s leaves h =
      own-IsFitted (call_request name args) s tt h
  perform-IsFitted (call_response name args) s leaves h =
      own-IsFitted (call_response name args) s tt h

  -- On the two shared objects the methods of the validator and of the templates stay what they are,
  -- and the errors are unset or an array of errors and never any other value, through every
  -- sequence of requests and of events of their callbacks, where the host's objects have no properties
  -- of these names.
  pub perform_all-IsFitted :
      (events : List Event) (s : Session)
      → All LeavesMethods events
      → IsFitted s
      → IsFitted (perform_all w events s)
  unfolding perform_all
  perform_all-IsFitted [] s leaves h = h
  perform_all-IsFitted (event ∷ events) s (l, ls) h =
      perform_all-IsFitted events (perform w event s) ls (perform-IsFitted event s l h)
