-- ===== src/Session/Frame.antt =====
-- What the events of a callback leave of the wrapped objects
-- (core/src/main/resources/com/sandbox/runtime/v2/js/version_3/sandbox-patch.js, `wrapCallback`, and
-- sandbox-validator.js).
use worker_cli.Prelude.{String, false, ◌≡◌, ◌≢◌, refl, ap, Option, none, some, List, lookup, ◌==◌}
use worker_cli.Js.{Value, Result, ok, throw}
use worker_cli.Validator.{Request}
use worker_cli.Validator.Checks.{Check, live, run_chain}
use worker_cli.Wrapping.{value}
use worker_cli.Session.{
  World, HostCall, Session, view, note, sanitized, schema_check_of, write_updated, Event, dispatch,
  check, sanitize, update, json_schema, on_validation_error, render_template, call_request,
  call_response, run_check, IsOwn, perform,
}
use worker_cli.Session.Writes.{
  at, at-put, note-wrappers, run_render-wrappers, at-write_back, at-write_places, rest,
  write_places-rest, write_back-rest,
}

-- A name under which the methods of the validator put nothing
abbrev pub Untouched : String → Type 0
Untouched k =
    (("params" == k) ≡ false)
    × (("query" == k) ≡ false)
    × (("body" == k) ≡ false)
    × (("_validationErrors" == k) ≡ false)

-- The event is one of a callback, and puts nothing under the name.
abbrev pub Spares : String → Event → Type 0
Spares k (dispatch request response) = ⊥
Spares k (on_validation_error errback) = ("onErrorCallback" == k) ≡ false
Spares k _ = Unit

-- A name under which neither the validator nor a callback's error callback puts anything
abbrev pub IsFree : String → Type 0
IsFree k = Untouched k × (("onErrorCallback" == k) ≡ false)

pub IsFree-distinct : (k : String) → IsFree k → k ≢ "_validationErrors"
IsFree-distinct k free e = cc (rw e at free.0.3)

pub IsOwn-Spares :
    (event : Event) (k : String) → IsOwn event → ("onErrorCallback" == k) ≡ false → Spares k event
IsOwn-Spares (dispatch q r) k h other = absurd h
IsOwn-Spares (check source param fail_msg calls) k h other = tt
IsOwn-Spares (sanitize param given name args) k h other = tt
IsOwn-Spares (update name given) k h other = tt
IsOwn-Spares (json_schema filename) k h other = tt
IsOwn-Spares (on_validation_error errback) k h other = other
IsOwn-Spares (render_template args) k h other = tt
IsOwn-Spares (call_request name args) k h other = tt
IsOwn-Spares (call_response name args) k h other = tt

module _ (w : World) (k : String) (untouched : Untouched k) where
  at-run_check :
      (r : Result Check) (calls : List (String × List Value)) (s : Session)
      → at (run_check w r calls s) k ≡ at s k
  at-run_check (throw err) calls s = refl
  at-run_check (ok c) calls s =
      at-write_back (run_chain w.library w.options c live calls (view s)).1 s k untouched.3

  at-write_updated :
      (r : Result (Value × Request)) (s : Session) → at (write_updated r s) k ≡ at s k
  at-write_updated (throw err) s = refl
  at-write_updated (ok (returned, req)) s =
      at-write_places req s k untouched.0 untouched.1 untouched.2

  at-sanitized :
      (c : Option HostCall) (r : Result (Value × Request)) (s : Session)
      → at (sanitized c r s) k ≡ at s k
  at-sanitized none r s = refl
  at-sanitized (some c) r s = at-write_updated r (note (some c) s)

  -- Under any other name a callback leaves what was there.
  pub at-perform :
      (event : Event) (s : Session) → Spares k event → at (perform w event s) k ≡ at s k
  unfolding perform
  at-perform (dispatch request response) s h = absurd h
  at-perform (check source param fail_msg calls) s h = at-run_check _ calls s
  at-perform (sanitize param given name args) s h = at-sanitized _ _ s
  at-perform (update name given) s h = at-write_updated _ s
  at-perform (json_schema filename) s h =
      at-write_back (schema_check_of w.script filename (view s)).1 s k untouched.3
  at-perform (on_validation_error errback) s h = at-put "onErrorCallback" k h (value errback) s
  at-perform (render_template args) s h =
      ap (λ both. lookup k both.request) (run_render-wrappers w _ args s)
  at-perform (call_request name args) s h = ap (λ both. lookup k both.request) (note-wrappers _ s)
  at-perform (call_response name args) s h = ap (λ both. lookup k both.request) (note-wrappers _ s)

write_updated-rest :
    (r : Result (Value × Request)) (s : Session) → rest (write_updated r s) ≡ rest s
write_updated-rest (throw err) s = refl
write_updated-rest (ok (returned, req)) s = write_places-rest req s

run_check-rest :
    (w : World) (r : Result Check) (calls : List (String × List Value)) (s : Session)
    → rest (run_check w r calls s) ≡ rest s
run_check-rest w (throw err) calls s = refl
run_check-rest w (ok c) calls s = write_back-rest _ s

-- An event that calls none of the host's functions
abbrev pub IsQuiet : Event → Type 0
IsQuiet (check source param fail_msg calls) = Unit
IsQuiet (update name given) = Unit
IsQuiet (json_schema filename) = Unit
IsQuiet (on_validation_error errback) = Unit
IsQuiet _ = ⊥

pub rest-perform :
    (w : World) (event : Event) (s : Session) → IsQuiet event → rest (perform w event s) ≡ rest s
unfolding perform
rest-perform w (check source param fail_msg calls) s h = run_check-rest w _ calls s
rest-perform w (update name given) s h = write_updated-rest _ s
rest-perform w (json_schema filename) s h =
    write_back-rest (schema_check_of w.script filename (view s)).1 s
rest-perform w (on_validation_error errback) s h = refl
rest-perform w (dispatch request response) s h = absurd h
rest-perform w (sanitize param given name args) s h = absurd h
rest-perform w (render_template args) s h = absurd h
rest-perform w (call_request name args) s h = absurd h
rest-perform w (call_response name args) s h = absurd h

-- Where the host's function `param` is called, the call is noted before the value is written.
pub rest-sanitized :
    (c : HostCall) (r : Result (Value × Request)) (s : Session)
    → rest (sanitized (some c) r s) ≡ rest (note (some c) s)
rest-sanitized c r s = write_updated-rest r (note (some c) s)

sanitized-response :
    (c : Option HostCall) (r : Result (Value × Request)) (s : Session)
    → (sanitized c r s).wrappers.response ≡ s.wrappers.response
sanitized-response none r s = refl
sanitized-response (some c) r s = ap (λ x. x.0) (rest-sanitized c r s)

-- A callback writes nothing to the wrapped response.
pub perform-response :
    (w : World) (event : Event) (s : Session)
    → IsOwn event
    → (perform w event s).wrappers.response ≡ s.wrappers.response
unfolding perform
perform-response w (dispatch request response) s h = absurd h
perform-response w (check source param fail_msg calls) s h =
    ap (λ x. x.0) (rest-perform w (check source param fail_msg calls) s tt)
perform-response w (update name given) s h = ap (λ x. x.0) (rest-perform w (update name given) s tt)
perform-response w (json_schema filename) s h =
    ap (λ x. x.0) (rest-perform w (json_schema filename) s tt)
perform-response w (on_validation_error errback) s h = refl
perform-response w (sanitize param given name args) s h = sanitized-response _ _ s
perform-response w (render_template args) s h =
    ap (λ both. both.response) (run_render-wrappers w _ args s)
perform-response w (call_request name args) s h = ap (λ both. both.response) (note-wrappers _ s)
perform-response w (call_response name args) s h = ap (λ both. both.response) (note-wrappers _ s)
