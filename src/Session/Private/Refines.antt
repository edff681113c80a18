-- ===== src/Session/Private/Refines.antt =====
-- The shared objects serve each callback as a request of its own would
-- (core/src/main/resources/com/sandbox/runtime/v2/js/version_3/sandbox-patch.js, `wrapCallback`, and
-- sandbox-validator.js).
use mathlib.Core.Path.{subst}
use worker_cli.Prelude.{
  Bool, Option, if◌then◌else◌, String, false, ◌≡◌, refl, sym, ap, ◌∙◌, none, some, List, [], ◌∷◌,
  All, lookup, ◌==◌,
}
use worker_cli.Js.{string, Value, Engine, Result, ok, throw}
use worker_cli.Validator.{Request}
use worker_cli.Validator.Params.{
  body_getter, params_getter, query_getter, check_getter, header_getter,
}
use worker_cli.Validator.Checks.{Check, live}
use worker_cli.Validator.Sanitizers.{call_sanitizer}
use worker_cli.Validator.Checks.Chains.{run_chain-Adds}
use worker_cli.Validator.Sanitizers.Spares.{Spares, update_param-Spares, call_sanitizer-Spares}
use worker_cli.Validator.Agree.{
  Agree, AgreeResult, run_chain-Agree, update_param-Agree, call_sanitizer-Agree,
}
use worker_cli.Wrapping.{Property, value, faults, method, forward_request, forward_response, render}
use worker_cli.Session.{
  check_of, World, Session, read, errors_of, view, write_back, write_places, write_updated, Source,
  anywhere, body, params, query, header, getter_of, Event, dispatch, check, sanitize, update,
  json_schema, on_validation_error, render_template, call_request, call_response, forwarded,
  sanitized, IsOwn, run_check, perform, perform_all,
}
use worker_cli.Session.Writes.{
  at, at-put, run_render-wrappers, note-wrappers, at-write_back, at-write_places,
  params-write_places, query-write_places, body-write_places,
}
use worker_cli.Session.Scripts.{schema_check-Agree, schema_check-SchemaKeeps}
use worker_cli.Session.Isolation.{view-write_back}
use worker_cli.Session.Private.{
  callable, checked, updated, private_step, private_run, private_of, Reads,
}

view-Agree :
    {filters : Bool} {s : Session} {req : Request} → Reads filters s req → Agree req (view s)
unfolding view
view-Agree h = record {
  params = sym (ap read h.params);
  query = sym (ap read h.query);
  body = sym (ap read h.body);
  headers = sym (ap read h.headers);
  errors = sym h.errors;
}

-- The getters read no more than the four places.
getter_of-places :
    (e : Engine) (source : Source) (req : Request)
    → getter_of source e (private_of req.params req.query req.body req.headers)
      ≡ getter_of source e req
unfolding check_getter body_getter params_getter query_getter header_getter
getter_of-places e anywhere req = refl
getter_of-places e body req = refl
getter_of-places e params req = refl
getter_of-places e query req = refl
getter_of-places e header req = refl

getter_of-Agree :
    (e : Engine) (source : Source) {a b : Request}
    → Agree a b
    → getter_of source e a ≡ getter_of source e b
getter_of-Agree e source {a} {b} h =
    sym (getter_of-places e source a)
    ∙ (λ i. getter_of source e (private_of (h.params i) (h.query i) (h.body i) (h.headers i)))
    ∙ getter_of-places e source b

-- The chain, or the schema's check, is written back.
Reads-write_back :
    {filters : Bool} {s : Session} {req after : Request} (wrote : Request)
    → Reads filters s req
    → Agree after wrote
    → after.params ≡ req.params
    → after.query ≡ req.query
    → after.body ≡ req.body
    → after.headers ≡ req.headers
    → (after.errors ≡ none → req.errors ≡ none)
    → Reads filters (write_back wrote s) after
unfolding view
Reads-write_back {s = s} {req = req} {after = after} wrote h same p q b d kept = record {
  params = at-write_back wrote s "params" refl ∙ h.params ∙ ap (λ v. some (value v)) (sym p);
  query = at-write_back wrote s "query" refl ∙ h.query ∙ ap (λ v. some (value v)) (sym q);
  body = at-write_back wrote s "body" refl ∙ h.body ∙ ap (λ v. some (value v)) (sym b);
  headers = at-write_back wrote s "headers" refl ∙ h.headers ∙ ap (λ v. some (value v)) (sym d);
  param = ap callable (at-write_back wrote s "param" refl) ∙ h.param;
  errors =
      view-write_back wrote s (λ unset. h.errors ∙ kept (same.errors ∙ unset)) ∙ sym same.errors;
}

-- The three places are written back.
Reads-write_places :
    {filters : Bool} {s : Session} {req after : Request} (wrote : Request)
    → Reads filters s req
    → Agree after wrote
    → after.headers ≡ req.headers
    → after.errors ≡ req.errors
    → Reads filters (write_places wrote s) after
Reads-write_places {s = s} {req = req} {after = after} wrote h same d e = record {
  params =
      params-write_places wrote s req.params h.params ∙ ap (λ v. some (value v)) (sym same.params);
  query = query-write_places wrote s req.query h.query ∙ ap (λ v. some (value v)) (sym same.query);
  body = body-write_places wrote s req.body h.body ∙ ap (λ v. some (value v)) (sym same.body);
  headers =
      at-write_places wrote s "headers" refl refl refl
      ∙ h.headers
      ∙ ap (λ v. some (value v)) (sym d);
  param = ap callable (at-write_places wrote s "param" refl refl refl) ∙ h.param;
  errors =
      ap errors_of (at-write_places wrote s "_validationErrors" refl refl refl) ∙ h.errors ∙ sym e;
}

-- A session in which only the error callback differs.
Reads-same :
    {filters : Bool} {s t : Session} {req : Request}
    → ((k : String) → ("onErrorCallback" == k) ≡ false → at t k ≡ at s k)
    → Reads filters s req
    → Reads filters t req
Reads-same same h = record {
  params = same "params" refl ∙ h.params;
  query = same "query" refl ∙ h.query;
  body = same "body" refl ∙ h.body;
  headers = same "headers" refl ∙ h.headers;
  param = ap callable (same "param" refl) ∙ h.param;
  errors = ap errors_of (same "_validationErrors" refl) ∙ h.errors;
}

module _ (w : World) (filters : Bool) where
  Reads-updated :
      {s : Session} {req : Request} (x y : Result (Value × Request))
      → Reads filters s req
      → AgreeResult x y
      → Spares req x
      → Reads filters (write_updated y s) (updated w x req)
  Reads-updated (ok (given, after)) (ok (given', wrote)) h (same, agrees) (d, e) =
      Reads-write_places wrote h agrees d e
  Reads-updated (throw err) (throw err') h a k = h
  Reads-updated (ok p) (throw err) h a k = absurd a
  Reads-updated (throw err) (ok p) h a k = absurd a

  -- With one of the host's functions the call is noted and the value written; else nothing happens.
  Reads-sanitized :
      {s : Session} {req : Request} (p : Option Property) (args : List Value)
      (x y : Result (Value × Request))
      → Reads filters s req
      → AgreeResult x y
      → Spares req x
      → Reads filters
          (sanitized (forwarded p args) y s)
          (if callable p then updated w x req else req)
  Reads-sanitized none args x y h agrees spares = h
  Reads-sanitized (some (value v)) args x y h agrees spares = h
  Reads-sanitized (some (faults fs)) args x y h agrees spares = h
  Reads-sanitized (some (method name)) args x y h agrees spares = h
  Reads-sanitized (some (forward_request host name)) args x y h agrees spares =
      Reads-updated x y (Reads-same (λ k other. refl) h) agrees spares
  Reads-sanitized (some (forward_response host name)) args x y h agrees spares =
      Reads-updated x y (Reads-same (λ k other. refl) h) agrees spares
  Reads-sanitized (some (render request)) args x y h agrees spares = h

  Reads-checked :
      {s : Session} {req : Request} (calls : List (String × List Value)) (r r' : Result Check)
      → r ≡ r'
      → Reads filters s req
      → Reads filters (run_check w r' calls s) (checked w r calls req)
  Reads-checked calls (throw err) r' same h = rw (← same) h
  Reads-checked {s} {req} calls (ok c) r' same h =
      let (result, agrees) =
        run_chain-Agree w.library w.options c live calls req (view s) (view-Agree h) in
      let adds = run_chain-Adds w.library w.options c live calls req in
      rw (← same)
        (Reads-write_back _ h agrees adds.params adds.query adds.body adds.headers adds.kept)

  pub Reads-perform :
      {s : Session} {req : Request} (event : Event)
      → IsOwn event
      → Reads filters s req
      → Reads filters (perform w event s) (private_step w filters event req)
  unfolding perform
  Reads-perform (dispatch request response) own h = absurd own
  Reads-perform {s} {req} (check source param fail_msg calls) own h =
      Reads-checked calls _ _
        (ap (λ getter. check_of w.script w.engine getter param fail_msg)
          (getter_of-Agree w.engine source (view-Agree h)))
        h
  Reads-perform {s} {req} (sanitize param given name args) own h =
      subst
        (λ b.
          Reads filters
            (sanitized (forwarded (lookup "param" s.wrappers.request) (string param ∷ []))
              (call_sanitizer w.engine w.library param given name args (view s)) s)
            (if b
              then updated w (call_sanitizer w.engine w.library param given name args req) req
              else req))
        h.param
        (Reads-sanitized (lookup "param" s.wrappers.request) (string param ∷ []) _ _ h
          (call_sanitizer-Agree w.engine w.library param given name args (view-Agree h))
          (call_sanitizer-Spares w.engine w.library param given name args req))
  Reads-perform {s} {req} (update name given) own h =
      Reads-updated _ _ h (update_param-Agree w.engine name given (view-Agree h))
        (update_param-Spares w.engine name given req)
  Reads-perform {s} {req} (json_schema filename) own h =
      let (result, agrees) = schema_check-Agree w.script filename (view-Agree h) in
      let (p, q, b, d, kept) = schema_check-SchemaKeeps w.script filename req in
      Reads-write_back _ h agrees p q b d kept
  Reads-perform {s} (on_validation_error errback) own h =
      Reads-same (λ k other. at-put "onErrorCallback" k other (value errback) s) h
  Reads-perform {s} (render_template args) own h =
      Reads-same (λ k other. ap (λ both. lookup k both.request) (run_render-wrappers w _ args s)) h
  Reads-perform {s} (call_request name args) own h =
      Reads-same (λ k other. ap (λ both. lookup k both.request) (note-wrappers _ s)) h
  Reads-perform {s} (call_response name args) own h =
      Reads-same (λ k other. ap (λ both. lookup k both.request) (note-wrappers _ s)) h

  pub Reads-perform_all :
      (events : List Event) {s : Session} {req : Request}
      → All IsOwn events
      → Reads filters s req
      → Reads filters (perform_all w events s) (private_run w filters events req)
  unfolding perform_all
  Reads-perform_all [] own h = h
  Reads-perform_all (event ∷ events) (own, owns_all) h =
      Reads-perform_all events owns_all (Reads-perform event own h)
