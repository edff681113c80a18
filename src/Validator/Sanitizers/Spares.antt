-- ===== src/Validator/Sanitizers/Spares.antt =====
-- `updateParam` and `filter` change neither the headers nor the errors of a request
-- (core/src/main/resources/com/sandbox/runtime/v2/js/version_3/sandbox-validator.js).
use worker_cli.Prelude.{String, Bool, true, false, ◌≡◌, refl, List, ◌∷◌, ◌&&◌, if◌then◌else◌}
use worker_cli.Js.{Value, Engine, Result, ok, throw, ◌>>=◌, type_error}
use worker_cli.Validator.{Request, Library, contains, is_sanitizer}
use worker_cli.Validator.Sanitizers.{
  set_member, owns, defines, holds, assign_params, assign_query, assign_body, update_param,
  sanitize_with, call_sanitizer,
}

-- What `updateParam` leaves as it is.
abbrev pub Spares : Request → Result (Value × Request) → Type 0
Spares req (throw err) = Unit
Spares req (ok (returned, after)) = (after.headers ≡ req.headers) × (after.errors ≡ req.errors)

bind-Spares :
    {B : Type 0} (req : Request) (r : Result B) (f : B → Result (Value × Request))
    → ((x : B) → Spares req (f x))
    → Spares req (r >>= f)
bind-Spares req (ok x) f h = h x
bind-Spares req (throw err) f h = tt

if-Spares :
    (req : Request) (t : Bool) (x y : Result (Value × Request))
    → Spares req x
    → Spares req y
    → Spares req (if t then x else y)
if-Spares req true x y h k = h
if-Spares req false x y h k = k

module _ (e : Engine) (name : String) (v : Value) (req : Request) where
  assign_params-Spares : Spares req (assign_params e name v req)
  unfolding assign_params
  assign_params-Spares = bind-Spares req (set_member e req.params name v) _ λ x. (refl, refl)

  assign_query-Spares : Spares req (assign_query e name v req)
  unfolding assign_query
  assign_query-Spares = bind-Spares req (set_member e req.query name v) _ λ x. (refl, refl)

  assign_body-Spares : Spares req (assign_body e name v req)
  unfolding assign_body
  assign_body-Spares = bind-Spares req (set_member e req.body name v) _ λ x. (refl, refl)

  pub update_param-Spares : Spares req (update_param e name v req)
  unfolding update_param
  update_param-Spares = bind-Spares req (owns e req.params name) _ λ in_params.
      if-Spares req in_params _ _ assign_params-Spares (
        bind-Spares req (defines e req.query name) _ λ in_query.
          if-Spares req in_query _ _ assign_query-Spares (
            bind-Spares req (holds e req.body name) _
              λ in_body. if-Spares req in_body _ _ assign_body-Spares (refl, refl)))

-- The result of a sanitizer in place of what `updateParam` returns.
as_result-Spares :
    (req : Request) (r : Result (Value × Request)) (v : Value)
    → Spares req r
    → Spares req (do p ← r; ok (v, p.1))
as_result-Spares req (ok p) v h = h
as_result-Spares req (throw err) v h = tt

pub call_sanitizer-Spares :
    (e : Engine) (l : Library) (param : String) (given : Value) (name : String) (args : List Value)
    (req : Request)
    → Spares req (call_sanitizer e l param given name args req)
unfolding call_sanitizer
call_sanitizer-Spares e l param given name args req =
    if-Spares req (contains l.methods name && is_sanitizer name)
      (sanitize_with e param req (l.call name (given ∷ args))) (throw type_error)
      (bind-Spares req (l.call name (given ∷ args)) _ λ v.
        as_result-Spares req (update_param e param v req) v (update_param-Spares e param v req))
      tt
