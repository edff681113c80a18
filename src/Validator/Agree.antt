-- ===== src/Validator/Agree.antt =====
-- The methods of a request, whatever error callback it has
-- (core/src/main/resources/com/sandbox/runtime/v2/js/version_3/sandbox-validator.js): on two requests
-- with the same data and errors they give the same result, and leave the same data and errors.
use worker_cli.Prelude.{
  String, Bool, true, false, ◌≡◌, refl, sym, ap, ◌∙◌, Option, none, some, List, [], ◌∷◌, ◌++◌, ◌&&◌,
  map, Bool-cases, Option-cases, inl, inr, if◌then◌else◌,
}
use worker_cli.Js.{Value, truthy, Engine, Result, ok, throw, ◌>>=◌}
use worker_cli.Validator.{
  Fault, Request, Library, Options, contains, recorded, push_error, is_sanitizer,
}
use worker_cli.Validator.Checks.{
  Check, Chain, live, dummy, other, Method, library, custom, not_empty, len, optional,
  array_is_length, message, notify, error_handler, judge, go_on, find_method, call_is_length,
  run_method, call_method, run_chain,
}
use worker_cli.Validator.Sanitizers.{
  set_member, owns, defines, holds, assign_params, assign_query, assign_body, update_param,
  call_sanitizer,
}
use worker_cli.Schemas.{
  SchemaError, SchemaHost, require_ajv, require_text, schema_file, meta_schemas, validate_body,
  record_verdict, check_json_schema, schema_fault,
}

pub record Agree (a b : Request) : Type 0 where
  pub params : a.params ≡ b.params
  pub query : a.query ≡ b.query
  pub body : a.body ≡ b.body
  pub headers : a.headers ≡ b.headers
  pub errors : a.errors ≡ b.errors

pub Agree-trans : {a b c : Request} → Agree a b → Agree b c → Agree a c
Agree-trans x y = record {
  params = x.params ∙ y.params;
  query = x.query ∙ y.query;
  body = x.body ∙ y.body;
  headers = x.headers ∙ y.headers;
  errors = x.errors ∙ y.errors;
}

pub Agree-sym : {a b : Request} → Agree a b → Agree b a
Agree-sym x = record {
  params = sym x.params;
  query = sym x.query;
  body = sym x.body;
  headers = sym x.headers;
  errors = sym x.errors;
}

-- The same result, and requests that agree.
abbrev pub AgreeOutcome {ℓ} : {A : Type ℓ} → A × Request → A × Request → Type ℓ
AgreeOutcome x y = (x.0 ≡ y.0) × Agree x.1 y.1

notify-Agree : (msg : Value) (a : Request) → Agree (notify msg a) a
notify-Agree msg a = elim (Bool-cases (truthy a.on_error)) [
  | inl calls ↦
      rw calls (record { params = refl; query = refl; body = refl; headers = refl; errors = refl })
  | inr silent ↦
      rw silent (record { params = refl; query = refl; body = refl; headers = refl; errors = refl })
]

push_error-Agree : (f : Fault) {a b : Request} → Agree a b → Agree (push_error f a) (push_error f b)
push_error-Agree f h = record {
  params = h.params;
  query = h.query;
  body = h.body;
  headers = h.headers;
  errors = ap (λ errs. some (recorded errs ++ f ∷ [])) h.errors;
}

module _ (l : Library) (o : Options) (c : Check) where
  error_handler-Agree :
      (msg : Value) {a b : Request}
      → Agree a b
      → Agree (error_handler o c msg a) (error_handler o c msg b)
  error_handler-Agree msg h = Agree-trans (notify-Agree msg _) (
      Agree-trans (push_error-Agree (o.error_formatter c.param msg c.value) h)
        (Agree-sym (notify-Agree msg _)))

  judge-Agree :
      (r : Result Value) {a b : Request} → Agree a b → AgreeOutcome (judge o c r a) (judge o c r b)
  unfolding judge
  judge-Agree (throw e) h = (refl, h)
  judge-Agree (ok v) h = elim (Bool-cases (truthy v)) [
    | inl correct ↦ (refl, rw correct h)
    | inr wrong ↦ (refl, rw wrong (error_handler-Agree (message c.fail_msg) h))
  ]

  call_is_length-Agree :
      (args : List Value) {a b : Request}
      → Agree a b
      → AgreeOutcome (call_is_length l o c args a) (call_is_length l o c args b)
  unfolding call_is_length
  call_is_length-Agree args h = elim (Bool-cases (contains o.custom_names "isLength")) [
    | inl custom_one ↦ rw custom_one (judge-Agree _ h)
    | inr not_custom ↦ elim (Bool-cases (contains l.methods "isLength")) [
      | inl library_one ↦ rw (not_custom, library_one) (judge-Agree _ h)
      | inr missing ↦ rw (not_custom, missing) (refl, h)
    ]
  ]

  run_method-Agree :
      (m : Method) (args : List Value) {a b : Request}
      → Agree a b
      → AgreeOutcome (run_method l o m c args a) (run_method l o m c args b)
  unfolding run_method
  run_method-Agree (library name) args h = judge-Agree _ h
  run_method-Agree (custom name) args h = judge-Agree _ h
  run_method-Agree not_empty args h = call_is_length-Agree _ h
  run_method-Agree len args h = call_is_length-Agree args h
  run_method-Agree optional args h = (refl, h)
  run_method-Agree array_is_length args h = (refl, h)

  call_method-Agree :
      (chain : Chain) (name : String) (args : List Value) {a b : Request}
      → Agree a b
      → AgreeOutcome (call_method l o c chain name args a) (call_method l o c chain name args b)
  unfolding call_method
  call_method-Agree live name args h = elim (Option-cases (find_method l o name)) [
    | inl unknown ↦ rw (unknown, call_method) (refl, h)
    | inr (m, found) ↦ rw (found, call_method) (run_method-Agree m args h)
  ]
  call_method-Agree dummy name args h = elim (Option-cases (find_method l o name)) [
    | inl unknown ↦ rw (unknown, call_method) (refl, h)
    | inr (m, found) ↦ rw (found, call_method) (refl, h)
  ]
  call_method-Agree (other v) name args h = (refl, h)

  go_on-Agree :
      (next : Chain → Request → Result Chain × Request) (p q : Result Chain × Request)
      → AgreeOutcome p q
      → ((chain : Chain) (a b : Request) → Agree a b → AgreeOutcome (next chain a) (next chain b))
      → AgreeOutcome (go_on next p) (go_on next q)
  go_on-Agree next (ok chain, a) (r, b) (same, h) rest = rw (← same) (rest chain a b h)
  go_on-Agree next (throw err, a) (r, b) (same, h) rest = rw (← same) (refl, h)

  -- A chain of calls on two requests that agree gives the same result, and leaves requests that agree.
  pub run_chain-Agree :
      (chain : Chain) (calls : List (String × List Value)) (a b : Request)
      → Agree a b
      → AgreeOutcome (run_chain l o c chain calls a) (run_chain l o c chain calls b)
  unfolding run_chain
  run_chain-Agree chain [] a b h = (refl, h)
  run_chain-Agree chain ((name, args) ∷ calls) a b h =
      go_on-Agree (λ chain' req'. run_chain l o c chain' calls req') _ _
        (call_method-Agree chain name args h) (λ chain' a' b'. run_chain-Agree chain' calls a' b')

-- Two calls that throw the same, or give the same and leave requests that agree.
abbrev pub AgreeResult : {A : Type 0} → Result (A × Request) → Result (A × Request) → Type 0
AgreeResult (ok x) (ok y) = AgreeOutcome x y
AgreeResult (throw e) (throw f) = e ≡ f
AgreeResult _ _ = ⊥

bind-Agree :
    {A B : Type 0} (r r' : Result B) (f g : B → Result (A × Request))
    → r ≡ r'
    → ((x : B) → AgreeResult (f x) (g x))
    → AgreeResult (r >>= f) (r' >>= g)
bind-Agree (ok x) r' f g same h = rw (← same) (h x)
bind-Agree (throw err) r' f g same h = rw (← same) refl

if-Agree :
    {A : Type 0} (t : Bool) (x y x' y' : Result (A × Request))
    → AgreeResult x x'
    → AgreeResult y y'
    → AgreeResult (if t then x else y) (if t then x' else y')
if-Agree true x y x' y' h k = h
if-Agree false x y x' y' h k = k

module _ (e : Engine) (name : String) (value : Value) {a b : Request} (h : Agree a b) where
  assign_params-Agree : AgreeResult (assign_params e name value a) (assign_params e name value b)
  unfolding assign_params
  assign_params-Agree =
      bind-Agree _ _ _ _ (ap (λ owner. set_member e owner name value) h.params) λ v. (
        refl,
        record {
          params = refl;
          query = h.query;
          body = h.body;
          headers = h.headers;
          errors = h.errors;
        },
      )

  assign_query-Agree : AgreeResult (assign_query e name value a) (assign_query e name value b)
  unfolding assign_query
  assign_query-Agree = bind-Agree _ _ _ _ (ap (λ owner. set_member e owner name value) h.query) λ v.
      (
        refl,
        record {
          params = h.params;
          query = refl;
          body = h.body;
          headers = h.headers;
          errors = h.errors;
        },
      )

  assign_body-Agree : AgreeResult (assign_body e name value a) (assign_body e name value b)
  unfolding assign_body
  assign_body-Agree = bind-Agree _ _ _ _ (ap (λ owner. set_member e owner name value) h.body) λ v. (
    refl,
    record {
      params = h.params;
      query = h.query;
      body = refl;
      headers = h.headers;
      errors = h.errors;
    },
  )

  pub update_param-Agree : AgreeResult (update_param e name value a) (update_param e name value b)
  unfolding update_param
  update_param-Agree = bind-Agree _ _ _ _ (ap (λ owner. owns e owner name) h.params) λ in_params.
      if-Agree in_params _ _ _ _ assign_params-Agree (
        bind-Agree _ _ _ _ (ap (λ owner. defines e owner name) h.query) λ in_query.
          if-Agree in_query _ _ _ _ assign_query-Agree (
            bind-Agree _ _ _ _ (ap (λ owner. holds e owner name) h.body)
              λ in_body. if-Agree in_body _ _ _ _ assign_body-Agree (refl, h)))

-- What follows two calls that agree.
after-Agree :
    {A B : Type 0} (x y : Result (A × Request)) (f g : A × Request → Result (B × Request))
    → AgreeResult x y
    → ((p q : A × Request) → AgreeOutcome p q → AgreeResult (f p) (g q))
    → AgreeResult (x >>= f) (y >>= g)
after-Agree (ok p) (ok q) f g h k = k p q h
after-Agree (throw err) (throw err') f g h k = h
after-Agree (ok p) (throw err) f g h k = absurd h
after-Agree (throw err) (ok q) f g h k = absurd h

pub call_sanitizer-Agree :
    (e : Engine) (l : Library) (param : String) (value : Value) (name : String) (args : List Value)
    {a b : Request}
    → Agree a b
    → AgreeResult
        (call_sanitizer e l param value name args a)
        (call_sanitizer e l param value name args b)
unfolding call_sanitizer
call_sanitizer-Agree e l param value name args h =
    if-Agree (contains l.methods name && is_sanitizer name) _ _ _ _
      (bind-Agree _ _ _ _ (λ i. l.call name (value ∷ args))
        λ result.
          after-Agree _ _ _ _ (update_param-Agree e param result h) λ p q same. (refl, same.1))
      refl

record_verdict-Agree :
    (r r' : Result (Option (List SchemaError))) {a b : Request}
    → r ≡ r'
    → Agree a b
    → AgreeOutcome (record_verdict r a) (record_verdict r' b)
record_verdict-Agree (throw err) r' same h = rw (← same) (refl, h)
record_verdict-Agree (ok none) r' same h = rw (← same) (refl, h)
record_verdict-Agree (ok (some errs)) r' same h = rw (← same) (
  refl,
  record {
    params = h.params;
    query = h.query;
    body = h.body;
    headers = h.headers;
    errors = ap (λ old. some (recorded old ++ map schema_fault errs)) h.errors;
  },
)

-- Up to the verdict only the body is read.
abbrev verdict_on : SchemaHost → String → Value → Result (Option (List SchemaError))
verdict_on host filename body = do
  ajv ← require_ajv host.ajv
  contents ← require_text (schema_file filename) (host.read_file (schema_file filename))
  schema ← host.parse_json contents
  ajv meta_schemas schema body

pub check_json_schema-Agree :
    (host : SchemaHost) (filename : String) {a b : Request}
    → Agree a b
    → AgreeOutcome (check_json_schema host filename a) (check_json_schema host filename b)
unfolding check_json_schema validate_body
check_json_schema-Agree host filename h =
    record_verdict-Agree _ _ (ap (verdict_on host filename) h.body) h
