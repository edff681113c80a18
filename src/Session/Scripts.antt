-- ===== src/Session/Scripts.antt =====
-- The checks of JSON schemas of all the versions, whatever error callback a request has
-- (core/src/main/resources/com/sandbox/runtime/v2/js/version_3/sandbox-validator.js, and that of
-- version_2).
use worker_cli.Prelude.{String, ◌≡◌, refl, ap, ◌∙◌, Option, none, some, List, [], ◌∷◌, ◌++◌, map}
use worker_cli.Js.{Value, Result, ok, throw}
use worker_cli.Validator.{Request, recorded}
use worker_cli.Validator.Agree.{Agree, AgreeOutcome, check_json_schema-Agree}
use worker_cli.Schemas.{SchemaError, validate_body, record_verdict, check_json_schema}
use worker_cli.Versions.Legacy.{
  AmandaError, Amanda, legacy_fault, record_errors, record_calls, load_schema, validated,
  legacy_check_json_schema,
}
use worker_cli.Session.{Script, current, older, schema_check_of}

-- What a check of a JSON schema leaves as it is; it does not unset the errors.
abbrev pub SchemaKeeps : Request → Request → Type 0
SchemaKeeps req after =
    (after.params ≡ req.params)
    × (after.query ≡ req.query)
    × (after.body ≡ req.body)
    × (after.headers ≡ req.headers)
    × (after.errors ≡ none → req.errors ≡ none)

record_verdict-SchemaKeeps :
    (r : Result (Option (List SchemaError))) (req : Request)
    → SchemaKeeps req (record_verdict r req).1
record_verdict-SchemaKeeps (throw err) req = (refl, refl, refl, refl, λ h. h)
record_verdict-SchemaKeeps (ok none) req = (refl, refl, refl, refl, λ h. h)
record_verdict-SchemaKeeps (ok (some errs)) req = (refl, refl, refl, refl, λ h. cc)

SchemaKeeps-trans : (a b c : Request) → SchemaKeeps a b → SchemaKeeps b c → SchemaKeeps a c
SchemaKeeps-trans x y z (p, q, b, d, k) (p', q', b', d', k') =
    (p' ∙ p, q' ∙ q, b' ∙ b, d' ∙ d, λ h. k (k' h))

record_errors-SchemaKeeps :
    (call : Option (List AmandaError)) (req : Request) → SchemaKeeps req (record_errors call req)
unfolding record_errors
record_errors-SchemaKeeps none req = (refl, refl, refl, refl, λ h. h)
record_errors-SchemaKeeps (some errs) req = (refl, refl, refl, refl, λ h. cc)

record_calls-SchemaKeeps :
    (calls : List (Option (List AmandaError))) (req : Request)
    → SchemaKeeps req (record_calls calls req)
unfolding record_calls
record_calls-SchemaKeeps [] req = (refl, refl, refl, refl, λ h. h)
record_calls-SchemaKeeps (call ∷ calls) req =
    SchemaKeeps-trans req (record_errors call req) (record_calls calls (record_errors call req))
      (record_errors-SchemaKeeps call req) (record_calls-SchemaKeeps calls (record_errors call req))

validated-SchemaKeeps :
    (r : Result (Amanda × Value)) (req : Request) → SchemaKeeps req (validated r req).1
validated-SchemaKeeps (throw err) req = (refl, refl, refl, refl, λ h. h)
validated-SchemaKeeps (ok (amanda, schema)) req =
    record_calls-SchemaKeeps (amanda req.body schema).0 req

-- A check of a schema leaves the data of the request, and does not unset the errors.
pub schema_check-SchemaKeeps :
    (script : Script) (filename : String) (req : Request)
    → SchemaKeeps req (schema_check_of script filename req).1
unfolding check_json_schema legacy_check_json_schema
schema_check-SchemaKeeps (current host) filename req =
    record_verdict-SchemaKeeps (validate_body host filename req) req
schema_check-SchemaKeeps (older host) filename req =
    validated-SchemaKeeps (load_schema host filename) req

record_errors-Agree :
    (call : Option (List AmandaError)) {a b : Request}
    → Agree a b
    → Agree (record_errors call a) (record_errors call b)
unfolding record_errors
record_errors-Agree none h = h
record_errors-Agree (some errs) h = record {
  params = h.params;
  query = h.query;
  body = h.body;
  headers = h.headers;
  errors = ap (λ old. some (recorded old ++ map legacy_fault errs)) h.errors;
}

record_calls-Agree :
    (calls : List (Option (List AmandaError))) {a b : Request}
    → Agree a b
    → Agree (record_calls calls a) (record_calls calls b)
unfolding record_calls
record_calls-Agree [] h = h
record_calls-Agree (call ∷ calls) h = record_calls-Agree calls (record_errors-Agree call h)

validated-Agree :
    (r : Result (Amanda × Value)) {a b : Request}
    → Agree a b
    → AgreeOutcome (validated r a) (validated r b)
validated-Agree (throw err) h = (refl, h)
validated-Agree (ok (amanda, schema)) {a} {b} h = (
  ap (λ body. (amanda body schema).1) h.body,
  asked (amanda a.body schema).0 (amanda b.body schema).0
      (ap (λ body. (amanda body schema).0) h.body),
)
  where
    asked :
        (calls calls' : List (Option (List AmandaError)))
        → calls ≡ calls'
        → Agree (record_calls calls a) (record_calls calls' b)
    asked calls calls' same = rw (← same) (record_calls-Agree calls h)

-- On requests that agree a check of a schema gives the same, and leaves requests that agree.
pub schema_check-Agree :
    (script : Script) (filename : String) {a b : Request}
    → Agree a b
    → AgreeOutcome (schema_check_of script filename a) (schema_check_of script filename b)
unfolding legacy_check_json_schema
schema_check-Agree (current host) filename h = check_json_schema-Agree host filename h
schema_check-Agree (older host) filename h = validated-Agree (load_schema host filename) h
