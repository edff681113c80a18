-- ===== src/Versions/Legacy/Recorded.antt =====
-- What `checkJsonSchema` of the older validator records
-- (core/src/main/resources/com/sandbox/runtime/v2/js/version_2/sandbox-validator.js).
use worker_cli.Prelude.{
  nonempty-distinct, ◌⧺◌, ◌≢◌, ◌⊎◌, inl, inr, Option-cases, if◌then◌else◌, String, ◌≡◌, refl, sym,
  ◌∙◌, Option, none, some, List, [], ◌∷◌, ◌++◌, map, append-nil, append_assoc,
}
use worker_cli.Js.{Value, truthy, JsError, ok, throw}
use worker_cli.Validator.{Fault, Request, recorded}
use worker_cli.Schemas.Laws.{eq-cases, Result-cases}
use worker_cli.Versions.Legacy.{
  AmandaError, Amanda, AmandaHost, record_errors, record_calls, load_schema,
  legacy_check_json_schema,
}

-- The error that is recorded for one of the validator's: it names the property, or, where that is not
-- truthy, carries the property's value.
abbrev pub recorded_error : AmandaError → Fault
recorded_error err = record {
  param = if truthy err.property then err.property else err.property_value;
  msg = err.message;
  value = none;
}

-- The errors of all the calls of the callback.
abbrev pub reported : List (Option (List AmandaError)) → List Fault
reported [] = []
reported (none ∷ calls) = reported calls
reported (some errs ∷ calls) = map recorded_error errs ++ reported calls

record_calls-recorded :
    (calls : List (Option (List AmandaError))) (req : Request)
    → (recorded (record_calls calls req).errors ≡ recorded req.errors ++ reported calls)
      × ((record_calls calls req).body ≡ req.body)
unfolding record_calls record_errors
record_calls-recorded [] req = (sym (append-nil _), refl)
record_calls-recorded (none ∷ calls) req = record_calls-recorded calls req
record_calls-recorded (some errs ∷ calls) req =
    let (errors, body) = record_calls-recorded calls (record_errors (some errs) req) in
    (errors ∙ append_assoc (recorded req.errors) (map recorded_error errs) (reported calls), body)

-- The schema that the host's file holds, if the validator is there and the file has a text that parses.
pub record HasLegacySchema (host : AmandaHost) (filename : String) (amanda : Amanda)
    (schema : Value) : Type 0 where
  pub contents : String
  pub has_amanda : host.amanda ≡ some amanda
  pub has_text : host.read_file ("schemas/" ⧺ (filename ⧺ ".json")) ≡ some contents
  pub not_empty : contents ≢ ""
  pub parses : host.parse_json contents ≡ ok schema

abbrev LegacyVerdict : AmandaHost → String → Request → Amanda → Value → Type 0
LegacyVerdict host filename req amanda schema =
    ((legacy_check_json_schema host filename req).0 ≡ (amanda req.body schema).1)
    × (recorded (legacy_check_json_schema host filename req).1.errors
        ≡ recorded req.errors ++ reported (amanda req.body schema).0)
    × ((legacy_check_json_schema host filename req).1.body ≡ req.body)

abbrev LeavesRequest : AmandaHost → String → Request → Type 0
LeavesRequest host filename req =
    (err : JsError) × (legacy_check_json_schema host filename req ≡ (throw err, req))

-- Either a schema is found and what the validator reports of the body by it is recorded, or none is,
-- and the call throws and leaves the request.
abbrev pub LegacyJudges : AmandaHost → String → Request → Type 0
LegacyJudges host filename req =
    ((amanda : Amanda) × (schema : Value) × HasLegacySchema host filename amanda schema
      × LegacyVerdict host filename req amanda schema)
    ⊎ (((amanda : Amanda) (schema : Value) → HasLegacySchema host filename amanda schema → ⊥)
        × LeavesRequest host filename req)

HasLegacySchema-LegacyVerdict :
    (host : AmandaHost) (filename : String) (amanda : Amanda) (schema : Value) (req : Request)
    → HasLegacySchema host filename amanda schema
    → LegacyVerdict host filename req amanda schema
unfolding legacy_check_json_schema load_schema
HasLegacySchema-LegacyVerdict host filename amanda schema req h =
    let (errors, body) = record_calls-recorded (amanda req.body schema).0 req in
    rw (h.has_amanda, h.has_text, nonempty-distinct h.contents h.not_empty, h.parses)
      (refl, errors, body)

-- The older `checkJsonSchema` of any file and request: where the validator is there and the host's file
-- of that name under "schemas/" has a text that is not empty and parses, it asks the validator about
-- the body by that schema, ends as the validator ends, records for all the errors of all the calls of
-- its callback, in their order behind those that were there, the message and the property, or the
-- property's value where the property is not truthy, and leaves the body as it is; everywhere else it
-- throws and leaves the request.
pub legacy_check_json_schema-errors :
    (host : AmandaHost) (filename : String) (req : Request) → LegacyJudges host filename req
unfolding legacy_check_json_schema load_schema
legacy_check_json_schema-errors host filename req = elim (Option-cases host.amanda) [
  | inl gone ↦ inr (λ amanda schema h. cc (gone, h.has_amanda), rw gone (_, refl))
  | inr (amanda, has_amanda) ↦
      elim (Option-cases (host.read_file ("schemas/" ⧺ (filename ⧺ ".json")))) [
        | inl gone ↦ inr (λ a schema h. cc (gone, h.has_text), rw (has_amanda, gone) (_, refl))
        | inr (contents, has_text) ↦ elim (eq-cases contents "") [
          | inl empty ↦ inr (
            λ a schema h. h.not_empty (cc (has_text, h.has_text, empty)),
            rw (has_amanda, has_text, empty) (_, refl),
          )
          | inr full ↦ elim (Result-cases (host.parse_json contents)) [
            | inl (err, bad) ↦ inr (
              λ a schema h.
                  let same : h.contents ≡ contents = cc (has_text, h.has_text) in
                  let good = rw same at h.parses in cc (bad, good),
              rw (has_amanda, has_text, nonempty-distinct contents full, bad) (_, refl),
            )
            | inr (schema, parses) ↦
                let there : HasLegacySchema host filename amanda schema = record {
                  contents = contents;
                  has_amanda = has_amanda;
                  has_text = has_text;
                  not_empty = full;
                  parses = parses;
                } in
                inl (
                  amanda,
                  schema,
                  there,
                  HasLegacySchema-LegacyVerdict host filename amanda schema req there,
                )
          ]
        ]
      ]
]
