-- ===== src/Schemas/Laws.antt =====
-- What `checkJsonSchema` records
-- (core/src/main/resources/com/sandbox/runtime/v2/js/version_3/sandbox-validator.js).
use worker_cli.Prelude.{
  nonempty-distinct, String, ◌≡◌, ◌≢◌, ◌∷◌, ◌⧺◌, Option-cases, ◌==◌, eq_iff, ◌⊎◌, inl, inr, refl,
  sym, Option, none, some, List, [], ◌++◌, map, append-nil, nonempty, Bool-cases,
}
use worker_cli.Js.{Value, JsError, Result, ok, throw, ◌>>=◌}
use worker_cli.Schemas.Draft04.{json_schema_04}
use worker_cli.Schemas.Draft06.{json_schema_06}
use worker_cli.Validator.{Fault, Request, recorded}
use worker_cli.Schemas.{
  SchemaError, SchemaHost, Ajv, require_ajv, schema_file, require_text, validate_body,
  record_verdict, check_json_schema,
}

-- What a verdict adds to the errors.
abbrev pub found_errors : Result (Option (List SchemaError)) → List SchemaError
found_errors (throw e) = []
found_errors (ok none) = []
found_errors (ok (some errs)) = errs

abbrev pub as_unit : Result (Option (List SchemaError)) → Result (Unit {0})
as_unit (throw e) = throw e
as_unit (ok verdict) = ok tt

-- The error that is recorded for one of Ajv's, and the two meta-schemas that Ajv is given
abbrev pub recorded_error : SchemaError → Fault
recorded_error err = record { param = err.data_path; msg = err.message; value = none }

abbrev pub drafts : List Value
drafts = json_schema_04 ∷ json_schema_06 ∷ []

record_verdict-errors :
    (r : Result (Option (List SchemaError))) (req : Request)
    → ((record_verdict r req).0 ≡ as_unit r)
      × (recorded (record_verdict r req).1.errors
          ≡ recorded req.errors ++ map recorded_error (found_errors r))
      × ((record_verdict r req).1.body ≡ req.body)
record_verdict-errors (throw e) req = (refl, sym (append-nil _), refl)
record_verdict-errors (ok none) req = (refl, sym (append-nil _), refl)
record_verdict-errors (ok (some errs)) req = (refl, refl, refl)

-- The schema that the host's file holds, if Ajv is there and the file has a text that parses.
pub record HasSchema (host : SchemaHost) (filename : String) (ajv : Ajv) (schema : Value)
    : Type 0 where
  pub contents : String
  pub has_ajv : host.ajv ≡ some ajv
  pub has_text : host.read_file ("schemas/" ⧺ (filename ⧺ ".json")) ≡ some contents
  pub not_empty : contents ≢ ""
  pub parses : host.parse_json contents ≡ ok schema

-- The decisions that the two schema checks take on a text and on what parsing it gives
pub eq-cases : (s t : String) → (s ≡ t) ⊎ (s ≢ t)
eq-cases s t = elim (Bool-cases (s == t)) [
  | inl same ↦ inl ((eq_iff s t).0 same)
  | inr other ↦ inr λ e. cc (other, (eq_iff s t).1 e)
]

pub Result-cases :
    {A : Type 0} (r : Result A) → ((err : JsError) × (r ≡ throw err)) ⊎ ((a : A) × (r ≡ ok a))
Result-cases (throw err) = inl (err, refl)
Result-cases (ok a) = inr (a, refl)

abbrev Throws {ℓ} : {A : Type ℓ} → Result A → Type ℓ
Throws r = (err : JsError) × (r ≡ throw err)

Throws-bind :
    {A B : Type 0} (m : Result A) (f : A → Result B) → ((a : A) → Throws (f a)) → Throws (m >>= f)
Throws-bind (ok a) f h = h a
Throws-bind (throw err) f h = (err, refl)

Throws-first : {A B : Type 0} (m : Result A) (f : A → Result B) → Throws m → Throws (m >>= f)
Throws-first m f (err, h) = (err, rw h)

require_text-empty :
    (file : String) (o : Option String) → (o ≡ none) ⊎ (o ≡ some "") → Throws (require_text file o)
require_text-empty file o (inl gone) = rw gone (_, refl)
require_text-empty file o (inr empty) = rw empty (_, refl)

record_verdict-throw :
    (r : Result (Option (List SchemaError))) (req : Request)
    → Throws r
    → (err : JsError) × (record_verdict r req ≡ (throw err, req))
record_verdict-throw r req (err, h) = (err, rw h)

-- Why no verdict is reached.
pub data HasNoSchema (host : SchemaHost) (filename : String) : Type 0 where
  no_ajv : host.ajv ≡ none → HasNoSchema host filename
  no_text :
      (host.read_file ("schemas/" ⧺ (filename ⧺ ".json")) ≡ none)
        ⊎ (host.read_file ("schemas/" ⧺ (filename ⧺ ".json")) ≡ some "")
      → HasNoSchema host filename
  no_parse :
      (contents : String) (err : JsError)
      → host.read_file ("schemas/" ⧺ (filename ⧺ ".json")) ≡ some contents
      → host.parse_json contents ≡ throw err
      → HasNoSchema host filename

validate_body-Throws :
    (host : SchemaHost) (filename : String) (req : Request)
    → HasNoSchema host filename
    → Throws (validate_body host filename req)
unfolding validate_body
validate_body-Throws host filename req (no_ajv h) = rw h (_, refl)
validate_body-Throws host filename req (no_text h) = Throws-bind (require_ajv host.ajv) _ λ ajv.
    Throws-first (require_text (schema_file filename) (host.read_file (schema_file filename))) _
      (require_text-empty (schema_file filename) (host.read_file (schema_file filename)) h)
validate_body-Throws host filename req (no_parse contents err has bad) =
    Throws-bind (require_ajv host.ajv) _ λ ajv. rw has (elim (Bool-cases (nonempty contents)) [
      | inl full ↦ rw (full, bad) (err, refl)
      | inr empty ↦ rw empty (_, refl)
    ])

pub check_json_schema-HasNoSchema :
    (host : SchemaHost) (filename : String) (req : Request)
    → HasNoSchema host filename
    → (err : JsError) × (check_json_schema host filename req ≡ (throw err, req))
unfolding check_json_schema
check_json_schema-HasNoSchema host filename req h =
    record_verdict-throw (validate_body host filename req) req
      (validate_body-Throws host filename req h)

abbrev Verdict : SchemaHost → String → Request → Ajv → Value → Type 0
Verdict host filename req ajv schema =
    ((check_json_schema host filename req).0 ≡ as_unit (ajv drafts schema req.body))
    × (recorded (check_json_schema host filename req).1.errors
        ≡ recorded req.errors ++ map recorded_error (found_errors (ajv drafts schema req.body)))
    × ((check_json_schema host filename req).1.body ≡ req.body)

-- Either a schema is found and the verdict on the body by it is what is recorded, or none is, and
-- the call throws and leaves the request.
abbrev pub Judges : SchemaHost → String → Request → Type 0
Judges host filename req =
    ((ajv : Ajv) × (schema : Value) × HasSchema host filename ajv schema
      × Verdict host filename req ajv schema)
    ⊎ (HasNoSchema host filename
        × ((ajv : Ajv) (schema : Value) → HasSchema host filename ajv schema → ⊥)
        × ((err : JsError) × (check_json_schema host filename req ≡ (throw err, req))))

HasSchema-Verdict :
    (host : SchemaHost) (filename : String) (ajv : Ajv) (schema : Value) (req : Request)
    → HasSchema host filename ajv schema
    → Verdict host filename req ajv schema
unfolding check_json_schema
HasSchema-Verdict host filename ajv schema req h =
    rw (h.has_ajv, h.has_text, nonempty-distinct h.contents h.not_empty, h.parses)
      (record_verdict-errors (ajv drafts schema req.body) req)

without_schema :
    (host : SchemaHost) (filename : String) (req : Request)
    → HasNoSchema host filename
    → ((ajv : Ajv) (schema : Value) → HasSchema host filename ajv schema → ⊥)
    → Judges host filename req
without_schema host filename req h nothing =
    inr (h, nothing, check_json_schema-HasNoSchema host filename req h)

-- `checkJsonSchema` of any file and request: where Ajv is there and the host's file of that name under
-- "schemas/" has a text that is not empty and parses, it asks Ajv, with the meta-schemas of drafts 4
-- and 6 added in this order, for the verdict of that schema on the body, ends as Ajv ends, records
-- the path and the message of each of the verdict's errors, in their order behind those that were
-- there, and leaves the body as it is; everywhere else it throws and leaves the request.
pub check_json_schema-errors :
    (host : SchemaHost) (filename : String) (req : Request) → Judges host filename req
check_json_schema-errors host filename req = elim (Option-cases host.ajv) [
  | inl gone ↦ without_schema host filename req (no_ajv gone) λ ajv schema h. cc (gone, h.has_ajv)
  | inr (ajv, has_ajv) ↦ elim (Option-cases (host.read_file ("schemas/" ⧺ (filename ⧺ ".json")))) [
    | inl gone ↦
        without_schema host filename req (no_text (inl gone)) λ a schema h. cc (gone, h.has_text)
    | inr (contents, has_text) ↦ elim (eq-cases contents "") [
      | inl empty ↦
          without_schema host filename req (no_text (inr (rw (← empty) has_text)))
            λ a schema h. h.not_empty (cc (has_text, h.has_text, empty))
      | inr full ↦ elim (Result-cases (host.parse_json contents)) [
        | inl (err, bad) ↦
            without_schema host filename req (no_parse contents err has_text bad) λ a schema h.
              let same : h.contents ≡ contents = cc (has_text, h.has_text) in
              let good = rw same at h.parses in cc (bad, good)
        | inr (schema, parses) ↦
            let there : HasSchema host filename ajv schema = record {
              contents = contents;
              has_ajv = has_ajv;
              has_text = has_text;
              not_empty = full;
              parses = parses;
            } in
            inl (ajv, schema, there, HasSchema-Verdict host filename ajv schema req there)
      ]
    ]
  ]
]
