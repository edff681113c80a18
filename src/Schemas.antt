-- ===== src/Schemas.antt =====
-- `checkJsonSchema`
-- (core/src/main/resources/com/sandbox/runtime/v2/js/version_3/sandbox-validator.js).
-- The third-party schema validator Ajv, the host's files and `JSON.parse` are the record
-- `SchemaHost`; `ajv` is none where `Ajv` is no function.
pub mod Draft04
pub mod Draft06
pub mod Laws
use worker_cli.Prelude.{
  String, Bool, true, false, Option, none, some, List, [], ◌∷◌, ◌++◌, ◌⧺◌, map, nonempty,
  if◌then◌else◌,
}
use worker_cli.Js.{Value, text, shown, string, JsError, error, Result, ok, throw, ◌>>=◌}
use worker_cli.Validator.{Fault, Request, recorded}
use Draft04.{json_schema_04}
use Draft06.{json_schema_06}

-- An error of Ajv
pub record SchemaError : Type 0 where
  pub data_path : Value
  pub message : Value

-- `validate`, of an Ajv with the meta-schemas that were added: none if the value is valid
abbrev pub Ajv : Type 0
Ajv = (metas : List Value) (schema value : Value) → Result (Option (List SchemaError))

pub record SchemaHost : Type 0 where
  pub ajv : Option Ajv
  pub read_file : String → Option String
  pub parse_json : String → Result Value

abbrev pub meta_schemas : List Value
meta_schemas = json_schema_04 ∷ json_schema_06 ∷ []

-- `typeof Ajv != "function"`
abbrev pub require_ajv : Option Ajv → Result Ajv
require_ajv none = throw (error (text "Failed to load JSON Schema validator" ∷ []))
require_ajv (some ajv) = ok ajv

abbrev pub schema_file : String → String
schema_file filename = "schemas/" ⧺ (filename ⧺ ".json")

-- The two tests of the file's text.
abbrev pub require_text : String → Option String → Result String
require_text file none = throw (error (text "Failed to load json schema" ∷ []))
require_text file (some contents) =
    if nonempty contents
    then ok contents
    else throw (
        error
          (text "JSON Schema is empty, please add valid JSON Schema - " ∷ shown (string file) ∷ []))

abbrev pub schema_fault : SchemaError → Fault
schema_fault err = record { param = err.data_path; msg = err.message; value = none }

-- The loop over `ajv.errors`, with the list of errors made first if there is none
abbrev pub push_errors : List SchemaError → Request → Request
push_errors errs req = record req { errors = some (recorded req.errors ++ map schema_fault errs) }

-- Up to the verdict of the validator.
unfoldable pub validate_body : SchemaHost → String → Request → Result (Option (List SchemaError))
validate_body host filename req = do
  ajv ← require_ajv host.ajv
  contents ← require_text (schema_file filename) (host.read_file (schema_file filename))
  schema ← host.parse_json contents
  ajv meta_schemas schema req.body

abbrev pub record_verdict :
    Result (Option (List SchemaError)) → Request → Result (Unit {0}) × Request
record_verdict (throw e) req = (throw e, req)
record_verdict (ok none) req = (ok tt, req)
record_verdict (ok (some errs)) req = (ok tt, push_errors errs req)

-- `req.checkJsonSchema`
unfoldable pub check_json_schema : SchemaHost → String → Request → Result (Unit {0}) × Request
unfolding validate_body
check_json_schema host filename req = record_verdict (validate_body host filename req) req
