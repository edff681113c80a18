-- ===== src/Tests/Schemes.antt =====
-- Bodies that are checked against a JSON schema
-- (core/src/main/resources/com/sandbox/runtime/v2/js/version_3/sandbox-validator.js).
use worker_cli.Prelude.{◌≡◌, refl, none, some, [], ◌∷◌, ◌==◌, if◌then◌else◌}
use worker_cli.Js.{undefined, string, obj, Result, ok, throw, syntax_error}
use worker_cli.Validator.{Request, recorded}
use worker_cli.Schemas.{SchemaError, SchemaHost, Ajv, check_json_schema}
use worker_cli.Schemas.Laws.{Judges, recorded_error, check_json_schema-errors}

abbrev refused : SchemaError
refused = record { data_path = string ".name"; message = string "should be string" }

abbrev always_refuses : Ajv
always_refuses metas schema value = ok (some (refused ∷ refused ∷ []))

abbrev pub schemas : SchemaHost
schemas = record {
  ajv = some always_refuses;
  read_file = λ f. if f == "schemas/user.json" then some "{}" else none;
  parse_json = λ contents. if contents == "{}" then ok (obj []) else throw syntax_error;
}

abbrev posted : Request
posted = record {
  params = undefined;
  query = undefined;
  body = obj (("name", undefined) ∷ []);
  headers = obj [];
  errors = none;
  on_error = undefined;
  notified = [];
}

abbrev checked : Result (Unit {0}) × Request
checked = check_json_schema schemas "user" posted

check_json_schema-errors_example : Judges schemas "user" posted
check_json_schema-errors_example = check_json_schema-errors schemas "user" posted

-- It is the first of the two cases, written out.
two_recorded :
    (checked.0 ≡ ok tt)
    × (recorded checked.1.errors ≡ recorded_error refused ∷ recorded_error refused ∷ [])
unfolding check_json_schema
two_recorded = (refl, refl)
