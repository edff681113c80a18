-- ===== src/Versions/Legacy.antt =====
-- The validator of version_1 and version_2
-- (core/src/main/resources/com/sandbox/runtime/v2/js/version_2/sandbox-validator.js; the text of
-- version_1 is the same): the walk along a path has no default, and schemas go to `amanda`.
pub mod Missing
pub mod Agreement
pub mod Recorded
use worker_cli.Prelude.{String, Bool, Option, none, some, List, [], ◌∷◌, ◌++◌, map, if◌then◌else◌}
use worker_cli.Js.{
  Value, undefined, is_undefined, truthy, text, Engine, member, JsError, error, Result, ok, throw,
  ◌>>=◌,
}
use worker_cli.Validator.{Fault, Request, recorded}
use worker_cli.Validator.Params.{Getter, key, parse_param, param_name}
use worker_cli.Validator.Checks.{Check}
use worker_cli.Schemas.{schema_file, require_text}

-- One round of the `map` over the parts.
unfoldable pub legacy_step : Engine → Getter → Value → Value → Result Value
unfolding member
legacy_step e getter value part =
    if is_undefined value then getter part else member e value (key e part)

unfoldable pub legacy_walk : Engine → Getter → Value → List Value → Result Value
unfolding legacy_step
legacy_walk e getter value [] = ok value
legacy_walk e getter value (part ∷ parts) = do
  next ← legacy_step e getter value part
  legacy_walk e getter next parts

-- The value that the methods of a check test.
unfoldable pub legacy_value : Engine → Getter → List Value → Result Value
unfolding legacy_walk
legacy_value e getter parts = legacy_walk e getter undefined parts

-- `checkParam(req, getter)(param, failMsg)`
unfoldable pub legacy_check : Engine → Getter → Value → Value → Result Check
unfolding parse_param param_name legacy_value
legacy_check e getter param fail_msg = do
  parts ← parse_param param
  value ← legacy_value e getter parts
  ok (record { param = param_name e parts; fail_msg = fail_msg; value = value })

pub record AmandaError : Type 0 where
  pub property : Value
  pub property_value : Value
  pub message : Value

-- `validate` of the third-party validator, asked for all the errors: what it calls its callback with,
-- one call after the other, and how it ends.
abbrev pub Amanda : Type 0
Amanda = (body schema : Value) → List (Option (List AmandaError)) × Result (Unit {0})

-- `amanda` is none where the global is no function.
pub record AmandaHost : Type 0 where
  pub amanda : Option Amanda
  pub read_file : String → Option String
  pub parse_json : String → Result Value

abbrev pub require_amanda : Option Amanda → Result Amanda
require_amanda none = throw (error (text "Failed to load JSON Schema validator" ∷ []))
require_amanda (some amanda) = ok amanda

abbrev pub legacy_fault : AmandaError → Fault
legacy_fault err = record {
  param = if truthy err.property then err.property else err.property_value;
  msg = err.message;
  value = none;
}

-- The callback.
unfoldable pub record_errors : Option (List AmandaError) → Request → Request
record_errors none req = req
record_errors (some errs) req = record req {
  errors = some (recorded req.errors ++ map legacy_fault errs);
}

unfoldable pub record_calls : List (Option (List AmandaError)) → Request → Request
unfolding record_errors
record_calls [] req = req
record_calls (call ∷ calls) req = record_calls calls (record_errors call req)

-- What the tests before the call of `validate` leave: the validator, and the schema.
unfoldable pub load_schema : AmandaHost → String → Result (Amanda × Value)
load_schema host filename = do
  amanda ← require_amanda host.amanda
  contents ← require_text (schema_file filename) (host.read_file (schema_file filename))
  schema ← host.parse_json contents
  ok (amanda, schema)

abbrev pub validated : Result (Amanda × Value) → Request → Result (Unit {0}) × Request
validated (throw err) req = (throw err, req)
validated (ok (amanda, schema)) req =
    let (calls, end) = amanda req.body schema in (end, record_calls calls req)

-- `req.checkJsonSchema`
unfoldable pub legacy_check_json_schema :
    AmandaHost → String → Request → Result (Unit {0}) × Request
unfolding load_schema record_calls
legacy_check_json_schema host filename req = validated (load_schema host filename) req
