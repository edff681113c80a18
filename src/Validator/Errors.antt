-- ===== src/Validator/Errors.antt =====
-- `validationErrors` and `validationErrorsJson`
-- (core/src/main/resources/com/sandbox/runtime/v2/js/version_3/sandbox-validator.js).
pub mod Laws
use worker_cli.Prelude.{
  String, Bool, true, false, Option, none, some, List, [], ◌∷◌, Dict, insert, if◌then◌else◌,
}
use worker_cli.Js.{Value, truthy, string, Engine}
use worker_cli.Validator.{Fault, Request}

-- What `validationErrors` returns: null, the list, or the object of the errors by parameter.
pub data Report : Type 0 where
  null : Report
  listed : List Fault → Report
  by_param : Dict Fault → Report

abbrev pub fault_key : Engine → Fault → String
fault_key e fault = e.to_string fault.param

-- The `forEach` over the errors: `errors[err.param] = err`
unfoldable pub map_errors : Engine → Dict Fault → List Fault → Dict Fault
unfolding insert
map_errors e errors [] = errors
map_errors e errors (err ∷ errs) = map_errors e (insert (fault_key e err) err errors) errs

abbrev pub report_of : Engine → Value → Option (List Fault) → Report
report_of e mapped none = Report.null
report_of e mapped (some errs) =
    if truthy mapped then by_param (map_errors e [] errs) else listed errs

-- `req.validationErrors(mapped)`
unfoldable pub validation_errors : Engine → Value → Request → Report
unfolding map_errors
validation_errors e mapped req = report_of e mapped req.errors

pub record JsonReport : Type 0 where
  pub message : Value
  pub errors : Report

-- `req.validationErrorsJson(mapped)`
unfoldable pub validation_errors_json : Engine → Value → Request → JsonReport
unfolding validation_errors
validation_errors_json e mapped req = record {
  message = string "Request has errors";
  errors = validation_errors e mapped req;
}
