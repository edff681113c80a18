-- ===== src/Tests/Checking.antt =====
-- Checks of a request with a library of two methods
-- (core/src/main/resources/com/sandbox/runtime/v2/js/version_3/sandbox-validator.js).
use worker_cli.Prelude.{
  String, true, false, ◌≡◌, ◌||◌, refl, none, some, List, [], ◌∷◌, ◌==◌, All, map, split, lookup,
  starts_with, if◌then◌else◌, nonempty, Dict,
}
use worker_cli.Js.{Value, truthy, undefined, boolean, string, obj, Result, ok, throw, type_error}
use worker_cli.Paths.Segments.{Avoids}
use worker_cli.Validator.{Fault, Request, Library, Options, is_sanitizer}
use worker_cli.Validator.Params.{parse_param, param_name, query_getter, check_getter, param_value}
use worker_cli.Validator.Params.Laws.{
  Returns, get_from-Returns, check_value-cases, Found, param_name-parse_param,
}
use worker_cli.Validator.Checks.{
  Check, check_param, live, library, find_method, call_method, run_chain,
}
use worker_cli.Validator.Checks.Chains.{Adds, run_chain-Adds}
use worker_cli.Validator.Checks.Rejections.{Records, Judged, rejections, run_chain-rejections}
use worker_cli.Validator.Checks.Optional.{call_method-optional}
use worker_cli.Validator.Errors.{by_param, validation_errors}
use worker_cli.Validator.Errors.Laws.{lookup-map_errors}
use worker_cli.Tests.Samples.{plain_engine}

abbrev is_yes : List Value → Result Value
is_yes (string s ∷ args) = ok (boolean (s == "yes"))
is_yes args = throw type_error

abbrev call : String → List Value → Result Value
call name args = if name == "isYes" then is_yes args else ok (string "trimmed")

abbrev pub two_methods : Library
two_methods = record { methods = "isYes" ∷ "trim" ∷ []; call = call }

-- The default formatter, and no custom validators.
abbrev pub defaults : Options
defaults = record {
  custom_names = [];
  call_custom = λ name args. throw type_error;
  error_formatter =
      λ param msg value. record { param = string param; msg = msg; value = some value };
}

abbrev pub asked : Request
asked = record {
  params = undefined;
  query = obj (("answer", string "no") ∷ []);
  body = undefined;
  headers = obj [];
  errors = none;
  on_error = undefined;
  notified = [];
}

abbrev pub answer : Check
answer = record { param = "answer"; fail_msg = undefined; value = string "no" }

abbrev pub twice : List (String × List Value)
twice = ("isYes", []) ∷ ("isYes", []) ∷ []

pub is_yes_found : find_method two_methods defaults "isYes" ≡ some (library "isYes")
unfolding find_method is_sanitizer starts_with
is_yes_found = refl

pub twice-Judged : All (Judged two_methods defaults answer) twice
twice-Judged = (
  (library "isYes", is_yes_found, tt, (boolean false, refl)),
  ((library "isYes", is_yes_found, tt, (boolean false, refl)), tt),
)

run_chain-rejections_example :
    (after : Request) × (run_chain two_methods defaults answer live twice asked ≡ (ok live, after))
    × Records defaults answer (rejections two_methods defaults answer twice) asked after
run_chain-rejections_example =
    run_chain-rejections two_methods defaults answer twice asked twice-Judged

two_rejections : rejections two_methods defaults answer twice ≡ 2
unfolding find_method is_sanitizer starts_with
two_rejections = refl

abbrev mistaken : List (String × List Value)
mistaken = ("isYes", []) ∷ ("isSure", []) ∷ []

run_chain-Adds_example :
    Adds defaults answer 2 asked (run_chain two_methods defaults answer live mistaken asked).1
run_chain-Adds_example = run_chain-Adds two_methods defaults answer live mistaken asked

abbrev fault_of : String → String → Fault
fault_of param msg = record { param = string param; msg = string msg; value = none }

abbrev three_faults : List Fault
three_faults = fault_of "a" "first" ∷ fault_of "b" "other" ∷ fault_of "a" "second" ∷ []

abbrev faulty : Request
faulty = record asked { errors = some three_faults }

lookup-map_errors_example :
    (d : Dict Fault) × (validation_errors plain_engine (boolean true) faulty ≡ by_param d)
    × (lookup "a" d ≡ some (fault_of "a" "second"))
lookup-map_errors_example =
    lookup-map_errors plain_engine (boolean true) faulty three_faults "a" refl refl

query_getter-Returns : (part : Value) → Returns (query_getter plain_engine asked part)
unfolding query_getter
query_getter-Returns part = get_from-Returns plain_engine asked.query part

check_value-cases_example :
    (f : Found plain_engine asked "answer") × (param_value plain_engine
        (check_getter plain_engine asked)
        (string "answer" ∷ [])
      ≡ ok (
          if truthy f.in_params || truthy f.in_body || truthy f.in_query
          then string "answer"
          else string ""))
check_value-cases_example = check_value-cases plain_engine asked "answer"

full_names : All (λ p. nonempty p ≡ true) (split b'.' "user.name")
unfolding split
full_names = (refl, (refl, tt))

param_name-parse_param_example :
    (parts : List String) × (parse_param (string "user.name") ≡ ok (map string parts))
    × All (Avoids b'.') parts
    × (param_name plain_engine (map string parts) ≡ "user.name")
param_name-parse_param_example = param_name-parse_param plain_engine "user.name" full_names

call_method-optional_example :
    (c : Check) × (check_param plain_engine
        (query_getter plain_engine asked)
        (string "missing")
        undefined
      ≡ ok c)
    × (call_method two_methods defaults c live "optional" [] asked ≡ (ok live, asked))
call_method-optional_example =
    call_method-optional two_methods defaults plain_engine (query_getter plain_engine asked)
      (string "missing") undefined (string "missing") [] [] asked (unfold parse_param split in refl)
      query_getter-Returns
