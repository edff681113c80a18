-- ===== src/Tests/Older.antt =====
-- Checks with the validator of version_1 and version_2
-- (core/src/main/resources/com/sandbox/runtime/v2/js/version_2/sandbox-validator.js).
use worker_cli.Prelude.{◌≡◌, refl, ◌∙◌, none, some, [], ◌∷◌, ◌==◌, lookup, if◌then◌else◌}
use worker_cli.Js.{undefined, string, obj, Result, ok, throw, syntax_error, ◌>>=◌}
use worker_cli.Validator.{Request, recorded}
use worker_cli.Validator.Params.{Getter, get_from, query_getter, param_value}
use worker_cli.Versions.Legacy.{
  AmandaError, Amanda, AmandaHost, legacy_value, legacy_step, load_schema, record_calls,
  record_errors, legacy_check_json_schema,
}
use worker_cli.Versions.Legacy.Missing.{legacy_value-append}
use worker_cli.Versions.Legacy.Agreement.{IsPresent, empty_for_nullish, param_value-legacy_value}
use worker_cli.Versions.Legacy.Recorded.{LegacyJudges, legacy_check_json_schema-errors}
use worker_cli.Tests.Samples.{plain_engine}
use worker_cli.Tests.Checking.{asked}

abbrev ask : Getter
ask = query_getter plain_engine asked

user_missing : ask (string "user") ≡ ok undefined
unfolding query_getter get_from lookup
user_missing = refl

-- There is no `user`, so `user.answer` reads the answer at the top.
legacy_value-append_example :
    legacy_value plain_engine ask (string "user" ∷ string "answer" ∷ []) ≡ ask (string "answer")
legacy_value-append_example =
    legacy_value-append plain_engine ask (string "user" ∷ []) (string "answer") (user_missing, tt)

user_undefined : legacy_value plain_engine ask (string "user" ∷ []) ≡ ok undefined
user_undefined = legacy_value-append plain_engine ask [] (string "user") tt ∙ user_missing

answer-IsPresent : IsPresent plain_engine ask undefined (string "answer" ∷ string "length" ∷ [])
unfolding legacy_step query_getter get_from lookup
answer-IsPresent = (string "no", refl, refl, tt)

param_value-legacy_value_example :
    param_value plain_engine ask (string "answer" ∷ string "length" ∷ []) ≡ (
      legacy_value plain_engine ask (string "answer" ∷ string "length" ∷ []) >>= λ value.
      ok (empty_for_nullish value))
param_value-legacy_value_example =
    param_value-legacy_value plain_engine ask (string "answer") (string "length" ∷ [])
      answer-IsPresent

abbrev refused : AmandaError
refused = record {
  property = string "name";
  property_value = undefined;
  message = string "is required";
}

abbrev unnamed : AmandaError
unnamed = record {
  property = string "";
  property_value = string "?";
  message = string "is not allowed";
}

-- The callback is called twice, first without an error.
abbrev refusing : Amanda
refusing body schema = (none ∷ some (refused ∷ unnamed ∷ []) ∷ [], ok tt)

abbrev older_host : AmandaHost
older_host = record {
  amanda = some refusing;
  read_file = λ f. if f == "schemas/user.json" then some "{}" else none;
  parse_json = λ contents. if contents == "{}" then ok (obj []) else throw syntax_error;
}

abbrev older_checked : Result (Unit {0}) × Request
older_checked = legacy_check_json_schema older_host "user" asked

legacy_check_json_schema-errors_example : LegacyJudges older_host "user" asked
legacy_check_json_schema-errors_example = legacy_check_json_schema-errors older_host "user" asked

-- It is the first of the two cases, written out; the second error has no property.
older_recorded :
    (older_checked.0 ≡ ok tt)
    × (recorded older_checked.1.errors
        ≡ record { param = string "name"; msg = string "is required"; value = none }
          ∷ record { param = string "?"; msg = string "is not allowed"; value = none }
          ∷ [])
unfolding legacy_check_json_schema load_schema record_calls record_errors
older_recorded = (refl, refl)
