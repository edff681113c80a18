-- ===== src/Validator.antt =====
-- The validation methods that a request gets
-- (core/src/main/resources/com/sandbox/runtime/v2/js/version_3/sandbox-validator.js).
-- The third-party `validator` object is the record `Library`: its keys, and what a method gives on
-- its arguments. The request is the record of the fields that the methods read and write.
pub mod Params
pub mod Checks
pub mod Sanitizers
pub mod Errors
pub mod Agree
use worker_cli.Prelude.{
  ℕ, String, Bool, true, false, Option, none, some, List, [], ◌∷◌, ◌++◌, ◌||◌, ◌==◌, starts_with,
  if◌then◌else◌,
}
use worker_cli.Js.{Value, undefined, string, truthy, Result}

-- An error as the default formatter builds it; an error of a JSON schema has no `value`.
pub record Fault : Type 0 where
  pub param : Value
  pub msg : Value
  pub value : Option Value

-- `notified` is what the error callback has been called with, in order.
pub record Request : Type 0 where
  pub params : Value
  pub query : Value
  pub body : Value
  pub headers : Value
  pub errors : Option (List Fault)
  pub on_error : Value
  pub notified : List Value

pub record Library : Type 0 where
  pub methods : List String
  pub call : String → List Value → Result Value

-- `options`, with its defaults filled in
pub record Options : Type 0 where
  pub custom_names : List String
  pub call_custom : String → List Value → Result Value
  pub error_formatter : String → Value → Value → Fault

-- `sanitizers`
abbrev pub sanitizers : List String
sanitizers =
    "trim" ∷ "ltrim" ∷ "rtrim" ∷ "escape" ∷ "stripLow" ∷ "whitelist" ∷ "blacklist"
    ∷ "normalizeEmail" ∷ []

-- `names.indexOf(name) !== -1`
abbrev pub contains : List String → String → Bool
contains [] name = false
contains (n ∷ names) name = n == name || contains names name

-- `methodName.match(/^to/) || sanitizers.indexOf(methodName) !== -1`
unfoldable pub is_sanitizer : String → Bool
unfolding starts_with
is_sanitizer name = starts_with name "to" || contains sanitizers name

abbrev pub recorded : Option (List Fault) → List Fault
recorded none = []
recorded (some faults) = faults

-- `req._validationErrors.push(error)`, with the list made first if there is none
abbrev pub push_error : Fault → Request → Request
push_error fault req = record req { errors = some (recorded req.errors ++ fault ∷ []) }

-- `req.onValidationError`
abbrev pub on_validation_error : Value → Request → Request
on_validation_error errback req = record req { on_error = errback }
