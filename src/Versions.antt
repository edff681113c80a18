-- ===== src/Versions.antt =====
-- The scripts of the three versions that the worker can run a repository with
-- (core/src/main/resources/com/sandbox/runtime/v2/js/version_1, version_2 and version_3), script by
-- script, as records of what each defines. version_1 and version_2 have an older validator (Legacy).
pub mod Legacy
pub mod One
pub mod Two
use worker_cli.Prelude.{ℕ, String, Bool, Option, List, Dict}
use worker_cli.Js.{Value, Engine, Result}
use worker_cli.Routes.{Definition}
use worker_cli.Wrapping.{HostObject, Wrappers}
use worker_cli.Modules.{Exports, Store}
use worker_cli.Require.{Host, Outcome}
use worker_cli.Validator.{Fault, Request, Library, Options}
use worker_cli.Validator.Params.{Getter}
use worker_cli.Validator.Checks.{Check, Chain}
use worker_cli.Validator.Errors.{Report, JsonReport}
use worker_cli.Templates.{RenderHost, Renderers}
use worker_cli.Libraries.{LibraryId, LibraryHost, Lazy, Log, Access, Globals, Versions}

-- The first function of sandbox-patch.js; `names` are the globals that the mock is bound to.
pub record Mock : Type 0 where
  pub define : List Value → Result Definition
  pub soap : List Value → Result Definition
  pub wrap : HostObject → HostObject → Wrappers → Wrappers
  pub request_arguments : List Value → List Value
  pub names : List String

-- The second function of sandbox-patch.js, less what it adds to the prototypes.
pub record Loader : Type 0 where
  pub normalize_name : String → String
  pub resolve : (String → Bool) → String → Option String → Option String
  pub read_file : Host → String → Result String
  pub new_module : String → Option ℕ → Store → Store
  pub assign_exports : ℕ → Exports → Store → Store
  pub require : Host → ℕ → String → Option ℕ → Store → Outcome Exports

-- `sandboxValidator` up to the function that it returns.
pub record Checker : Type 0 where
  pub sanitizer :
      Engine → Library → String → Value → String → List Value → Request → Result (Value × Request)
  pub check_param : Engine → Getter → Value → Value → Result Check
  pub call_method :
      Library → Options → Check → Chain → String → List Value → Request → Result Chain × Request

-- What the function that `sandboxValidator` returns puts on a request, less `checkJsonSchema`.
pub record RequestMethods : Type 0 where
  pub update_param : Engine → String → Value → Request → Result (Value × Request)
  pub check : Engine → Request → Getter
  pub check_body : Engine → Request → Getter
  pub check_params : Engine → Request → Getter
  pub check_query : Engine → Request → Getter
  pub check_header : Engine → Request → Getter
  pub on_validation_error : Value → Request → Request
  pub validation_errors : Engine → Value → Request → Report
  pub validation_errors_json : Engine → Value → Request → JsonReport

-- sandbox-templates.js
abbrev pub Template : Type 0
Template = Engine → RenderHost → ℕ → List Value → Renderers → Result (Unit {0}) × Renderers

-- sandbox-libraries.js: the files that it loads, its proxies and what it does when it is evaluated
pub record LibraryScript : Type 0 where
  pub files : Versions
  pub get_library_object : LibraryId → Lazy
  pub trap : LibraryHost → Lazy → Access → Log → Result Value × Lazy × Log
  pub install : LibraryHost → Log → Result Globals × Log
