-- ===== src/Libraries.antt =====
-- The third-party libraries as the scripts load them: at once, or at the first use of a proxy
-- (core/src/main/resources/com/sandbox/runtime/v2/js/version_3/sandbox-libraries.js).
-- What a library's text evaluates to, and what its object does, are the host's and the library's:
-- an object is a number, and `eval_library` gives none where the text leaves the name undefined.
pub mod Laws
use worker_cli.Prelude.{
  ℕ, String, Bool, true, false, Option, none, some, List, [], ◌∷◌, ◌++◌, if◌then◌else◌,
}
use worker_cli.Js.{Value, array, from_list, type_error, JsError, Result, ok, throw, ◌>>=◌}

-- The three arguments of `evalLibrary`.
pub record LibraryId : Type 0 where
  pub version : String
  pub file_name : String
  pub object_name : String

pub record LibraryHost : Type 0 where
  pub eval_library : LibraryId → Result (Option ℕ)
  pub property : ℕ → String → Result Value
  pub call : ℕ → List Value → Result Value
  pub construct : ℕ → List Value → Result Value

-- A proxy and its `resolvedTarget`.
pub record Lazy : Type 0 where
  pub id : LibraryId
  pub resolved : Option ℕ

-- The evaluations of libraries that have been made, in order.
abbrev pub Log : Type 0
Log = List LibraryId

-- `evalLibrary`
unfoldable pub eval_library : LibraryHost → LibraryId → Log → Result (Option ℕ) × Log
eval_library h id log = (h.eval_library id, log ++ id ∷ [])

-- `getLibraryObject`
abbrev pub get_library_object : LibraryId → Lazy
get_library_object id = record { id = id; resolved = none }

-- The traps of the proxy.
pub data Access : Type 0 where
  get : String → Access
  apply construct : List Value → Access

-- What a trap does with the target; `apply` hands the list of the arguments over as one argument.
unfoldable pub use_target : LibraryHost → Option ℕ → Access → Result Value
use_target h none access = throw type_error
use_target h (some target) (get property) = h.property target property
use_target h (some target) (apply args) = h.call target (array (from_list args) ∷ [])
use_target h (some target) (construct args) = h.construct target args

abbrev pub use_loaded :
    LibraryHost → Lazy → Access → Result (Option ℕ) × Log → Result Value × Lazy × Log
use_loaded h lazy access (throw err, log) = (throw err, lazy, log)
use_loaded h lazy access (ok target, log) =
    (use_target h target access, record lazy { resolved = target }, log)

abbrev pub trap_at : LibraryHost → Lazy → Access → Option ℕ → Log → Result Value × Lazy × Log
trap_at h lazy access (some target) log = (use_target h (some target) access, lazy, log)
trap_at h lazy access none log = use_loaded h lazy access (eval_library h lazy.id log)

-- A use of the proxy: the library is loaded if there is no target yet.
unfoldable pub trap : LibraryHost → Lazy → Access → Log → Result Value × Lazy × Log
unfolding eval_library use_target
trap h lazy access log = trap_at h lazy access lazy.resolved log

-- Uses one after the other; an error ends its own use only.
unfoldable pub traps : LibraryHost → Lazy → List Access → Log → Lazy × Log
unfolding trap
traps h lazy [] log = (lazy, log)
traps h lazy (access ∷ accesses) log =
    let (r, lazy', log') = trap h lazy access log in traps h lazy' accesses log'

-- The globals that the script sets.
pub record Globals : Type 0 where
  pub faker : Lazy
  pub lodash : Lazy
  pub moment : Lazy
  pub validator : Option ℕ
  pub schema_validator : Option ℕ

-- The files of a version.
pub record Versions : Type 0 where
  pub faker : LibraryId
  pub lodash : LibraryId
  pub moment : LibraryId
  pub validator : LibraryId
  pub schema_validator : LibraryId

abbrev pub library : String → String → String → LibraryId
library version file_name object_name = record {
  version = version;
  file_name = file_name;
  object_name = object_name;
}

abbrev pub version_3 : Versions
version_3 = record {
  faker = library "version_3" "faker-4.1.0.min.js" "faker";
  lodash = library "version_3" "lodash-4.17.11.min.js" "_";
  moment = library "version_3" "moment-2.24.0.min.js" "moment";
  validator = library "version_3" "validator-10.11.0.min.js" "validator";
  schema_validator = library "version_3" "ajv-6.10.0.min.js" "Ajv";
}

abbrev pub globals_of : Versions → Option ℕ → Option ℕ → Globals
globals_of v validator schema_validator = record {
  faker = get_library_object v.faker;
  lodash = get_library_object v.lodash;
  moment = get_library_object v.moment;
  validator = validator;
  schema_validator = schema_validator;
}

abbrev pub set_schema_validator :
    Versions → Option ℕ → Result (Option ℕ) × Log → Result Globals × Log
set_schema_validator v validator (throw err, log) = (throw err, log)
set_schema_validator v validator (ok schema_validator, log) =
    (ok (globals_of v validator schema_validator), log)

abbrev pub set_validator : LibraryHost → Versions → Result (Option ℕ) × Log → Result Globals × Log
set_validator h v (throw err, log) = (throw err, log)
set_validator h v (ok validator, log) =
    set_schema_validator v validator (eval_library h v.schema_validator log)

-- The body of sandbox-libraries.js
unfoldable pub install : LibraryHost → Versions → Log → Result Globals × Log
unfolding eval_library
install h v log = set_validator h v (eval_library h v.validator log)
