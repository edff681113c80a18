-- ===== src/Require.antt =====
-- The module loader of the scripts: `Require`, `loadModule`, `Module._load` and `readFile`
-- (core/src/main/resources/com/sandbox/runtime/v2/js/version_3/sandbox-patch.js).
-- The text of a file is evaluated by the engine's `load`, a parameter: `compile` gives the script
-- that it stands for, or the error of a text that does not parse. A script is what its run does to
-- the loader and the routes: it assigns `module.exports`, requires ids, calls `Sandbox.define` and
-- `Sandbox.soap` and goes on with what that gives (a script that catches an error goes on too), and
-- ends or throws.
-- `depth` bounds how deep the calls of `require` nest; `none` says that the bound was met.
pub mod Uncached
pub mod Total
pub mod Again
pub mod Bound
pub mod BigStep
use worker_cli.Prelude.{
  ℕ, zero, suc, String, Bool, Option, none, some, List, [], ◌∷◌, length, get_elem?, modify, lookup,
  ends_with, if◌then◌else◌,
}
use worker_cli.Js.{Value, text, shown, string, JsError, error, Result, ok, throw, ◌>>=◌}
use worker_cli.Paths.{resolve}
use worker_cli.Routes.{Definition, define, soap}
use worker_cli.Modules.{
  Exports, reference, plain, is_truthy, Module, Store, assign_exports, new_module, as_loaded,
  mark_loaded, file_of, exports_of, add_route,
}

-- A call of `Sandbox.define` or `Sandbox.soap` with its arguments
pub data MockCall : Type 0 where
  define_call soap_call : List Value → MockCall

abbrev pub definition_of : MockCall → Result Definition
definition_of (define_call args) = define args
definition_of (soap_call args) = soap args

pub data Script : Type 0 where
  done : Script
  raise : JsError → Script
  set_exports : Exports → Script → Script
  require : String → (Result Exports → Script) → Script
  call_mock : MockCall → (Result (Unit {0}) → Script) → Script

-- The host and the engine, as the loader uses them; `mock_define` is how `__mock.define` ends.
pub record Host : Type 0 where
  pub has_file : String → Bool
  pub read_file : String → Option String
  pub compile : (name text : String) → Result Script
  pub parse_json : String → Result Value
  pub mock_define : Definition → Result (Unit {0})

-- What a call gives back, with the store that it leaves.
abbrev pub Outcome : Type 0 → Type 0
Outcome A = Option (Result A × Store)

abbrev pub after : {A B : Type 0} → Outcome A → (Result A → Store → Outcome B) → Outcome B
after none next = none
after (some (r, s)) next = next r s

-- `readFile`
abbrev pub or_missing : String → Option String → Result String
or_missing file none = throw (error (text "Cannot get file: " ∷ shown (string file) ∷ []))
or_missing file (some contents) = ok contents

unfoldable pub read_file : Host → String → Result String
read_file host file = or_missing file (host.read_file file)

-- What `require` does inside a module, given its index.
abbrev pub Requirer : Type 0
Requirer = String → ℕ → Store → Outcome Exports

-- What a call of the mock gives, and the store that it leaves.
abbrev pub answer : Host → Result Definition → Result (Unit {0})
answer host (throw e) = throw e
answer host (ok d) = host.mock_define d

abbrev pub with_route : Result Definition → Store → Store
with_route (throw e) s = s
with_route (ok d) s = add_route d s

-- `func.apply(module, …)`
unfoldable pub run_script : Host → Requirer → ℕ → Script → Store → Outcome (Unit {0})
unfolding assign_exports define soap
run_script host req self done s = some (ok tt, s)
run_script host req self (raise e) s = some (throw e, s)
run_script host req self (set_exports value rest) s =
    run_script host req self rest (assign_exports self value s)
run_script host req self (require id rest) s =
    after (req id self s) (λ r s'. run_script host req self (rest r) s')
run_script host req self (call_mock call rest) s =
    run_script host req self (rest (answer host (definition_of call)))
      (with_route (definition_of call) s)

abbrev pub finish : ℕ → Result (Unit {0}) → Store → Outcome (Unit {0})
finish self (ok _) s = some (ok tt, mark_loaded self s)
finish self (throw e) s = some (throw e, s)

abbrev pub run_text : Host → Requirer → ℕ → Result Script → Store → Outcome (Unit {0})
run_text host req self (throw e) s = some (throw e, s)
run_text host req self (ok script) s = after (run_script host req self script s) (finish self)

-- `Module._load`, for the new module of index `self`, whose `loaded` is false
unfoldable pub load : Host → Requirer → ℕ → String → Store → Outcome (Unit {0})
unfolding run_script read_file
load host req self file s =
    run_text host req self (do contents ← read_file host file; host.compile file contents) s

abbrev pub return_exports : ℕ → Result (Unit {0}) → Store → Outcome Exports
return_exports self (ok _) s = some (ok (exports_of (get_elem? s.modules self)), s)
return_exports self (throw e) s = some (throw e, s)

-- `loadModule`
unfoldable pub load_module : Host → Requirer → String → Option ℕ → Store → Outcome Exports
unfolding new_module load
load_module host req file parent s =
    let self = length s.modules in
    after (load host req self file (new_module file parent s)) (return_exports self)

abbrev pub if_truthy : Option Exports → Option Exports
if_truthy none = none
if_truthy (some v) = if is_truthy v then some v else none

-- `JSON.parse(readFile(file))`; the result is not put into the cache
unfoldable pub load_json : Host → String → Result Exports
unfolding read_file
load_json host file = do
  contents ← read_file host file
  value ← host.parse_json contents
  ok (plain value)

-- The end of `Require`, for a file that was found.
unfoldable pub require_file : Host → Requirer → String → Option ℕ → Store → Outcome Exports
unfolding lookup ends_with load_json load_module
require_file host req file parent s = elim (if_truthy (lookup file s.cache)) [
  | some value ↦ some (ok value, s)
  | none ↦
      if ends_with file ".json"
      then some (load_json host file, s)
      else load_module host req file parent s
]

abbrev pub parent_file : Option ℕ → Store → Option String
parent_file none s = none
parent_file (some p) s = file_of (get_elem? s.modules p)

-- `Require`
unfoldable pub require_from : Host → ℕ → String → Option ℕ → Store → Outcome Exports
unfolding resolve require_file
require_from host zero id parent s = none
require_from host (suc depth) id parent s = elim (resolve host.has_file id (parent_file parent s)) [
  | none ↦ some (throw (error (text "Cannot find module: " ∷ shown (string id) ∷ [])), s)
  | some file ↦ require_file host (λ i self. require_from host depth i (some self)) file parent s
]
