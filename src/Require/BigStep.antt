-- ===== src/Require/BigStep.antt =====
-- `require` without a depth, by rules
-- (core/src/main/resources/com/sandbox/runtime/v2/js/version_3/sandbox-patch.js, `Require`,
-- `loadModule`, `Module._load`). A `require` that never ends has no derivation.
pub mod Sound
pub mod Complete
pub mod Keeps
pub mod Family
pub mod Tree
pub mod Json
pub mod Registers
pub mod Accepted
pub mod Marks
pub mod Grows
pub mod Loading
use worker_cli.Prelude.{
  ℕ, suc, ◌+◌, String, true, false, ◌≡◌, Option, none, some, [], ◌∷◌, length, get_elem?, lookup,
  ends_with,
}
use worker_cli.Js.{string, text, shown, JsError, error, Result, ok, throw, ◌>>=◌}
use worker_cli.Paths.{resolve}
use worker_cli.Modules.{Exports, Store, assign_exports, new_module, mark_loaded, exports_of}
use worker_cli.Require.{
  Script, done, raise, set_exports, require, MockCall, definition_of, answer, with_route, call_mock,
  Host, read_file, if_truthy, load_json, parent_file,
}

-- The script of a file, or the error of its reading or parsing.
abbrev pub script_of : Host → String → Result Script
script_of host file = do contents ← read_file host file; host.compile file contents

abbrev pub not_found : String → JsError
not_found id = error (text "Cannot find module: " ∷ shown (string id) ∷ [])

-- The file that the id names, and the truthy exports that the cache has for it.
abbrev pub Names : Host → String → Option ℕ → Store → Option String → Type 0
Names host id parent s file = resolve host.has_file id (parent_file parent s) ≡ file

abbrev pub Cached : String → Store → Option Exports → Type 0
Cached file s v = if_truthy (lookup file s.cache) ≡ v

mutual
  -- `Requires host id parent s r t`: `require(id)` in the module `parent`, begun in the store `s`,
  -- ends with the result `r` in the store `t`.
  pub data Requires (host : Host)
      : String → Option ℕ → Store → Result Exports → Store → Type 0 where
    unknown :
        {id : String} {parent : Option ℕ} {s : Store}
        → Names host id parent s none
        → Requires host id parent s (throw (not_found id)) s
    cached :
        {id : String} {parent : Option ℕ} {s : Store} {file : String} {v : Exports}
        → Names host id parent s (some file)
        → Cached file s (some v)
        → Requires host id parent s (ok v) s
    json :
        {id : String} {parent : Option ℕ} {s : Store} {file : String}
        → Names host id parent s (some file)
        → Cached file s none
        → ends_with file ".json" ≡ true
        → Requires host id parent s (load_json host file) s
    unreadable :
        {id : String} {parent : Option ℕ} {s : Store} {file : String} {e : JsError}
        → Names host id parent s (some file)
        → Cached file s none
        → ends_with file ".json" ≡ false
        → script_of host file ≡ throw e
        → Requires host id parent s (throw e) (new_module file parent s)
    failed :
        {id : String} {parent : Option ℕ} {s t : Store} {file : String} {script : Script}
        {e : JsError}
        → Names host id parent s (some file)
        → Cached file s none
        → ends_with file ".json" ≡ false
        → script_of host file ≡ ok script
        → Runs host (length s.modules) script (new_module file parent s) (throw e) t
        → Requires host id parent s (throw e) t
    loaded :
        {id : String} {parent : Option ℕ} {s t : Store} {file : String} {script : Script}
        → Names host id parent s (some file)
        → Cached file s none
        → ends_with file ".json" ≡ false
        → script_of host file ≡ ok script
        → Runs host (length s.modules) script (new_module file parent s) (ok tt) t
        → Requires host id parent s
            (ok (
              exports_of (get_elem? (mark_loaded (length s.modules) t).modules (length s.modules))))
            (mark_loaded (length s.modules) t)

  -- The code of the module `self`, begun in `s`, ends with `r` in `t`.
  pub data Runs (host : Host) : ℕ → Script → Store → Result (Unit {0}) → Store → Type 0 where
    ended : {self : ℕ} {s : Store} → Runs host self done s (ok tt) s
    raised : {self : ℕ} {s : Store} {e : JsError} → Runs host self (raise e) s (throw e) s
    assigned :
        {self : ℕ} {v : Exports} {rest : Script} {s t : Store} {r : Result (Unit {0})}
        → Runs host self rest (assign_exports self v s) r t
        → Runs host self (set_exports v rest) s r t
    required :
        {self : ℕ} {id : String} {rest : Result Exports → Script} {s t u : Store}
        {x : Result Exports} {r : Result (Unit {0})}
        → Requires host id (some self) s x t
        → Runs host self (rest x) t r u
        → Runs host self (require id rest) s r u
    mocked :
        {self : ℕ} {call : MockCall} {rest : Result (Unit {0}) → Script} {s t : Store}
        {r : Result (Unit {0})}
        → Runs host self
            (rest (answer host (definition_of call)))
            (with_route (definition_of call) s)
            r
            t
        → Runs host self (call_mock call rest) s r t
