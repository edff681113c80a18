-- ===== src/Require/BigStep/Loading.antt =====
-- A `require` in a repository whose files find what they ask for
-- (core/src/main/resources/com/sandbox/runtime/v2/js/version_3/sandbox-patch.js, `Require`,
-- `loadModule`, `Module._load`): every module that it makes is loaded in the end.
use mathlib.Core.List.{map-append}
use worker_cli.Prelude.{
  ℕ, ◌<◌, String, true, false, ◌≡◌, refl, sym, ap, ◌∙◌, Option, some, List, [], ◌∷◌, ◌++◌, map,
  append-nil, append_assoc, length, ends_with,
}
use worker_cli.Js.{Result, ok}
use worker_cli.Paths.{resolve}
use worker_cli.Modules.{Exports, Store, assign_exports, new_module, mark_loaded}
use worker_cli.Modules.Invariant.{IsCoherent}
use worker_cli.Require.{
  Script, done, raise, set_exports, require, call_mock, definition_of, answer, with_route, Host,
  load_json, parent_file, require_from,
}
use worker_cli.Require.Uncached.{IsSound, uncached}
use worker_cli.Require.Total.{require_from-Settles, resolve-has_file}
use worker_cli.Require.BigStep.{
  script_of, Requires, unknown, cached, json, unreadable, failed, loaded, Runs, ended, raised,
  assigned, required, mocked,
}
use worker_cli.Require.BigStep.Sound.{Requires-of_require_from}
use worker_cli.Require.BigStep.Marks.{
  marks, as_done, marks-assign_exports, marks-new_module, marks-mark_loaded, marks-with_route,
  parent_file-new_module, parent_file-grown,
}

-- The id names a file, whose text parses if it is JSON.
abbrev pub IsAvailable : Host → String → Option String → Type 0
IsAvailable host id parent =
    (file : String) × (resolve host.has_file id parent ≡ some file)
    × (ends_with file ".json" ≡ true → (v : Exports) × (load_json host file ≡ ok v))

-- The code of the file throws nothing as long as its calls do not, requires what is available, and
-- registers routes that the mock accepts.
abbrev pub IsSmooth : Host → String → Script → Type 0
IsSmooth host file done = Unit
IsSmooth host file (raise e) = ⊥
IsSmooth host file (set_exports v rest) = IsSmooth host file rest
IsSmooth host file (require id rest) =
    IsAvailable host id (some file) × ((v : Exports) → IsSmooth host file (rest (ok v)))
IsSmooth host file (call_mock call rest) =
    (answer host (definition_of call) ≡ ok tt) × IsSmooth host file (rest (ok tt))

-- All JavaScript files can be read and parsed, and their code is so.
abbrev pub IsReady : Host → Type 0
IsReady host =
    (file : String)
    → host.has_file file ≡ true
    → ends_with file ".json" ≡ false
    → (script : Script) × (script_of host file ≡ ok script) × IsSmooth host file script

-- The modules that were there are as they were, and the new ones, of these files, are loaded.
abbrev pub Loads : Store → Store → Type 0
Loads s t = (files : List String) × (marks t ≡ marks s ++ map as_done files)

Loads-refl : (s : Store) → Loads s s
Loads-refl s = ([], sym (append-nil (marks s)))

Loads-trans : (s t u : Store) → Loads s t → Loads t u → Loads s u
Loads-trans s t u (fs, a) (gs, b) = (
  fs ++ gs,
  b
      ∙ ap (λ ms. ms ++ map as_done gs) a
      ∙ append_assoc (marks s) (map as_done fs) (map as_done gs)
      ∙ ap (λ ms. marks s ++ ms) (sym (map-append as_done fs gs)),
)

-- The code of a new module has run.
Loads-mark_loaded :
    (file : String) (parent : Option ℕ) (s t : Store)
    → Loads (new_module file parent s) t
    → Loads s (mark_loaded (length s.modules) t)
Loads-mark_loaded file parent s t (fs, e) = (
  file ∷ fs,
  marks-mark_loaded s t file false (map as_done fs) (
      e
      ∙ ap (λ ms. ms ++ map as_done fs) (marks-new_module file parent s)
      ∙ append_assoc (marks s) ((file, false) ∷ []) (map as_done fs)),
)

Loads-same : (s t u : Store) → marks t ≡ marks s → Loads t u → Loads s u
Loads-same s t u same (fs, e) = (fs, e ∙ ap (λ ms. ms ++ map as_done fs) same)

mutual
  unfolding assign_exports

  Requires-Loads :
      {host : Host} {id : String} {parent : Option ℕ} {s t : Store} {x : Result Exports}
      → IsReady host
      → IsAvailable host id (parent_file parent s)
      → Requires host id parent s x t
      → ((v : Exports) × (x ≡ ok v)) × Loads s t
  Requires-Loads ready (file, found, parsed) (unknown named) = cc (found, named)
  Requires-Loads {s = s} ready (file, found, parsed) (cached {v = v} named there) =
      ((v, refl), Loads-refl s)
  Requires-Loads {s = s} ready (file, found, parsed) (json {file = file'} named missing is_json) =
      let same : file ≡ file' = cc (found, named) in
      let (v, e) = parsed (rw same is_json) in ((v, rw (← same) e), Loads-refl s)
  Requires-Loads {host} {id} {parent} {s} ready available
        (unreadable {file = file} named missing code compiled) =
      let (script, e, smooth) =
        ready file (resolve-has_file host id (parent_file parent s) file named) code in
      cc (e, compiled)
  Requires-Loads {host} {id} {parent} {s} ready available
        (failed {file = file} {script = script} named missing code compiled d) =
      let (found, e, smooth) =
        ready file (resolve-has_file host id (parent_file parent s) file named) code in
      let same : found ≡ script = cc (e, compiled) in
      let (ends, loads) =
        Runs-Loads file ready (rw (← same) smooth) (parent_file-new_module file parent s) d in
      cc ends
  Requires-Loads {host} {id} {parent} {s} ready available
        (loaded {t = t} {file = file} {script = script} named missing code compiled d) =
      let (found, e, smooth) =
        ready file (resolve-has_file host id (parent_file parent s) file named) code in
      let same : found ≡ script = cc (e, compiled) in
      let (ends, loads) =
        Runs-Loads file ready (rw (← same) smooth) (parent_file-new_module file parent s) d in
      ((_, refl), Loads-mark_loaded file parent s t loads)

  Runs-Loads :
      {host : Host} {self : ℕ} {script : Script} {s t : Store} {r : Result (Unit {0})}
      (file : String)
      → IsReady host
      → IsSmooth host file script
      → parent_file (some self) s ≡ some file
      → Runs host self script s r t
      → (r ≡ ok tt) × Loads s t
  Runs-Loads {s = s} file ready smooth here ended = (refl, Loads-refl s)
  Runs-Loads file ready smooth here raised = absurd smooth
  Runs-Loads {self = self} {s = s} {t = t} file ready smooth here (assigned {v = v} d) =
      let same = marks-assign_exports self v s in
      let (ends, loads) =
        Runs-Loads file ready smooth
          (parent_file-grown s (assign_exports self v s) self file []
            (same ∙ sym (append-nil (marks s))) here)
          d in
      (ends, Loads-same s (assign_exports self v s) t same loads)
  Runs-Loads {host} {self} {s = s} {t = u} file ready smooth here (required {t = t} {x = x} d d') =
      let (available, next) = smooth in
      let ((v, e), loads) = Requires-Loads ready (rw here available) d in
      let (ends, later) =
        Runs-Loads file ready (rw e (next v))
          (parent_file-grown s t self file (map as_done loads.0) loads.1 here) d' in
      (ends, Loads-trans s t u loads later)
  Runs-Loads {host} {self} {s = s} {t = t} {r = r} file ready smooth here
        (mocked {call = call} {rest = rest} d) =
      let (accepted, next) = smooth in
      let same = marks-with_route (definition_of call) s in
      let (ends, loads) =
        Runs-Loads file ready (rw accepted next)
          (parent_file-grown s (with_route (definition_of call) s) self file []
            (same ∙ sym (append-nil (marks s))) here)
          d in
      (ends, Loads-same s (with_route (definition_of call) s) t same loads)

-- In a repository with finitely many files, whose scripts export truthy values only, let every
-- JavaScript file be readable and parse, and its code throw nothing of its own, require ids that
-- name files, with JSON that parses, and register routes that the mock and the host accept. Then a
-- `require` of such an id from a well-formed store, with more depth than files that are left to
-- load, gives exports, on files that require each other too; every module that was there keeps its
-- `loaded`, and every module that was made is loaded.
pub require_from-Loads :
    (host : Host) (files : List String) (depth : ℕ) (id : String) (parent : Option ℕ) (s : Store)
    → IsSound host files
    → IsReady host
    → IsAvailable host id (parent_file parent s)
    → IsCoherent s
    → uncached files s < depth
    → (v : Exports) × (t : Store) × (require_from host depth id parent s ≡ some (ok v, t))
      × Loads s t
require_from-Loads host files depth id parent s sound ready available c enough =
    let a = require_from-Settles host files sound depth id parent s c enough in
    let ((v, e), loads) =
      Requires-Loads ready available
        (Requires-of_require_from host depth id parent s a.result a.store a.returns) in
    (v, a.store, rw (← e) a.returns, loads)
