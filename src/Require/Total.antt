-- ===== src/Require/Total.antt =====
-- Termination of `require` on files that require each other
-- (core/src/main/resources/com/sandbox/runtime/v2/js/version_3/sandbox-patch.js, `Require`,
-- `loadModule`, `Module._load`).
use worker_cli.Prelude.{
  ℕ, zero, suc, String, true, ◌≡◌, refl, Option, none, some, List, ◌<◌, arith, length, lookup,
  eq_refl, ends_with, Bool-cases, Option-cases, inl, inr,
}
use worker_cli.Js.{Result, ok, throw, ◌>>=◌}
use worker_cli.Paths.{find_root, resolve}
use worker_cli.Paths.Safety.{resolve_as_file-IsSegment}
use worker_cli.Routes.{Definition}
use worker_cli.Modules.{reference, Store, assign_exports, new_module, mark_loaded}
use worker_cli.Modules.Invariant.{IsCoherent, Extends, Extends-refl, Extends-trans}
use worker_cli.Modules.Steps.{
  mark_loaded-IsCoherent, mark_loaded-Extends, lookup-new_module, new_module-IsCoherent,
  new_module-Extends, assign_exports-IsCoherent, assign_exports-Extends,
}
use worker_cli.Require.{
  Script, done, raise, set_exports, require, call_mock, definition_of, answer, with_route, Host,
  Outcome, after, Requirer, run_script, finish, run_text, read_file, load, return_exports,
  load_module, load_json, require_file, parent_file, require_from,
}
use worker_cli.Require.Uncached.{ExportsTruthy, occurs, IsSound, uncached, uncached-le, uncached-lt}

-- The call ends, in a well-formed store that extends the one it began in.
pub record Settles {A : Type 0} (o : Outcome A) (s : Store) : Type 0 where
  pub result : Result A
  pub store : Store
  pub returns : o ≡ some (result, store)
  pub coherent : IsCoherent store
  pub extends : Extends s store

pub Settles-now :
    {A : Type 0} (r : Result A) (s t : Store) → IsCoherent t → Extends s t → Settles (some (r, t)) s
Settles-now r s t c x = record { result = r; store = t; returns = refl; coherent = c; extends = x }

pub Settles-after :
    {A B : Type 0} {o : Outcome A} {s : Store} (next : Result A → Store → Outcome B)
    → Settles o s
    → ((r : Result A) (t : Store) → IsCoherent t → Extends s t → Settles (next r t) t)
    → Settles (after o next) s
Settles-after next a h =
    let b = h a.result a.store a.coherent a.extends in
    record {
      result = b.result;
      store = b.store;
      returns = rw (a.returns) b.returns;
      coherent = b.coherent;
      extends = Extends-trans a.extends b.extends;
    }

pub resolve-has_file :
    (host : Host) (id : String) (parent : Option String) (file : String)
    → resolve host.has_file id parent ≡ some file
    → host.has_file file ≡ true
resolve-has_file host id parent file h =
    (resolve_as_file-IsSegment host.has_file id (find_root parent) file (unfold resolve in h)).3

with_route-IsCoherent :
    (d : Result Definition) (s : Store) → IsCoherent s → IsCoherent (with_route d s)
with_route-IsCoherent (throw e) s c = c
with_route-IsCoherent (ok d) s c = record {
  truthful = c.truthful;
  cached = c.cached;
  unique = c.unique;
}

with_route-Extends : (d : Result Definition) (s : Store) → Extends s (with_route d s)
with_route-Extends (throw e) s = Extends-refl s
with_route-Extends (ok d) s = record { kept = λ f v h. (v, h); named = λ i f v h. (v, h) }

module _ (host : Host) (files : List String) (sound : IsSound host files) where
  compiled-ExportsTruthy :
      (file : String) (r : Result String) (script : Script)
      → (r >>= λ contents. host.compile file contents) ≡ ok script
      → ExportsTruthy script
  compiled-ExportsTruthy file (ok contents) script h = sound.truthy_scripts file contents script h
  compiled-ExportsTruthy file (throw e) script h = cc

  -- `require` settles wherever fewer than `n` files are left to load.
  abbrev pub SettlesBelow : ℕ → Requirer → Type 0
  SettlesBelow n req =
      (id : String) (self : ℕ) (s : Store)
      → IsCoherent s
      → uncached files s < n
      → Settles (req id self s) s

  module _ (n : ℕ) (req : Requirer) (ih : SettlesBelow n req) where
    run_script-Settles :
        (self : ℕ) (script : Script) (s : Store)
        → ExportsTruthy script
        → IsCoherent s
        → uncached files s < n
        → Settles (run_script host req self script s) s
    unfolding run_script
    run_script-Settles self done s e c h = Settles-now (ok tt) s s c (Extends-refl s)
    run_script-Settles self (raise err) s e c h = Settles-now (throw err) s s c (Extends-refl s)
    run_script-Settles self (set_exports v rest) s (t, e) c h =
        let x = assign_exports-Extends s self v c in
        let later =
          run_script-Settles self rest (assign_exports self v s) e
            (assign_exports-IsCoherent s self v c t) (omega (arith, uncached-le x files)) in
        record {
          result = later.result;
          store = later.store;
          returns = later.returns;
          coherent = later.coherent;
          extends = Extends-trans x later.extends;
        }
    run_script-Settles self (require id rest) s e c h =
        Settles-after (λ r t. run_script host req self (rest r) t) (ih id self s c h)
          λ r t k x. run_script-Settles self (rest r) t (e r) k (omega (arith, uncached-le x files))
    run_script-Settles self (call_mock call rest) s e c h =
        let d = definition_of call in
        let x = with_route-Extends d s in
        let later =
          run_script-Settles self (rest (answer host d)) (with_route d s) (e (answer host d))
            (with_route-IsCoherent d s c) (omega (arith, uncached-le x files)) in
        record {
          result = later.result;
          store = later.store;
          returns = later.returns;
          coherent = later.coherent;
          extends = Extends-trans x later.extends;
        }

    finish-Settles :
        (self : ℕ) (r : Result (Unit {0})) (t : Store) → IsCoherent t → Settles (finish self r t) t
    finish-Settles self (ok u) t c =
        Settles-now (ok tt) t (mark_loaded self t) (mark_loaded-IsCoherent t c self)
          (mark_loaded-Extends t c self)
    finish-Settles self (throw e) t c = Settles-now (throw e) t t c (Extends-refl t)

    run_text-Settles :
        (self : ℕ) (r : Result Script) (s : Store)
        → ((script : Script) → r ≡ ok script → ExportsTruthy script)
        → IsCoherent s
        → uncached files s < n
        → Settles (run_text host req self r s) s
    run_text-Settles self (throw e) s k c h = Settles-now (throw e) s s c (Extends-refl s)
    run_text-Settles self (ok script) s k c h =
        Settles-after (finish self) (run_script-Settles self script s (k script refl) c h)
          λ r t d x. finish-Settles self r t d

    load-Settles :
        (self : ℕ) (file : String) (s : Store)
        → IsCoherent s
        → uncached files s < n
        → Settles (load host req self file s) s
    unfolding load
    load-Settles self file s c h =
        run_text-Settles self _ s (compiled-ExportsTruthy file (read_file host file)) c h

    return_exports-Settles :
        (self : ℕ) (r : Result (Unit {0})) (t : Store)
        → IsCoherent t
        → Settles (return_exports self r t) t
    return_exports-Settles self (ok u) t c = Settles-now _ t t c (Extends-refl t)
    return_exports-Settles self (throw e) t c = Settles-now (throw e) t t c (Extends-refl t)

    module _ (file : String) (parent : Option ℕ) (s : Store) (c : IsCoherent s)
        (missing : lookup file s.cache ≡ none) (listed : occurs file files ≡ true)
        (h : uncached files s < suc n) where
      -- The new module's file is in the cache, so one file less is left to load.
      new_module-lt : uncached files (new_module file parent s) < n
      new_module-lt =
          let now = lookup-new_module s c file parent missing file in
          let less =
            uncached-lt (new_module-Extends s c file parent missing) file (reference s.objects)
              missing (rw (now, eq_refl file)) files listed in
          omega arith

      pub load-Settles_new :
          Settles
            (load host req (length s.modules) file (new_module file parent s))
            (new_module file parent s)
      load-Settles_new =
          load-Settles (length s.modules) file (new_module file parent s)
            (new_module-IsCoherent s c file parent missing) new_module-lt

      load_module-Settles : Settles (load_module host req file parent s) s
      unfolding load_module
      load_module-Settles =
          let x = new_module-Extends s c file parent missing in
          let a =
            Settles-after (return_exports (length s.modules)) load-Settles_new
              λ r t d y. return_exports-Settles (length s.modules) r t d in
          record {
            result = a.result;
            store = a.store;
            returns = a.returns;
            coherent = a.coherent;
            extends = Extends-trans x a.extends;
          }

    require_file-Settles :
        (file : String) (parent : Option ℕ) (s : Store)
        → IsCoherent s
        → occurs file files ≡ true
        → uncached files s < suc n
        → Settles (require_file host req file parent s) s
    unfolding require_file
    require_file-Settles file parent s c listed h = elim (Option-cases (lookup file s.cache)) [
      | inl missing ↦ elim (Bool-cases (ends_with file ".json")) [
        | inl json ↦
            rw (missing, require_file)
              (rw json (Settles-now (load_json host file) s s c (Extends-refl s)))
        | inr code ↦
            rw (missing, require_file)
              (rw code (load_module-Settles file parent s c missing listed h))
      ]
      | inr (v, found) ↦
          rw (found, require_file)
            (rw (c.truthful file v found) (Settles-now (ok v) s s c (Extends-refl s)))
    ]

  -- Where the repository has finitely many files and every script exports truthy values only,
  -- `require` ends, by a result or an error, at every depth greater than the number of files not yet in
  -- the cache, whatever cycles the files have; the store it leaves is well-formed, and every file that
  -- was in the cache and every module that was made is still there.
  pub require_from-Settles :
      (depth : ℕ) (id : String) (parent : Option ℕ) (s : Store)
      → IsCoherent s
      → uncached files s < depth
      → Settles (require_from host depth id parent s) s
  unfolding require_from
  require_from-Settles zero id parent s c h = absurd (omega arith)
  require_from-Settles (suc depth) id parent s c h =
      elim (Option-cases (resolve host.has_file id (parent_file parent s))) [
        | inl unknown ↦ rw (unknown, require_from) (Settles-now (throw _) s s c (Extends-refl s))
        | inr (file, found) ↦
            rw (found, require_from)
              (require_file-Settles depth (λ i self. require_from host depth i (some self))
                (λ i self t d k. require_from-Settles depth i (some self) t d k) file parent s c
                (sound.listed file (resolve-has_file host id (parent_file parent s) file found)) h)
      ]
