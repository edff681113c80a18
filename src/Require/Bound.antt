-- ===== src/Require/Bound.antt =====
-- The bound on the nesting of `require`
-- (core/src/main/resources/com/sandbox/runtime/v2/js/version_3/sandbox-patch.js, `Require`,
-- `Module._load`), and files that export a falsy value.
use Prim.Native.Nat.add
use mathlib.Core.Option
use worker_cli.Prelude.{
  ℕ, zero, suc, ◌+◌, String, false, ◌≡◌, refl, Option, none, some, lookup, ends_with, eqb_refl,
  eq_refl, Bool-cases, Option-cases, inl, inr, length,
}
use worker_cli.Js.{Result, ok, throw, ◌>>=◌}
use worker_cli.Paths.{resolve}
use worker_cli.Modules.{Exports, is_truthy, Module, Store, file_of, assign_exports, new_module}
use worker_cli.Modules.Invariant.{entry, entry_at, entry_at-new_module, entry_at-assign_exports}
use worker_cli.Modules.Steps.{lookup-assign_exports}
use worker_cli.Require.{
  Script, done, raise, set_exports, require, call_mock, definition_of, answer, with_route, Host,
  Outcome, after, Requirer, run_script, finish, run_text, read_file, load, return_exports,
  load_module, if_truthy, require_file, parent_file, require_from,
}

-- Where the first gives an outcome, the second gives the same.
abbrev Refines : {A : Type 0} → Outcome A → Outcome A → Type 0
Refines {A} o p = (x : Result A × Store) → o ≡ some x → p ≡ some x

Refines-after :
    {A B : Type 0} (o p : Outcome A) (f g : Result A → Store → Outcome B)
    → Refines o p
    → ((r : Result A) (s : Store) → Refines (f r s) (g r s))
    → Refines (after o f) (after p g)
Refines-after none p f g h k x e = cc
Refines-after (some (r, s)) p f g h k x e = rw (h (r, s) refl) (k r s x e)

module _ (host : Host) (req req' : Requirer)
    (ih : (id : String) (self : ℕ) (s : Store) → Refines (req id self s) (req' id self s)) where
  run_script-Refines :
      (self : ℕ) (script : Script) (s : Store)
      → Refines (run_script host req self script s) (run_script host req' self script s)
  unfolding run_script
  run_script-Refines self done s x e = e
  run_script-Refines self (raise err) s x e = e
  run_script-Refines self (set_exports v rest) s x e =
      run_script-Refines self rest (assign_exports self v s) x e
  run_script-Refines self (require id rest) s x e =
      Refines-after (req id self s) (req' id self s) (λ r t. run_script host req self (rest r) t)
        (λ r t. run_script host req' self (rest r) t) (ih id self s)
        (λ r t. run_script-Refines self (rest r) t) x e
  run_script-Refines self (call_mock call rest) s x e =
      run_script-Refines self (rest (answer host (definition_of call)))
        (with_route (definition_of call) s) x e

  run_text-Refines :
      (self : ℕ) (r : Result Script) (s : Store)
      → Refines (run_text host req self r s) (run_text host req' self r s)
  run_text-Refines self (throw err) s x e = e
  run_text-Refines self (ok script) s x e =
      Refines-after (run_script host req self script s) (run_script host req' self script s)
        (finish self) (finish self) (run_script-Refines self script s) (λ r t y k. k) x e

  load_module-Refines :
      (file : String) (parent : Option ℕ) (s : Store)
      → Refines (load_module host req file parent s) (load_module host req' file parent s)
  unfolding load_module
  load_module-Refines file parent s x e =
      let self : ℕ = length s.modules in
      Refines-after (load host req self file (new_module file parent s))
        (load host req' self file (new_module file parent s)) (return_exports self)
        (return_exports self)
        (run_text-Refines self (read_file host file >>= λ c. host.compile file c)
          (new_module file parent s))
        (λ r t y k. k) x e

  require_file-Refines :
      (file : String) (parent : Option ℕ) (s : Store)
      → Refines (require_file host req file parent s) (require_file host req' file parent s)
  unfolding require_file
  require_file-Refines file parent s x e = elim (Option-cases (if_truthy (lookup file s.cache))) [
    | inr (v, found) ↦ rw (found, require_file) (rw (found, require_file) at e)
    | inl missing ↦
        let opened = rw (missing, require_file) at e in
        rw (missing, require_file)
          (elim (Bool-cases (ends_with file ".json")) [
            | inl json ↦ rw json (rw json at opened)
            | inr code ↦ rw code (load_module-Refines file parent s x (rw code at opened))
          ])
  ]

-- An outcome at one depth is the outcome at every greater depth.
pub require_from-add :
    (host : Host) (depth more : ℕ) (id : String) (parent : Option ℕ) (s : Store)
    (x : Result Exports × Store)
    → require_from host depth id parent s ≡ some x
    → require_from host (depth + more) id parent s ≡ some x
unfolding require_from
require_from-add host zero more id parent s x e = cc
require_from-add host (suc depth) more id parent s x e =
    rw (add.suc depth more) (elim (Option-cases (resolve host.has_file id (parent_file parent s))) [
      | inl unknown ↦ rw (unknown, require_from) (rw (unknown, require_from) at e)
      | inr (file, found) ↦
          let opened = rw (found, require_from) at e in
          rw (found, require_from)
            (require_file-Refines host (λ i self. require_from host depth i (some self))
              (λ i self. require_from host (depth + more) i (some self))
              (λ i self t y k. require_from-add host depth more i (some self) t y k) file parent s x
              opened)
    ])

file_of-eq-some :
    (o : Option Module) {f : String} {w : Exports}
    → Option.map entry o ≡ some (f, w)
    → file_of o ≡ some f
file_of-eq-some none e = cc
file_of-eq-some (some m) e = cc

module _ (host : Host) (file id contents : String) (v : Exports) (rest : Result Exports → Script)
    (falsy : is_truthy v ≡ false) (code : ends_with file ".json" ≡ false)
    (read : host.read_file file ≡ some contents)
    (script : host.compile file contents ≡ ok (set_exports v (require id rest)))
    (itself : resolve host.has_file id (some file) ≡ some file) where
  -- The store in which the file requires itself.
  abbrev inside : Option ℕ → Store → Store
  inside parent s = assign_exports (length s.modules) v (new_module file parent s)

  entry_inside :
      (parent : Option ℕ) (s : Store)
      → entry_at (inside parent s) (length s.modules) ≡ some (file, v)
  entry_inside parent s =
      let self : ℕ = length s.modules in
      rw (
        entry_at-assign_exports self v (new_module file parent s) self,
        entry_at-new_module file parent s self,
        eqb_refl self,
      )

  uncached_inside :
      (parent : Option ℕ) (s : Store) → if_truthy (lookup file (inside parent s).cache) ≡ none
  uncached_inside parent s =
      let self : ℕ = length s.modules in
      rw
        (
          lookup-assign_exports (new_module file parent s) self v file,
          entry_at-new_module file parent s self,
          eqb_refl self,
        )
        (rw (eq_refl file) (rw falsy))

  load_module-none :
      (req : Requirer) (parent : Option ℕ) (s : Store)
      → req id (length s.modules) (inside parent s) ≡ none
      → load_module host req file parent s ≡ none
  unfolding load_module
  load_module-none req parent s h = rw (read, load) (rw script (rw (h, run_script)))

  -- Let a JavaScript file assign a falsy value to `module.exports` and then require an id that
  -- resolves to the file itself. Where the cache has no truthy value for the file, a `require` that
  -- resolves to it has no outcome at any depth: each `require` finds no truthy entry and loads the
  -- file anew.
  pub falsy_cycle :
      (depth : ℕ) (parent : Option ℕ) (s : Store)
      → if_truthy (lookup file s.cache) ≡ none
      → (first : String) → resolve host.has_file first (parent_file parent s) ≡ some file
      → require_from host depth first parent s ≡ none
  unfolding require_from
  falsy_cycle zero parent s missing first found = refl
  falsy_cycle (suc depth) parent s missing first found =
      rw (found, require_from)
        (rw (missing, require_file)
          (rw code (
            load_module-none (λ i self. require_from host depth i (some self)) parent s
              (falsy_cycle depth (some (length s.modules)) (inside parent s)
                (uncached_inside parent s) id
                (rw (file_of-eq-some _ (entry_inside parent s)) itself)))))
