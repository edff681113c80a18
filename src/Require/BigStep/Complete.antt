-- ===== src/Require/BigStep/Complete.antt =====
-- What the rules allow, by `require` at every depth from some depth up
-- (core/src/main/resources/com/sandbox/runtime/v2/js/version_3/sandbox-patch.js, `Require`).
use worker_cli.Prelude.{ℕ, zero, suc, ◌+◌, ◌≤◌, ◌<◌, String, ◌≡◌, ◌↔◌, refl, Option, some, arith}
use worker_cli.Js.{Result}
use worker_cli.Modules.{Exports, Store}
use worker_cli.Require.{Script, Host, run_script, load, load_module, require_file, require_from}
use worker_cli.Require.BigStep.{
  Requires, unknown, cached, json, unreadable, failed, loaded, Runs, ended, raised, assigned,
  required, mocked,
}
use worker_cli.Require.BigStep.Sound.{Requires-of_require_from}

-- The calls of `require` that a derivation makes; a depth above it is enough.
abbrev mutual
  cost :
      {host : Host} {id : String} {parent : Option ℕ} {s t : Store} {x : Result Exports}
      → Requires host id parent s x t
      → ℕ
  cost (failed _ _ _ _ d) = suc (run_cost d)
  cost (loaded _ _ _ _ d) = suc (run_cost d)
  cost _ = 0

  run_cost :
      {host : Host} {self : ℕ} {script : Script} {s t : Store} {r : Result (Unit {0})}
      → Runs host self script s r t
      → ℕ
  run_cost (assigned d) = run_cost d
  run_cost (required d d') = suc (cost d + run_cost d')
  run_cost (mocked d) = run_cost d
  run_cost _ = 0

mutual
  unfolding require_from require_file load_module load run_script

  require_from_of_Requires :
      {host : Host} {id : String} {parent : Option ℕ} {s t : Store} {x : Result Exports}
      (d : Requires host id parent s x t) (depth : ℕ)
      → cost d < depth
      → require_from host depth id parent s ≡ some (x, t)
  require_from_of_Requires (unknown named) (suc depth) h = rw (named, require_from)
  require_from_of_Requires (cached named found) (suc depth) h =
      rw (named, require_from) (rw (found, require_file))
  require_from_of_Requires (json named missing is_json) (suc depth) h =
      rw (named, require_from) (rw (missing, require_file) (rw is_json))
  require_from_of_Requires (unreadable named missing code compiled) (suc depth) h =
      rw (named, require_from) (rw (missing, require_file) (rw (code, compiled)))
  require_from_of_Requires (failed named missing code compiled d) (suc depth) h =
      rw (named, require_from)
        (rw (missing, require_file)
          (rw (code, compiled) (rw (run_script_of_Runs d depth (omega arith)))))
  require_from_of_Requires (loaded named missing code compiled d) (suc depth) h =
      rw (named, require_from)
        (rw (missing, require_file)
          (rw (code, compiled) (rw (run_script_of_Runs d depth (omega arith)))))
  require_from_of_Requires _ zero h = absurd (omega arith)

  run_script_of_Runs :
      {host : Host} {self : ℕ} {script : Script} {s t : Store} {r : Result (Unit {0})}
      (d : Runs host self script s r t) (depth : ℕ)
      → run_cost d < suc depth
      → run_script host (λ i p. require_from host depth i (some p)) self script s ≡ some (r, t)
  run_script_of_Runs ended depth h = refl
  run_script_of_Runs raised depth h = refl
  run_script_of_Runs (assigned d) depth h = run_script_of_Runs d depth h
  run_script_of_Runs (required d d') depth h =
      rw (require_from_of_Requires d depth (omega arith))
        (run_script_of_Runs d' depth (omega arith))
  run_script_of_Runs (mocked d) depth h = run_script_of_Runs d depth h

-- `require` ends with a result in a store by the rules exactly if, at every depth from some depth up,
-- the calls that are bounded by the depth give this result and this store.
pub Requires-iff :
    (host : Host) (id : String) (parent : Option ℕ) (s : Store) (x : Result Exports) (t : Store)
    → Requires host id parent s x t
      ↔ ((n : ℕ) × ((depth : ℕ) → n ≤ depth → require_from host depth id parent s ≡ some (x, t)))
Requires-iff host id parent s x t = (
  λ d. (suc (cost d), λ depth h. require_from_of_Requires d depth (omega arith)),
  λ (n, e). Requires-of_require_from host n id parent s x t (e n (omega arith)),
)

-- The rules allow one ending at most.
pub Requires-deterministic :
    (host : Host) (id : String) (parent : Option ℕ) (s : Store) (x y : Result Exports) (t u : Store)
    → Requires host id parent s x t
    → Requires host id parent s y u
    → (x ≡ y) × (t ≡ u)
Requires-deterministic host id parent s x y t u d d' =
    let depth = suc (cost d + cost d') in
    let p = require_from_of_Requires d depth (omega arith) in
    let q = require_from_of_Requires d' depth (omega arith) in (cc, cc)
