-- ===== src/Require/BigStep/Sound.antt =====
-- What `require` returns at some depth, by the rules
-- (core/src/main/resources/com/sandbox/runtime/v2/js/version_3/sandbox-patch.js, `Require`).
use worker_cli.Prelude.{
  ℕ, zero, suc, String, false, ◌≡◌, refl, Option, none, some, length, lookup, ends_with, Bool-cases,
  Option-cases, inl, inr,
}
use worker_cli.Js.{Result, ok, throw}
use worker_cli.Paths.{resolve}
use worker_cli.Modules.{Exports, Store, assign_exports, new_module}
use worker_cli.Require.{
  Script, done, raise, set_exports, require, call_mock, definition_of, answer, with_route, Host,
  Outcome, after, Requirer, run_script, finish, run_text, load, return_exports, load_module,
  if_truthy, require_file, parent_file, require_from,
}
use worker_cli.Require.BigStep.{
  script_of, Names, Cached, Requires, unknown, cached, json, unreadable, failed, loaded, Runs,
  ended, raised, assigned, required, mocked,
}

-- An outcome within the depth satisfies the relation.
data Gives {A : Type 0} (P : Result A → Store → Type 0) : Outcome A → Type 0 where
  gave : {r : Result A} {t : Store} → P r t → Gives P (some (r, t))
  timeout : Gives P none

Gives-after :
    {A B : Type 0} {P : Result A → Store → Type 0} {Q : Result B → Store → Type 0} {o : Outcome A}
    {next : Result A → Store → Outcome B}
    → Gives P o
    → ((r : Result A) (t : Store) → P r t → Gives Q (next r t))
    → Gives Q (after o next)
Gives-after (gave {r} {t} p) h = h r t p
Gives-after timeout h = timeout

Gives-map :
    {A : Type 0} {P Q : Result A → Store → Type 0} {o : Outcome A}
    → ((r : Result A) (t : Store) → P r t → Q r t)
    → Gives P o
    → Gives Q o
Gives-map h (gave {r} {t} p) = gave (h r t p)
Gives-map h timeout = timeout

Gives-some :
    {A : Type 0} {P : Result A → Store → Type 0} {o : Outcome A} (x : Result A) (u : Store)
    → Gives P o
    → o ≡ some (x, u)
    → P x u
Gives-some {P = P} x u (gave {r} {t} p) e =
    let same : r ≡ x = cc e in let same' : t ≡ u = cc e in rw (← same, ← same') p
Gives-some x u timeout e = cc

module _ (host : Host) (req : Requirer)
    (ih : (id : String) (self : ℕ) (s : Store)
      → Gives (Requires host id (some self) s) (req id self s)) where
  run_script-Gives :
      (self : ℕ) (script : Script) (s : Store)
      → Gives (Runs host self script s) (run_script host req self script s)
  unfolding run_script
  run_script-Gives self done s = gave ended
  run_script-Gives self (raise e) s = gave raised
  run_script-Gives self (set_exports v rest) s =
      Gives-map (λ r t p. assigned p) (run_script-Gives self rest (assign_exports self v s))
  run_script-Gives self (require id rest) s =
      Gives-after (ih id self s)
        λ x t p. Gives-map (λ r u q. required p q) (run_script-Gives self (rest x) t)
  run_script-Gives self (call_mock call rest) s =
      Gives-map (λ r t p. mocked p)
        (run_script-Gives self (rest (answer host (definition_of call)))
          (with_route (definition_of call) s))

  module _ (id file : String) (parent : Option ℕ) (s : Store)
      (named : Names host id parent s (some file)) (missing : Cached file s none)
      (code : ends_with file ".json" ≡ false) where
    finish-Gives :
        (script : Script)
        → script_of host file ≡ ok script
        → (r : Result (Unit {0})) (t : Store)
        → Runs host (length s.modules) script (new_module file parent s) r t
        → Gives
            (Requires host id parent s)
            (after (finish (length s.modules) r t) (return_exports (length s.modules)))
    finish-Gives script compiled (ok tt) t p = gave (loaded named missing code compiled p)
    finish-Gives script compiled (throw e) t p = gave (failed named missing code compiled p)

    after-after :
        (script : Script) (o : Outcome (Unit {0}))
        → script_of host file ≡ ok script
        → Gives (Runs host (length s.modules) script (new_module file parent s)) o
        → Gives
            (Requires host id parent s)
            (after (after o (finish (length s.modules))) (return_exports (length s.modules)))
    after-after script (some (r, t)) compiled g =
        finish-Gives script compiled r t (Gives-some r t g refl)
    after-after script none compiled g = timeout

    run_text-Gives :
        (c : Result Script)
        → script_of host file ≡ c
        → Gives (Requires host id parent s) (
            after
              (run_text host req (length s.modules) c (new_module file parent s))
              (return_exports (length s.modules)))
    run_text-Gives (throw e) compiled = gave (unreadable named missing code compiled)
    run_text-Gives (ok script) compiled =
        after-after script _ compiled
          (run_script-Gives (length s.modules) script (new_module file parent s))

  require_file-Gives :
      (id file : String) (parent : Option ℕ) (s : Store)
      → Names host id parent s (some file)
      → Gives (Requires host id parent s) (require_file host req file parent s)
  unfolding require_file load_module load
  require_file-Gives id file parent s named =
      elim (Option-cases (if_truthy (lookup file s.cache))) [
        | inr (v, found) ↦ rw (found, require_file) (gave (cached named found))
        | inl missing ↦
            rw (missing, require_file)
              (elim (Bool-cases (ends_with file ".json")) [
                | inl is_json ↦ rw is_json (gave (json named missing is_json))
                | inr code ↦ rw code (run_text-Gives id file parent s named missing code _ refl)
              ])
      ]

require_from-Gives :
    (host : Host) (depth : ℕ) (id : String) (parent : Option ℕ) (s : Store)
    → Gives (Requires host id parent s) (require_from host depth id parent s)
unfolding require_from
require_from-Gives host zero id parent s = timeout
require_from-Gives host (suc depth) id parent s =
    elim (Option-cases (resolve host.has_file id (parent_file parent s))) [
      | inl not_there ↦ rw (not_there, require_from) (gave (unknown not_there))
      | inr (file, found) ↦
          rw (found, require_from)
            (require_file-Gives host (λ i self. require_from host depth i (some self))
              (λ i self t. require_from-Gives host depth i (some self) t) id file parent s found)
    ]

pub Requires-of_require_from :
    (host : Host) (depth : ℕ) (id : String) (parent : Option ℕ) (s : Store) (x : Result Exports)
    (t : Store)
    → require_from host depth id parent s ≡ some (x, t)
    → Requires host id parent s x t
Requires-of_require_from host depth id parent s x t e =
    Gives-some x t (require_from-Gives host depth id parent s) e
