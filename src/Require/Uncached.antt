-- ===== src/Require/Uncached.antt =====
-- The files that `require` has not loaded yet, and repositories in which they are finitely many
-- (core/src/main/resources/com/sandbox/runtime/v2/js/version_3/sandbox-patch.js, `Require.cache`).
use worker_cli.Prelude.{
  ℕ, String, Bool, true, false, ◌≡◌, Option, none, some, List, [], ◌∷◌, ◌+◌, ◌≤◌, ◌<◌, arith,
  lookup, ◌==◌, eq_iff, ◌||◌, Bool-cases, Option-cases, inl, inr,
}
use worker_cli.Js.{Result, ok}
use worker_cli.Modules.{Exports, is_truthy, Store}
use worker_cli.Modules.Invariant.{Extends}
use worker_cli.Require.{Script, done, raise, set_exports, require, call_mock, Host}

-- Every value that the script assigns to `module.exports` is truthy.
abbrev pub ExportsTruthy : Script → Type 0
ExportsTruthy done = Unit
ExportsTruthy (raise e) = Unit
ExportsTruthy (set_exports v rest) = (is_truthy v ≡ true) × ExportsTruthy rest
ExportsTruthy (require id rest) = (r : Result Exports) → ExportsTruthy (rest r)
ExportsTruthy (call_mock call rest) = (r : Result (Unit {0})) → ExportsTruthy (rest r)

abbrev pub occurs : String → List String → Bool
occurs f [] = false
occurs f (g ∷ gs) = g == f || occurs f gs

-- What the termination of `require` rests on: the repository has finitely many files, and no file
-- exports a falsy value.
pub record IsSound (host : Host) (files : List String) : Type 0 where
  pub listed : (f : String) → host.has_file f ≡ true → occurs f files ≡ true
  pub truthy_scripts :
      (name contents : String) (script : Script)
      → host.compile name contents ≡ ok script
      → ExportsTruthy script

abbrev missing_count : Option Exports → ℕ
missing_count none = 1
missing_count (some _) = 0

-- The files that are not in the cache yet.
abbrev pub uncached : List String → Store → ℕ
uncached [] s = 0
uncached (f ∷ fs) s = missing_count (lookup f s.cache) + uncached fs s

missing_count-le_one : (o : Option Exports) → missing_count o ≤ 1
missing_count-le_one none = omega arith
missing_count-le_one (some v) = omega arith

missing_count-le :
    {s t : Store}
    → Extends s t
    → (f : String) → missing_count (lookup f t.cache) ≤ missing_count (lookup f s.cache)
missing_count-le {s} {t} x f = elim (Option-cases (lookup f s.cache)) [
  | inl none_yet ↦ rw none_yet (missing_count-le_one (lookup f t.cache))
  | inr (v, found) ↦ let (w, still) = x.kept f v found in rw (found, still) (omega arith)
]

pub uncached-le : {s t : Store} → Extends s t → (fs : List String) → uncached fs t ≤ uncached fs s
uncached-le x [] = omega arith
uncached-le x (f ∷ fs) = omega (arith, missing_count-le x f, uncached-le x fs)

-- A file that comes into the cache leaves fewer to load.
pub uncached-lt :
    {s t : Store}
    → Extends s t
    → (f : String) (v : Exports) → lookup f s.cache ≡ none
    → lookup f t.cache ≡ some v
    → (fs : List String) → occurs f fs ≡ true
    → uncached fs t < uncached fs s
uncached-lt x f v before now [] h = cc
uncached-lt {s} {t} x f v before now (g ∷ fs) h = elim (Bool-cases (g == f)) [
  | inl same ↦
      let first : missing_count (lookup g t.cache) < missing_count (lookup g s.cache) =
        rw ((eq_iff g f).0 same) (rw (before, now) (omega arith)) in
      omega (arith, uncached-le x fs)
  | inr other ↦ omega (arith, missing_count-le x g, uncached-lt x f v before now fs (rw other at h))
]
