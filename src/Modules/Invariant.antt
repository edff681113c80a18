-- ===== src/Modules/Invariant.antt =====
-- Well-formed stores of the modules of
-- core/src/main/resources/com/sandbox/runtime/v2/js/version_3/sandbox-patch.js: what the cache and
-- the modules are to agree on, and how a store may grow.
use mathlib.Core.Option
use worker_cli.Prelude.{
  map-modify, ℕ, String, true, ◌≡◌, refl, Option, none, some, List, [], ◌∷◌, ◌++◌, length,
  get_elem?, get_elem?-concat, get_elem?-modify, lookup, eqb, Bool-cases, Option-cases, inl, inr,
  if◌then◌else◌,
}
use worker_cli.Modules.{
  Exports, reference, is_truthy, Module, Store, initial, with_exports, assign_exports, with_child,
  adopt, fresh_module, new_module, as_loaded, mark_loaded,
}

-- What the cache is to agree with: the file of a module and its exports.
abbrev pub entry : Module → String × Exports
entry m = (m.filename, m.exports)

abbrev pub entry_at : Store → ℕ → Option (String × Exports)
entry_at s i = Option.map entry (get_elem? s.modules i)

pub record IsCoherent (s : Store) : Type 0 where
  pub truthful : (f : String) (v : Exports) → lookup f s.cache ≡ some v → is_truthy v ≡ true
  pub cached :
      (i : ℕ) (f : String) (v : Exports) → entry_at s i ≡ some (f, v) → lookup f s.cache ≡ some v
  pub unique :
      (i j : ℕ) (f : String) (v w : Exports)
      → entry_at s i ≡ some (f, v)
      → entry_at s j ≡ some (f, w)
      → i ≡ j

-- A step leaves every cached file cached, and every module in place under its file's name.
pub record Extends (s t : Store) : Type 0 where
  pub kept :
      (f : String) (v : Exports)
      → lookup f s.cache ≡ some v
      → (w : Exports) × (lookup f t.cache ≡ some w)
  pub named :
      (i : ℕ) (f : String) (v : Exports)
      → entry_at s i ≡ some (f, v)
      → (w : Exports) × (entry_at t i ≡ some (f, w))

pub Extends-refl : (s : Store) → Extends s s
Extends-refl s = record { kept = λ f v h. (v, h); named = λ i f v h. (v, h) }

pub Extends-trans : {s t u : Store} → Extends s t → Extends t u → Extends s u
Extends-trans a b = record {
  kept = λ f v h. let (w, k) = a.kept f v h in b.kept f w k;
  named = λ i f v h. let (w, k) = a.named i f v h in b.named i f w k;
}

pub initial-IsCoherent : IsCoherent initial
initial-IsCoherent = record {
  truthful = λ f v h. unfold lookup in cc (h);
  cached = λ i f v h. cc;
  unique = λ i j f v w h k. cc;
}

entry-adopt :
    (p : Option ℕ) (c : ℕ) (ms : List Module) (j : ℕ)
    → Option.map entry (get_elem? (adopt p c ms) j) ≡ Option.map entry (get_elem? ms j)
entry-adopt none c ms j = refl
entry-adopt (some p) c ms j = map-modify entry (with_child c) ms p j (λ m. refl)

pub entry_at-mark_loaded :
    (self : ℕ) (s : Store) (i : ℕ) → entry_at (mark_loaded self s) i ≡ entry_at s i
entry_at-mark_loaded self s i = map-modify entry as_loaded s.modules self i (λ m. refl)

pub entry_at-new_module :
    (file : String) (parent : Option ℕ) (s : Store) (i : ℕ)
    → entry_at (new_module file parent s) i
      ≡ (if eqb (length s.modules) i then some (file, reference s.objects) else entry_at s i)
unfolding new_module
entry_at-new_module file parent s i =
    rw
      (
        entry-adopt parent (length s.modules) (s.modules ++ fresh_module file parent s.objects ∷ [])
            i,
        get_elem?-concat s.modules (fresh_module file parent s.objects) i,
      )
      (elim (Bool-cases (eqb (length s.modules) i)) [ inl same ↦ rw same | inr other ↦ rw other ])

abbrev pub renewed : Exports → Option (String × Exports) → Option (String × Exports)
renewed v none = none
renewed v (some (f, w)) = some (f, v)

pub entry_at-assign_exports :
    (self : ℕ) (v : Exports) (s : Store) (i : ℕ)
    → entry_at (assign_exports self v s) i
      ≡ (if eqb self i then renewed v (entry_at s i) else entry_at s i)
unfolding assign_exports
entry_at-assign_exports self v s i =
    rw (get_elem?-modify s.modules self i (with_exports v)) (elim (Bool-cases (eqb self i)) [
      | inl same ↦ rw same (elim (Option-cases (get_elem? s.modules i)) [
        | inl missing ↦ rw missing
        | inr (m, found) ↦ rw found
      ])
      | inr other ↦ rw other
    ])
