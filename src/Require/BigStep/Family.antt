-- ===== src/Require/BigStep/Family.antt =====
-- The parents and the children of the modules, read after each step
-- (core/src/main/resources/com/sandbox/runtime/v2/js/version_3/sandbox-patch.js, `Module`).
use mathlib.Core.Option
use worker_cli.Prelude.{
  ℕ, ◌<◌, Bool, true, false, ◌≡◌, refl, ap, ◌∙◌, sym, Option, none, some, List, [], ◌∷◌, ◌++◌, ◌||◌,
  length, get_elem?, get_elem?-concat, get_elem?-modify, get_elem?-length, get_elem?-lt, map-modify,
  String, eqb, eqb_iff, eqb_refl, arith, Bool-cases, Option-cases, inl, inr, ◌⊎◌, if◌then◌else◌,
}
use worker_cli.Modules.{
  Exports, Module, Store, with_exports, as_loaded, with_child, assign_exports, adopt, fresh_module,
  new_module, mark_loaded,
}

abbrev pub parent_at : Store → ℕ → Option (Option ℕ)
parent_at s i = Option.map (λ m. m.parent) (get_elem? s.modules i)

abbrev pub children_at : Store → ℕ → Option (List ℕ)
children_at s i = Option.map (λ m. m.children) (get_elem? s.modules i)

abbrev pub has : List ℕ → ℕ → Bool
has [] c = false
has (x ∷ xs) c = eqb x c || has xs c

pub has-append : (xs : List ℕ) (y c : ℕ) → has (xs ++ y ∷ []) c ≡ (has xs c || eqb y c)
has-append [] y c = ground arith
has-append (x ∷ xs) y c = ground (arith, has-append xs y c)

-- The parent and the children, which the steps but the constructor leave alone.
module _ (s : Store) (self : ℕ) (i : ℕ) where
  pub parent_at-mark_loaded : parent_at (mark_loaded self s) i ≡ parent_at s i
  parent_at-mark_loaded = map-modify (λ m. m.parent) as_loaded s.modules self i (λ m. refl)

  pub children_at-mark_loaded : children_at (mark_loaded self s) i ≡ children_at s i
  children_at-mark_loaded = map-modify (λ m. m.children) as_loaded s.modules self i (λ m. refl)

  pub parent_at-assign_exports :
      (v : Exports) → parent_at (assign_exports self v s) i ≡ parent_at s i
  unfolding assign_exports
  parent_at-assign_exports v =
      map-modify (λ m. m.parent) (with_exports v) s.modules self i (λ m. refl)

  pub children_at-assign_exports :
      (v : Exports) → children_at (assign_exports self v s) i ≡ children_at s i
  unfolding assign_exports
  children_at-assign_exports v =
      map-modify (λ m. m.children) (with_exports v) s.modules self i (λ m. refl)

pub parent-adopt :
    (q : Option ℕ) (c : ℕ) (ms : List Module) (i : ℕ)
    → Option.map (λ m. m.parent) (get_elem? (adopt q c ms) i)
      ≡ Option.map (λ m. m.parent) (get_elem? ms i)
parent-adopt none c ms i = refl
parent-adopt (some p) c ms i = map-modify (λ m. m.parent) (with_child c) ms p i (λ m. refl)

-- The children of a module after `parent.children.push(child)`.
abbrev pub grown : Option ℕ → ℕ → ℕ → Option (List ℕ) → Option (List ℕ)
grown none c i cs = cs
grown (some p) c i cs = if eqb p i then Option.map (λ l. l ++ c ∷ []) cs else cs

pub children-adopt :
    (q : Option ℕ) (c : ℕ) (ms : List Module) (i : ℕ)
    → Option.map (λ m. m.children) (get_elem? (adopt q c ms) i)
      ≡ grown q c i (Option.map (λ m. m.children) (get_elem? ms i))
children-adopt none c ms i = refl
children-adopt (some p) c ms i =
    rw (get_elem?-modify ms p i (with_child c)) (elim (Bool-cases (eqb p i)) [
      | inl same ↦ rw same (elim (Option-cases (get_elem? ms i)) [
        | inl missing ↦ rw missing
        | inr (m, found) ↦ rw found
      ])
      | inr other ↦ rw other
    ])

module _ (file : String) (parent : Option ℕ) (s : Store) (i : ℕ) where
  pub parent_at-new_module :
      parent_at (new_module file parent s) i
      ≡ (if eqb (length s.modules) i then some parent else parent_at s i)
  unfolding new_module
  parent_at-new_module =
      parent-adopt parent (length s.modules) (s.modules ++ fresh_module file parent s.objects ∷ [])
        i
      ∙ rw (get_elem?-concat s.modules (fresh_module file parent s.objects) i)
          (elim (Bool-cases (eqb (length s.modules) i)) [
            | inl same ↦ rw same
            | inr other ↦ rw other
          ])

  pub children_at-new_module :
      children_at (new_module file parent s) i
      ≡ grown parent
          (length s.modules)
          i
          (if eqb (length s.modules) i then some [] else children_at s i)
  unfolding new_module
  children_at-new_module =
      children-adopt parent (length s.modules)
        (s.modules ++ fresh_module file parent s.objects ∷ []) i
      ∙ ap (grown parent (length s.modules) i) (
          rw (get_elem?-concat s.modules (fresh_module file parent s.objects) i)
            (elim (Bool-cases (eqb (length s.modules) i)) [
              | inl same ↦ rw same
              | inr other ↦ rw other
            ]))

-- There is no module behind the last one.
pub parent_at-length : (s : Store) → parent_at s (length s.modules) ≡ none
parent_at-length s = rw (get_elem?-length s.modules)

pub children_at-length : (s : Store) → children_at s (length s.modules) ≡ none
children_at-length s = rw (get_elem?-length s.modules)

pub children_at-lt :
    (s : Store) (p : ℕ) → p < length s.modules → (cs : List ℕ) × (children_at s p ≡ some cs)
children_at-lt s p h = let (m, found) = get_elem?-lt s.modules p h in (m.children, rw found)

-- The child is the last one of the parent's.
pub last_child :
    (file : String) (p : ℕ) (s : Store)
    → p < length s.modules
    → (cs : List ℕ) × (children_at (new_module file (some p) s) p ≡ some cs)
      × (has cs (length s.modules) ≡ true)
last_child file p s h =
    let (cs, found) = children_at-lt s p h in
    let earlier : eqb (length s.modules) p ≡ false = ground arith in
    (
      cs ++ length s.modules ∷ [],
      children_at-new_module file (some p) s p ∙ rw (eqb_refl p, earlier, found) refl,
      rw (has-append cs (length s.modules) (length s.modules), eqb_refl (length s.modules))
          (ground arith),
    )

-- A module that the store has is not the new one.
pub not_new_of_children :
    (s : Store) (i : ℕ) (cs : List ℕ) → children_at s i ≡ some cs → eqb (length s.modules) i ≡ false
not_new_of_children s i cs found = elim (Bool-cases (eqb (length s.modules) i)) [
  | inr other ↦ other
  | inl same ↦
      let at_end : length s.modules ≡ i = (eqb_iff (length s.modules) i).0 same in
      cc (found, rw at_end at (children_at-length s))
]

pub not_new_of_parent :
    (s : Store) (i : ℕ) (q : Option ℕ) → parent_at s i ≡ some q → eqb (length s.modules) i ≡ false
not_new_of_parent s i q found = elim (Bool-cases (eqb (length s.modules) i)) [
  | inr other ↦ other
  | inl same ↦
      let at_end : length s.modules ≡ i = (eqb_iff (length s.modules) i).0 same in
      cc (found, rw at_end at (parent_at-length s))
]

pub grown-has :
    (q : Option ℕ) (n i c : ℕ) (cs : List ℕ)
    → has cs c ≡ true
    → (l : List ℕ) × (grown q n i (some cs) ≡ some l) × (has l c ≡ true)
grown-has none n i c cs h = (cs, refl, h)
grown-has (some p) n i c cs h = elim (Bool-cases (eqb p i)) [
  | inl same ↦ (cs ++ n ∷ [], rw same, rw (has-append cs n c, h))
  | inr other ↦ (cs, rw other, h)
]

pub has-grown :
    (q : Option ℕ) (n i c : ℕ) (cs l : List ℕ)
    → grown q n i (some cs) ≡ some l
    → has l c ≡ true
    → (has cs c ≡ true) ⊎ ((q ≡ some i) × (c ≡ n))
has-grown none n i c cs l e h = let same : cs ≡ l = cc e in inl (rw same h)
has-grown (some p) n i c cs l e h = elim (Bool-cases (eqb p i)) [
  | inr other ↦ let same : cs ≡ l = cc (rw other at e) in inl (rw same h)
  | inl here ↦
      let same : cs ++ n ∷ [] ≡ l = cc (rw here at e) in
      let two = rw (← same, has-append cs n c) at h in
      elim (Bool-cases (has cs c)) [
        | inl old ↦ inl old
        | inr new ↦ inr (ap some ((eqb_iff p i).0 here), sym ((eqb_iff n c).0 (rw new at two)))
      ]
]

pub grown-none : (q : Option ℕ) (n i : ℕ) → grown q n i none ≡ none
grown-none none n i = refl
grown-none (some p) n i = elim (Bool-cases (eqb p i)) [ inl same ↦ rw same | inr other ↦ rw other ]
