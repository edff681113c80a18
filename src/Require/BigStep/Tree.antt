-- ===== src/Require/BigStep/Tree.antt =====
-- The parents and the children of the modules
-- (core/src/main/resources/com/sandbox/runtime/v2/js/version_3/sandbox-patch.js, `Module`).
use worker_cli.Prelude.{
  refl, ℕ, ◌<◌, true, ◌≡◌, ap, ◌∙◌, sym, Option, some, List, [], length, String, eqb, eqb_iff,
  eqb_refl, arith, Bool-cases, Option-cases, inl, inr,
}
use worker_cli.Js.{Result}
use worker_cli.Modules.{Exports, Store, initial, assign_exports, new_module, add_route, mark_loaded}
use worker_cli.Require.{Host}
use worker_cli.Require.BigStep.{Requires}
use worker_cli.Require.BigStep.Keeps.{HasParent, Keeps, Requires-keeps}
use worker_cli.Require.BigStep.Family.{
  parent_at, children_at, has, parent_at-mark_loaded, children_at-mark_loaded,
  parent_at-assign_exports, children_at-assign_exports, parent_at-new_module,
  children_at-new_module, last_child, not_new_of_children, not_new_of_parent, grown-has, has-grown,
  grown-none,
}

-- A module was made after its parent, which has it among its children; and a module is the parent
-- of each of its children.
pub record IsTree (s : Store) : Type 0 where
  pub adopted :
      (i p : ℕ)
      → parent_at s i ≡ some (some p)
      → (p < i) × ((cs : List ℕ) × (children_at s p ≡ some cs) × (has cs i ≡ true))
  pub owned :
      (i c : ℕ) (cs : List ℕ)
      → children_at s i ≡ some cs
      → has cs c ≡ true
      → parent_at s c ≡ some (some i)

module _ (file : String) (parent : Option ℕ) (s : Store) (h : HasParent parent s)
    (t : IsTree s) where
  adopted_new :
      (i p : ℕ)
      → parent_at (new_module file parent s) i ≡ some (some p)
      → (p < i)
        × ((cs : List ℕ) × (children_at (new_module file parent s) p ≡ some cs) × (has cs i ≡ true))
  adopted_new i p e = elim (Bool-cases (eqb (length s.modules) i)) [
    | inl same ↦
        let made : parent ≡ some p = cc (rw (parent_at-new_module file parent s i, same) at e) in
        let before : p < length s.modules = rw made at h in
        let at_end : length s.modules ≡ i = (eqb_iff (length s.modules) i).0 same in
        (rw (← at_end) before, rw (← at_end) (rw made (last_child file p s before)))
    | inr other ↦
        let old = rw (parent_at-new_module file parent s i, other) at e in
        let (earlier, (cs, found, mine)) = t.adopted i p old in
        let (l, grown_to, still) = grown-has parent (length s.modules) p i cs mine in
        (
          earlier,
          (
            l,
            children_at-new_module file parent s p
                ∙ rw (not_new_of_children s p cs found, found) grown_to,
            still,
          ),
        )
  ]

  owned_new :
      (i c : ℕ) (l : List ℕ)
      → children_at (new_module file parent s) i ≡ some l
      → has l c ≡ true
      → parent_at (new_module file parent s) c ≡ some (some i)
  owned_new i c l e mine = elim (Bool-cases (eqb (length s.modules) i)) [
    | inl same ↦
        let fresh = rw (children_at-new_module file parent s i, same) at e in
        elim (has-grown parent (length s.modules) i c [] l fresh mine) [
          | inl none_yet ↦ cc none_yet
          | inr (made, at_end) ↦
              let before : i < length s.modules = rw made at h in
              absurd (omega (arith, (eqb_iff (length s.modules) i).0 same))
        ]
    | inr other ↦
        let old = rw (children_at-new_module file parent s i, other) at e in
        elim (Option-cases (children_at s i)) [
          | inl gone ↦ cc (rw gone at old, grown-none parent (length s.modules) i)
          | inr (cs, found) ↦
              elim (has-grown parent (length s.modules) i c cs l (rw found at old) mine) [
                | inl before ↦
                    let up = t.owned i c cs found before in
                    parent_at-new_module file parent s c ∙ rw (not_new_of_parent s c (some i) up) up
                | inr (made, at_end) ↦
                    parent_at-new_module file parent s c
                    ∙ rw (at_end, eqb_refl (length s.modules)) (ap some made)
              ]
        ]
  ]

  new_module-IsTree : IsTree (new_module file parent s)
  new_module-IsTree = record { adopted = adopted_new; owned = owned_new }

-- A store in which parents and children read the same is a tree too.
same-IsTree :
    (s t : Store)
    → ((i : ℕ) → parent_at t i ≡ parent_at s i)
    → ((i : ℕ) → children_at t i ≡ children_at s i)
    → IsTree s
    → IsTree t
same-IsTree s t ps cs h = record {
  adopted = λ i p e.
      let (earlier, (l, found, mine)) = h.adopted i p (sym (ps i) ∙ e) in
      (earlier, (l, cs p ∙ found, mine));
  owned = λ i c l e mine. ps c ∙ h.owned i c l (sym (cs i) ∙ e) mine;
}

IsTree-Keeps : Keeps IsTree
IsTree-Keeps = record {
  new = λ file parent s code h t. new_module-IsTree file parent s h t;
  assign = λ self v s h t.
      same-IsTree s (assign_exports self v s) (λ i. parent_at-assign_exports s self i v)
        (λ i. children_at-assign_exports s self i v) t;
  route = λ call d s same t. same-IsTree s (add_route d s) (λ i. refl) (λ i. refl) t;
  mark = λ self s t.
      same-IsTree s (mark_loaded self s) (λ i. parent_at-mark_loaded s self i)
        (λ i. children_at-mark_loaded s self i) t;
}

-- A `require` at the top or in a module that the store has, in whatever way it ends, keeps the
-- modules a tree: a module is made after its parent, which has it among its children, and is the
-- parent of each of its children.
pub Requires-IsTree :
    (host : Host) (id : String) (parent : Option ℕ) (s : Store) (x : Result Exports) (t : Store)
    → Requires host id parent s x t
    → HasParent parent s
    → IsTree s
    → IsTree t
Requires-IsTree host id parent s x t d h tree = Requires-keeps IsTree-Keeps d h tree

pub initial-IsTree : IsTree initial
initial-IsTree = record { adopted = λ i p e. cc; owned = λ i c l e mine. cc }
