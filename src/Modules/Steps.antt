-- ===== src/Modules/Steps.antt =====
-- The constructor `Module`, the setter of `exports` and the end of `Module._load`
-- (core/src/main/resources/com/sandbox/runtime/v2/js/version_3/sandbox-patch.js), against the
-- well-formedness of the store.
use worker_cli.Prelude.{
  ℕ, String, Bool, true, false, ◌≡◌, ap, Option, none, some, arith, length, get_elem?,
  get_elem?-length, lookup, lookup-insert, eqb, eqb_iff, ◌==◌, eq_iff, eq_refl, Bool-cases,
  Option-cases, inl, inr, if◌then◌else◌,
}
use worker_cli.Modules.{
  Exports, reference, is_truthy, Store, assign_exports, new_module, mark_loaded,
}
use worker_cli.Modules.Invariant.{
  entry_at, renewed, IsCoherent, Extends, entry_at-mark_loaded, entry_at-new_module,
  entry_at-assign_exports,
}

module _ (s : Store) (c : IsCoherent s) where
  pub mark_loaded-IsCoherent : (self : ℕ) → IsCoherent (mark_loaded self s)
  mark_loaded-IsCoherent self = record {
    truthful = c.truthful;
    cached = λ i f v h. c.cached i f v (rw (entry_at-mark_loaded self s i) at h);
    unique = λ i j f v w h k.
        c.unique i j f v w (rw (entry_at-mark_loaded self s i) at h)
          (rw (entry_at-mark_loaded self s j) at k);
  }

  pub mark_loaded-Extends : (self : ℕ) → Extends s (mark_loaded self s)
  mark_loaded-Extends self = record {
    kept = λ f v h. (v, h);
    named = λ i f v h. (v, rw (entry_at-mark_loaded self s i) h);
  }

  past_end : (i : ℕ) → eqb (length s.modules) i ≡ true → entry_at s i ≡ none
  past_end i h = rw (← (eqb_iff (length s.modules) i).0 h) (rw (get_elem?-length s.modules))

  module _ (file : String) (parent : Option ℕ) (missing : lookup file s.cache ≡ none) where
    pub lookup-new_module :
        (f : String)
        → lookup f (new_module file parent s).cache
          ≡ (if file == f then some (reference s.objects) else lookup f s.cache)
    unfolding new_module
    lookup-new_module f = lookup-insert file f (reference s.objects) s.cache

    pub new_module-IsCoherent : IsCoherent (new_module file parent s)
    new_module-IsCoherent = record {
      truthful = λ f v h. ground (arith, lookup-new_module f, c.truthful f v);
      cached = λ i f v h. ground (
        arith,
        lookup-new_module f,
        entry_at-new_module file parent s i,
        c.cached i f v,
        eq_iff file f,
      );
      unique = λ i j f v w h k. ground (
        arith,
        entry_at-new_module file parent s i,
        entry_at-new_module file parent s j,
        c.unique i j f v w,
        c.cached i f v,
        c.cached j f w,
      );
    }

    pub new_module-Extends : Extends s (new_module file parent s)
    new_module-Extends = record {
      kept = λ f v h.
          (if file == f then reference s.objects else v, ground (arith, lookup-new_module f));
      named = λ i f v h. (
        if eqb (length s.modules) i then reference s.objects else v,
        ground (arith, entry_at-new_module file parent s i, past_end i),
      );
    }

renewed-eq-some :
    (v : Exports) (o : Option (String × Exports)) (f : String) (w : Exports)
    → renewed v o ≡ some (f, w)
    → (x : Exports) × (o ≡ some (f, x)) × (v ≡ w)
renewed-eq-some v none f w h = cc
renewed-eq-some v (some (g, x)) f w h = (x, cc, cc)

-- The cache after an assignment to the exports of a module that is, or is not, in the store.
abbrev pub target : Option (String × Exports) → String → Bool
target none f = false
target (some (g, w)) f = g == f

module _ (s : Store) (self : ℕ) (v : Exports) where
  pub lookup-assign_exports :
      (f : String)
      → lookup f (assign_exports self v s).cache
        ≡ (if target (entry_at s self) f then some v else lookup f s.cache)
  unfolding assign_exports
  lookup-assign_exports f = elim (Option-cases (get_elem? s.modules self)) [
    | inl missing ↦ rw missing
    | inr (m, found) ↦ rw found (lookup-insert m.filename f v s.cache)
  ]

  pub entry_before :
      (i : ℕ) (f : String) (w : Exports)
      → entry_at (assign_exports self v s) i ≡ some (f, w)
      → (x : Exports) × (entry_at s i ≡ some (f, x)) × ((if eqb self i then v else x) ≡ w)
  entry_before i f w h = elim (Bool-cases (eqb self i)) [
    | inl same ↦
        let (x, e, p) =
          renewed-eq-some v (entry_at s i) f w
            (rw (entry_at-assign_exports self v s i, same) at h) in
        (x, e, rw same p)
    | inr other ↦ (w, rw (entry_at-assign_exports self v s i, other) at h, rw other)
  ]

  module _ (c : IsCoherent s) where
    not_target :
        (i : ℕ) (f : String) (x : Exports)
        → entry_at s i ≡ some (f, x)
        → eqb self i ≡ false
        → target (entry_at s self) f ≡ false
    not_target i f x e other = elim (Option-cases (entry_at s self)) [
      | inl missing ↦ rw missing
      | inr ((g, y), found) ↦
          rw found (ground (arith, eq_iff g f, c.unique self i f y x, eqb_iff self i))
    ]

    pub assign_exports-Extends : Extends s (assign_exports self v s)
    assign_exports-Extends = record {
      kept = λ f w h.
          (if target (entry_at s self) f then v else w, ground (arith, lookup-assign_exports f));
      named = λ i f w h.
          (if eqb self i then v else w, ground (arith, entry_at-assign_exports self v s i));
    }

    module _ (t : is_truthy v ≡ true) where
      pub assign_exports-IsCoherent : IsCoherent (assign_exports self v s)
      assign_exports-IsCoherent = record {
        truthful = λ f w h. ground (arith, lookup-assign_exports f, c.truthful f w);
        cached = λ i f w h.
            let (x, e, p) = entry_before i f w h in
            elim (Bool-cases (eqb self i)) [
              | inl same ↦
                  let at_self : entry_at s self ≡ some (f, x) = rw ((eqb_iff self i).0 same) e in
                  rw (lookup-assign_exports f, at_self) (rw (eq_refl f) (ap some (rw same at p)))
              | inr other ↦
                  rw (lookup-assign_exports f, not_target i f x e other)
                    (c.cached i f w (rw (← (rw other at p)) e))
            ];
        unique = λ i j f w x h k.
            let (y, e, _) = entry_before i f w h in
            let (z, d, _) = entry_before j f x k in c.unique i j f y z e d;
      }
