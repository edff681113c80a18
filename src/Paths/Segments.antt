-- ===== src/Paths/Segments.antt =====
-- Splitting a path at its slashes and joining it again, as `resolveAsFile` and `findRoot` do
-- (core/src/main/resources/com/sandbox/runtime/v2/js/version_3/sandbox-patch.js).
use Prim.Native.String.{[], ◌∷◌}
use text.Mathlib.TextLemmas.{nil-append, cons-append}
use worker_cli.Prelude.{
  ℕ, String, Char, code, false, ◌≡◌, refl, ap, List, [], ◌∷◌, ◌++◌, arith, eqb, ◌⧺◌, All, split,
  join, onto_first, Bool-cases, inl, inr, sym, Char-path, eqb_iff,
}

-- The text has no character with the code `sep`.
abbrev pub Avoids : ℕ → String → Type 0
Avoids sep [] = Unit
Avoids sep (c ∷ s) = (eqb (code c) sep ≡ false) × Avoids sep s

pub Avoids-append : (sep : ℕ) (s t : String) → Avoids sep s → Avoids sep t → Avoids sep (s ⧺ t)
Avoids-append sep [] t h k = rw nil-append k
Avoids-append sep (c ∷ s) t (p, h) k = rw cons-append (p, Avoids-append sep s t h k)

Avoids-onto_first :
    (sep : ℕ) (c : Char) (ps : List String)
    → eqb (code c) sep ≡ false
    → All (Avoids sep) ps
    → All (Avoids sep) (onto_first c ps)
Avoids-onto_first sep c [] h k = ((h, tt), tt)
Avoids-onto_first sep c (p ∷ ps) h (k, ks) = ((h, k), ks)

pub split-Avoids : (sep : ℕ) (s : String) → All (Avoids sep) (split sep s)
unfolding split
split-Avoids sep [] = (tt, tt)
split-Avoids sep (c ∷ s) = elim (Bool-cases (eqb (code c) sep)) [
  | inl same ↦ rw same (tt, split-Avoids sep s)
  | inr other ↦ rw other (Avoids-onto_first sep c (split sep s) other (split-Avoids sep s))
]

-- A text with no separator is one piece.
split_of_Avoids : (sep : ℕ) (s : String) → Avoids sep s → split sep s ≡ s ∷ []
unfolding split
split_of_Avoids sep [] h = refl
split_of_Avoids sep (c ∷ s) (p, h) = rw (p, split_of_Avoids sep s h)

split_is_cons : (sep : ℕ) (s : String) → (p : String) × (ps : List String) × (split sep s ≡ p ∷ ps)
unfolding split
split_is_cons sep [] = ("", [], refl)
split_is_cons sep (c ∷ s) = elim (Bool-cases (eqb (code c) sep)) [
  | inl same ↦ ("", split sep s, rw same)
  | inr other ↦ let (p, ps, e) = split_is_cons sep s in (c ∷ p, ps, rw (other, e))
]

-- The pieces of a text that a separator divides.
pub split-append :
    (c : Char) (s t : String)
    → split (code c) (s ⧺ ((c ∷ []) ⧺ t)) ≡ split (code c) s ++ split (code c) t
unfolding split
split-append c [] t = rw (nil-append, cons-append, nil-append) (ground arith)
split-append c (d ∷ s) t = rw cons-append (elim (Bool-cases (eqb (code d) (code c))) [
  | inl same ↦ rw (same, split-append c s t)
  | inr other ↦ let (p, ps, e) = split_is_cons (code c) s in rw (other, split-append c s t, e)
])

-- Splitting undoes joining, where no part holds the separator.
pub split-join :
    (c : Char) (p : String) (ps : List String)
    → All (Avoids (code c)) (p ∷ ps)
    → split (code c) (join (c ∷ []) (p ∷ ps)) ≡ p ∷ ps
unfolding join
split-join c p [] (h, _) = split_of_Avoids (code c) p h
split-join c p (q ∷ ps) (h, hs) =
    rw (
      split-append c p (join (c ∷ []) (q ∷ ps)),
      split_of_Avoids (code c) p h,
      split-join c q ps hs,
    )

join-onto_first :
    (sep : String) (c : Char) (p : String) (ps : List String)
    → join sep (onto_first c (p ∷ ps)) ≡ c ∷ join sep (p ∷ ps)
unfolding join
join-onto_first sep c p [] = refl
join-onto_first sep c p (q ∷ ps) = rw cons-append

join-closed :
    (c : Char) (p : String) (ps : List String)
    → join (c ∷ []) ("" ∷ p ∷ ps) ≡ c ∷ join (c ∷ []) (p ∷ ps)
unfolding join
join-closed c p ps = rw (nil-append, cons-append, nil-append)

-- Joining undoes splitting.
pub join-split : (c : Char) (s : String) → join (c ∷ []) (split (code c) s) ≡ s
unfolding split
join-split c [] = unfold join in refl
join-split c (d ∷ s) =
    let (p, ps, e) = split_is_cons (code c) s in
    let ih : join (c ∷ []) (p ∷ ps) ≡ s = rw (← e) (join-split c s) in
    elim (Bool-cases (eqb (code d) (code c))) [
      | inl same ↦
          rw (same, e, join-closed c p ps, ih)
            (ap (λ k. k ∷ s) (sym (Char-path d c ((eqb_iff (code d) (code c)).0 same))))
      | inr other ↦ rw (other, e, join-onto_first (c ∷ []) d p ps, ih)
    ]
