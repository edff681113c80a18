-- ===== src/Polyfills/Laws.antt =====
-- The functions that sandbox-patch.js adds to the prototypes
-- (core/src/main/resources/com/sandbox/runtime/v2/js/version_3/sandbox-patch.js and
-- version_2/sandbox-patch.js).
use worker_cli.Prelude.{
  ℕ, zero, suc, ◌+◌, ◌-◌, ◌*◌, ◌^◌, ◌%◌, ◌/◌, ◌≤◌, ◌<◌, Bool, true, false, ◌≡◌, ◌↔◌, refl, sym, ap,
  ◌∙◌, List, [], ◌∷◌, ◌++◌, length, arith, append-nil, false≢true, Bool-cases, inl, inr, ◌&&◌, eqb,
  leb,
}
use native.Mathlib.Nat.{
  le_of_mul-le-mul_right, mul-le-mul_right, mod-eq_of_lt, mul-mod_left, one-le-pow,
}
use worker_cli.Js.{number, finite}
use worker_cli.Polyfills.{
  max_safe_integer, is_length, take, drop, same, starts_with, occurs, ends_with,
}

length-append {ℓ} : {A : Type ℓ} (xs ys : List A) → length (xs ++ ys) ≡ length xs + length ys
length-append [] ys = omega arith
length-append (x ∷ xs) ys = omega (arith, length-append xs ys)

nil_of_length {ℓ} : {A : Type ℓ} (xs : List A) → length xs ≤ 0 → xs ≡ []
nil_of_length [] h = refl
nil_of_length (x ∷ xs) h = absurd (omega arith)

module _ {ℓ} {A : Type ℓ} (eq : A → A → Bool)
    (decides : (x y : A) → (eq x y ≡ true) ↔ (x ≡ y)) where
  same-eq : (xs ys : List A) → same eq xs ys ≡ true → xs ≡ ys
  unfolding same
  same-eq [] [] h = refl
  same-eq [] (y ∷ ys) h = cc
  same-eq (x ∷ xs) [] h = cc
  same-eq (x ∷ xs) (y ∷ ys) h = elim (Bool-cases (eq x y)) [
    | inl e ↦ let tails = same-eq xs ys (rw e at h) in cc (tails, (decides x y).0 e)
    | inr n ↦ cc (rw n at h)
  ]

  same_refl : (xs : List A) → same eq xs xs ≡ true
  unfolding same
  same_refl [] = refl
  same_refl (x ∷ xs) = rw ((decides x x).1 refl, same_refl xs)

  -- For a test that decides equality of characters, the `startsWith` that is added holds exactly of
  -- the prefixes.
  starts_with_iff :
      (this str : List A)
      → (starts_with eq this str ≡ true) ↔ ((rest : List A) × (this ≡ str ++ rest))
  unfolding starts_with take same
  starts_with_iff this [] = (λ h. (this, refl), λ h. refl)
  starts_with_iff [] (y ∷ str) = (λ h. cc, λ (rest, h). cc)
  starts_with_iff (x ∷ this) (y ∷ str) = (
    λ h. elim (Bool-cases (eq x y)) [
      | inl e ↦
          let (rest, tails) = (starts_with_iff this str).0 (rw e at h) in
          (rest, cc (tails, (decides x y).0 e))
      | inr n ↦ cc (rw n at h)
    ],
    λ (rest, h).
        let heads : x ≡ y = cc h in
        let tails : this ≡ str ++ rest = cc h in
        rw ((decides x y).1 heads) ((starts_with_iff this str).1 (rest, tails)),
  )

  occurs-length : (xs suffix : List A) → occurs eq xs suffix ≡ true → length suffix ≤ length xs
  unfolding occurs
  occurs-length [] suffix h =
      let (rest, e) = (starts_with_iff [] suffix).0 h in
      omega (arith, ap length e, length-append suffix rest)
  occurs-length (x ∷ xs) suffix h = elim (Bool-cases (starts_with eq (x ∷ xs) suffix)) [
    | inl here ↦
        let (rest, e) = (starts_with_iff (x ∷ xs) suffix).0 here in
        omega (arith, ap length e, length-append suffix rest)
    | inr later ↦ omega (arith, occurs-length xs suffix (rw later at h))
  ]

  prefix-eq :
      (xs suffix : List A)
      → starts_with eq xs suffix ≡ true
      → length xs ≤ length suffix
      → xs ≡ suffix
  prefix-eq xs suffix h short =
      let (rest, e) = (starts_with_iff xs suffix).0 h in
      let none_left : length rest ≤ 0 = omega (arith, ap length e, length-append suffix rest) in
      e ∙ ap (λ ys. suffix ++ ys) (nil_of_length rest none_left) ∙ append-nil suffix

  occurs-eq :
      (xs suffix : List A) → occurs eq xs suffix ≡ true → length xs ≤ length suffix → xs ≡ suffix
  unfolding occurs
  occurs-eq [] suffix h short = prefix-eq [] suffix h short
  occurs-eq (x ∷ xs) suffix h short = elim (Bool-cases (starts_with eq (x ∷ xs) suffix)) [
    | inl here ↦ prefix-eq (x ∷ xs) suffix here short
    | inr later ↦ absurd (omega (arith, occurs-length xs suffix (rw later at h)))
  ]

  occurs_refl : (x : A) (xs : List A) → occurs eq (x ∷ xs) (x ∷ xs) ≡ true
  unfolding occurs
  occurs_refl x xs = rw ((starts_with_iff (x ∷ xs) (x ∷ xs)).1 ([], sym (append-nil (x ∷ xs))))

  take-drop : (n : ℕ) (xs : List A) → take n xs ++ drop n xs ≡ xs
  unfolding take drop
  take-drop zero xs = refl
  take-drop (suc n) [] = refl
  take-drop (suc n) (x ∷ xs) = ap (λ ys. x ∷ ys) (take-drop n xs)

  length-drop : (n : ℕ) (xs : List A) → length (drop n xs) ≡ length xs - n
  unfolding drop
  length-drop zero xs = omega arith
  length-drop (suc n) [] = omega arith
  length-drop (suc n) (x ∷ xs) = omega (arith, length-drop n xs)

  drop-append : (front ys : List A) → drop (length front) (front ++ ys) ≡ ys
  unfolding drop
  drop-append [] ys = refl
  drop-append (x ∷ front) ys = drop-append front ys

  -- For a test that decides equality of characters, the `endsWith` that is added holds exactly of the
  -- suffixes that are not empty.
  pub ends_with_iff :
      (this suffix : List A)
      → (ends_with eq this suffix ≡ true)
        ↔ ((front : List A) × (this ≡ front ++ suffix) × (1 ≤ length suffix))
  unfolding ends_with
  ends_with_iff this [] = (λ h. cc, λ (front, e, h). absurd (omega arith))
  ends_with_iff this (x ∷ suffix) =
      let n : ℕ = length this - length (x ∷ suffix) in
      (
        λ h.
            let long = occurs-length (drop n this) (x ∷ suffix) h in
            let same_end =
              occurs-eq (drop n this) (x ∷ suffix) h (omega (arith, length-drop n this)) in
            (
              take n this,
              sym (take-drop n this) ∙ ap (λ ys. take n this ++ ys) same_end,
              omega arith,
            ),
        λ (front, e, _).
            let begins : n ≡ length front =
              omega (arith, ap length e, length-append front (x ∷ suffix)) in
            rw (begins, e, drop-append front (x ∷ suffix)) (occurs_refl x suffix),
      )

leb_iff : (a b : ℕ) → (leb a b ≡ true) ↔ (a ≤ b)
leb_iff a b = ground arith

-- The three tests, for the denominator `p`.
whole_iff :
    (n p bound : ℕ)
    → 0 < p
    → (eqb (n % p) 0 && leb n (bound * p) ≡ true) ↔ ((m : ℕ) × (n ≡ m * p) × (m ≤ bound))
whole_iff n p bound pos = (
  λ h.
      let rest : n % p ≡ 0 = ground arith in
      let small : n ≤ bound * p = ground arith in
      let exact : n ≡ (n / p) * p = omega arith in
      (n / p, exact, le_of_mul-le-mul_right {k = p} (rw (← exact) small) pos),
  λ (m, e, small).
      let rest : n % p ≡ 0 = rw e (mul-mod_left m p) in
      let below : n ≤ bound * p = rw e (mul-le-mul_right p small) in ground arith,
)

zero_iff : (n p : ℕ) → 0 < p → (leb (suc n) p && (eqb (n % p) 0 && true) ≡ true) ↔ (n ≡ 0)
zero_iff n p pos = (
  λ h.
      let below : n < p = ground arith in
      let rest : n % p ≡ 0 = ground arith in sym (mod-eq_of_lt below) ∙ rest,
  λ e.
      let rest : n % p ≡ 0 = rw e (mod-eq_of_lt pos) in
      let below : suc n ≤ p = omega arith in ground arith,
)

-- Of the finite numbers `isLength` holds exactly of the natural numbers up to 2 ^ 53 - 1, zero with
-- either sign included.
pub is_length_iff :
    (negative : Bool) (n k : ℕ)
    → (is_length (number (finite negative n k)) ≡ true)
      ↔ ((m : ℕ) × (n ≡ m * 2 ^ k) × (m ≤ max_safe_integer) × (negative ≡ true → m ≡ 0))
unfolding is_length
is_length_iff true n k =
    let (to_zero, of_zero) = zero_iff n (2 ^ k) (one-le-pow k 2 (omega arith)) in
    (
      λ h. (0, omega (arith, to_zero h), omega arith, λ t. refl),
      λ (m, e, _, zero_only). of_zero (omega (arith, rw (zero_only refl) at e)),
    )
is_length_iff false n k =
    let (to_whole, of_whole) =
      whole_iff n (2 ^ k) max_safe_integer (one-le-pow k 2 (omega arith)) in
    (
      λ h. let (m, e, small) = to_whole h in (m, e, small, λ t. absurd (false≢true t)),
      λ (m, e, small, _). of_whole (m, e, small),
    )
