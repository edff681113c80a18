-- ===== src/Polyfills.antt =====
-- What sandbox-patch.js adds to the prototypes of the language:
-- `Array.prototype.isLength` in every version
-- (core/src/main/resources/com/sandbox/runtime/v2/js/version_3/sandbox-patch.js), and `endsWith` and
-- `startsWith` of strings in the first two (…/version_2/sandbox-patch.js). A string is walked as the
-- list of its characters.
pub mod Laws
pub mod Extensions
use worker_cli.Prelude.{
  ℕ, zero, suc, ◌*◌, ◌^◌, ◌%◌, ◌+◌, ◌-◌, Bool, true, false, Option, none, some, List, [], ◌∷◌, ◌&&◌,
  eqb, leb, length, if◌then◌else◌,
}
use worker_cli.Js.{Value, Number, number, finite}

abbrev pub max_safe_integer : ℕ
max_safe_integer = 9007199254740991

-- `value > -1` at ± n / 2 ^ k
abbrev pub above_minus_one : Bool → ℕ → ℕ → Bool
above_minus_one true n k = leb (suc n) (2 ^ k)
above_minus_one false n k = true

-- `value <= 9007199254740991`
abbrev pub at_most_max : Bool → ℕ → ℕ → Bool
at_most_max true n k = true
at_most_max false n k = leb n (max_safe_integer * 2 ^ k)

-- `Array.prototype.isLength`. NaN and the infinities fail `value % 1 == 0`.
unfoldable pub is_length : Value → Bool
is_length (number (finite negative n k)) =
    above_minus_one negative n k && (eqb (n % 2 ^ k) 0 && at_most_max negative n k)
is_length value = false

module _ {ℓ} {A : Type ℓ} where
  -- `xs.slice(0, n)`
  unfoldable pub take : ℕ → List A → List A
  take zero xs = []
  take (suc n) [] = []
  take (suc n) (x ∷ xs) = x ∷ take n xs

  -- `xs.slice(n)`
  unfoldable pub drop : ℕ → List A → List A
  drop zero xs = xs
  drop (suc n) [] = []
  drop (suc n) (x ∷ xs) = drop n xs

module _ {ℓ} {A : Type ℓ} (eq : A → A → Bool) where
  -- `==` of strings
  unfoldable pub same : List A → List A → Bool
  same [] [] = true
  same (x ∷ xs) (y ∷ ys) = eq x y && same xs ys
  same _ _ = false

  -- `startsWith` where the engine has none: `this.slice(0, str.length) == str`
  unfoldable pub starts_with : List A → List A → Bool
  unfolding same take
  starts_with this str = same (take (length str) this) str

  -- `xs.indexOf(suffix) !== -1`: an occurrence begins somewhere
  unfoldable pub occurs : List A → List A → Bool
  unfolding starts_with
  occurs [] suffix = starts_with [] suffix
  occurs (x ∷ xs) suffix =
      let later = occurs xs suffix in if starts_with (x ∷ xs) suffix then true else later

  -- `endsWith` where the engine has none. `indexOf` from a position is `indexOf` of what follows it,
  -- and a negative position counts as 0, as the truncated difference does.
  unfoldable pub ends_with : List A → List A → Bool
  unfolding drop occurs
  ends_with this [] = false
  ends_with this (x ∷ suffix) = occurs (drop (length this - length (x ∷ suffix)) this) (x ∷ suffix)
