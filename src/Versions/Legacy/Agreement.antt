-- ===== src/Versions/Legacy/Agreement.antt =====
-- The values that the older validator and the one of version_3 test
-- (core/src/main/resources/com/sandbox/runtime/v2/js/version_3/sandbox-validator.js and
-- version_2/sandbox-validator.js, `checkParam`).
use worker_cli.Prelude.{false, ◌≡◌, refl, ap, ◌∙◌, List, [], ◌∷◌}
use worker_cli.Js.{
  Value, undefined, null, boolean, number, string, array, object, function, is_nullish, Engine,
  Result, ok, throw, ◌>>=◌,
}
use worker_cli.Validator.Params.{Getter, or_empty, step, walk, param_value}
use worker_cli.Versions.Legacy.{legacy_step, legacy_walk, legacy_value}

-- Every part of the path but the last leads to a value.
abbrev pub IsPresent : Engine → Getter → Value → List Value → Type 0
IsPresent e getter value [] = Unit
IsPresent e getter value (part ∷ []) = Unit
IsPresent e getter value (part ∷ next ∷ parts) =
    (v : Value) × (legacy_step e getter value part ≡ ok v)
    × (is_nullish v ≡ false)
    × IsPresent e getter v (next ∷ parts)

-- The value that version_3 tests in the place of one that the older versions test
abbrev pub empty_for_nullish : Value → Value
empty_for_nullish undefined = string ""
empty_for_nullish null = string ""
empty_for_nullish v = v

or_empty-eq : (v : Value) → or_empty v ≡ empty_for_nullish v
or_empty-eq undefined = refl
or_empty-eq null = refl
or_empty-eq (boolean b) = refl
or_empty-eq (number n) = refl
or_empty-eq (string s) = refl
or_empty-eq (array vs) = refl
or_empty-eq (object fs) = refl
or_empty-eq (function n) = refl

abbrev defaulted : Result Value → Result Value
defaulted r = do value ← r; ok (or_empty value)

defaulted-eq : (r : Result Value) → defaulted r ≡ (r >>= λ v. ok (empty_for_nullish v))
defaulted-eq (throw err) = refl
defaulted-eq (ok v) = ap ok (or_empty-eq v)

last_step : (r : Result Value) → (defaulted r >>= λ v. ok v) ≡ defaulted (r >>= λ v. ok v)
last_step (ok v) = refl
last_step (throw err) = refl

walk-legacy_walk :
    (e : Engine) (getter : Getter) (value part : Value) (parts : List Value)
    → IsPresent e getter value (part ∷ parts)
    → walk e getter value (part ∷ parts) ≡ defaulted (legacy_walk e getter value (part ∷ parts))
unfolding walk legacy_walk step legacy_step
walk-legacy_walk e getter value part [] h = last_step (legacy_step e getter value part)
walk-legacy_walk e getter value part (next ∷ parts) (v, found, present, h) =
    rw (found, present, walk-legacy_walk e getter v next parts h)

-- Along a path of which every part but the last leads to a value, version_3 tests what the older
-- versions test, with the empty string for undefined and null.
pub param_value-legacy_value :
    (e : Engine) (getter : Getter) (part : Value) (parts : List Value)
    → IsPresent e getter undefined (part ∷ parts)
    → param_value e getter (part ∷ parts)
      ≡ (legacy_value e getter (part ∷ parts) >>= λ value. ok (empty_for_nullish value))
unfolding param_value legacy_value
param_value-legacy_value e getter part parts h =
    walk-legacy_walk e getter undefined part parts h
    ∙ defaulted-eq (legacy_walk e getter undefined (part ∷ parts))
