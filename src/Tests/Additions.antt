-- ===== src/Tests/Additions.antt =====
-- The functions that the prototypes get, at short strings and at a number
-- (core/src/main/resources/com/sandbox/runtime/v2/js/version_2/sandbox-patch.js).
use worker_cli.Prelude.{
  ℕ, true, false, ◌≡◌, ◌↔◌, List, [], ◌∷◌, ◌++◌, ◌*◌, ◌^◌, ◌≤◌, eqb, eqb_iff, length,
}
use worker_cli.Js.{number, finite}
use worker_cli.Polyfills.{max_safe_integer, is_length, ends_with}
use worker_cli.Polyfills.Laws.{ends_with_iff, is_length_iff}

abbrev name : List ℕ
name = b'a' ∷ b'.' ∷ b'j' ∷ b's' ∷ []

abbrev extension : List ℕ
extension = b'.' ∷ b'j' ∷ b's' ∷ []

ends_with_iff_example :
    (ends_with eqb name extension ≡ true)
    ↔ ((front : List ℕ) × (name ≡ front ++ extension) × (1 ≤ length extension))
ends_with_iff_example = ends_with_iff eqb eqb_iff name extension

-- 28 / 2 ^ 2 is seven.
is_length_iff_example :
    (is_length (number (finite false 28 2)) ≡ true)
    ↔ ((m : ℕ) × (28 ≡ m * 2 ^ 2) × (m ≤ max_safe_integer) × (false ≡ true → m ≡ 0))
is_length_iff_example = is_length_iff false 28 2
