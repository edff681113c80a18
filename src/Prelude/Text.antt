-- ===== src/Prelude/Text.antt =====
-- What the scripts use of JavaScript's strings: `split`, `join`, `startsWith` and `endsWith`.
use mathlib.Core.Logic.{◌≢◌}
use mathlib.Core.Path.{◌≡◌, refl}
use Prim.Native.Nat.{ℕ}
use Prim.Native.Char.{Char, code}
use Prim.Native.String
use Prim.Native.String.{String, [], ◌∷◌}
use mathlib.Core.Bool.{Bool, true, false, ◌&&◌, ◌||◌}
use mathlib.Core.List.{List, [], ◌∷◌}
use text.Mathlib.Text.{◌==◌}
use worker_cli.Prelude.Basics.{eqb, if◌then◌else◌}

-- `s + t`
infixl 65 ◌⧺◌
abbrev pub ◌⧺◌ : String → String → String
s ⧺ t = String.◌++◌ s t

-- A character in front of the first piece.
abbrev pub onto_first : Char → List String → List String
onto_first c [] = (c ∷ []) ∷ []
onto_first c (p ∷ ps) = (c ∷ p) ∷ ps

-- `s.length > 0`, which is also the truth of a string.
abbrev pub nonempty : String → Bool
nonempty [] = false
nonempty (c ∷ s) = true

-- `s.split(sep)`, at a separator of one character that is given by its code.
unfoldable pub split : ℕ → String → List String
split sep [] = "" ∷ []
split sep (c ∷ s) =
    let rest = split sep s in if eqb (code c) sep then "" ∷ rest else onto_first c rest

-- `parts.join(sep)`
unfoldable pub join : String → List String → String
join sep [] = ""
join sep (p ∷ []) = p
join sep (p ∷ q ∷ ps) = p ⧺ (sep ⧺ join sep (q ∷ ps))

-- `s.startsWith(t)`
unfoldable pub starts_with : String → String → Bool
starts_with s [] = true
starts_with [] (d ∷ t) = false
starts_with (c ∷ s) (d ∷ t) = eqb (code c) (code d) && starts_with s t

-- `s.endsWith(t)`
unfoldable pub ends_with : String → String → Bool
ends_with [] t = "" == t
ends_with (c ∷ s) t = (c ∷ s) == t || ends_with s t

pub nonempty-distinct : (s : String) → s ≢ "" → nonempty s ≡ true
nonempty-distinct [] h = absurd (h refl)
nonempty-distinct (c ∷ s) h = refl
