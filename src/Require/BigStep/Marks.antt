-- ===== src/Require/BigStep/Marks.antt =====
-- The modules that a `require` makes, and whether they are loaded when it ends
-- (core/src/main/resources/com/sandbox/runtime/v2/js/version_3/sandbox-patch.js, `Require`,
-- `loadModule`, `Module._load`).
use mathlib.Core.Option
use mathlib.Core.List.{map-append}
use worker_cli.Prelude.{
  ℕ, zero, suc, String, Bool, true, false, ◌≡◌, refl, sym, ap, ◌∙◌, Option, none, some, List, [],
  ◌∷◌, ◌++◌, map, length, get_elem?, modify, Option-cases, inl, inr,
}
use worker_cli.Js.{Result, ok, throw}
use worker_cli.Routes.{Definition}
use worker_cli.Modules.{
  Exports, Module, Store, with_exports, as_loaded, with_child, assign_exports, adopt, fresh_module,
  new_module, mark_loaded, file_of,
}
use worker_cli.Require.{with_route, parent_file}

-- A module's file, and whether it is loaded
abbrev pub mark : Module → String × Bool
mark m = (m.filename, m.loaded)

abbrev pub marks : Store → List (String × Bool)
marks s = map mark s.modules

abbrev pub as_done : String → String × Bool
as_done file = (file, true)

module _ {ℓ κ} {A : Type ℓ} {B : Type κ} (g : A → B) where
  length-map : (xs : List A) → length (map g xs) ≡ length xs
  length-map [] = refl
  length-map (x ∷ xs) = ap suc (length-map xs)

  -- A change of an element that `g` does not see, or that it sees as `h`
  map-modify_as :
      (f : A → A) (h : B → B)
      → ((x : A) → g (f x) ≡ h (g x))
      → (xs : List A) (i : ℕ) → map g (modify xs i f) ≡ modify (map g xs) i h
  map-modify_as f h same [] i = refl
  map-modify_as f h same (x ∷ xs) zero = ap (λ y. y ∷ map g xs) (same x)
  map-modify_as f h same (x ∷ xs) (suc i) = ap (λ ys. g x ∷ ys) (map-modify_as f h same xs i)

module _ {ℓ} {A : Type ℓ} where
  modify-same : (xs : List A) (i : ℕ) → modify xs i (λ x. x) ≡ xs
  modify-same [] i = refl
  modify-same (x ∷ xs) zero = refl
  modify-same (x ∷ xs) (suc i) = ap (λ ys. x ∷ ys) (modify-same xs i)

  modify-middle :
      (xs ys : List A) (x : A) (f : A → A) → modify (xs ++ x ∷ ys) (length xs) f ≡ xs ++ f x ∷ ys
  modify-middle [] ys x f = refl
  modify-middle (y ∷ xs) ys x f = ap (λ zs. y ∷ zs) (modify-middle xs ys x f)

  get_elem?-middle : (xs ys : List A) (x : A) → get_elem? (xs ++ x ∷ ys) (length xs) ≡ some x
  get_elem?-middle [] ys x = refl
  get_elem?-middle (y ∷ xs) ys x = get_elem?-middle xs ys x

  get_elem?-append :
      (xs ys : List A) (i : ℕ) (x : A) → get_elem? xs i ≡ some x → get_elem? (xs ++ ys) i ≡ some x
  get_elem?-append [] ys i x h = cc
  get_elem?-append (y ∷ xs) ys zero x h = h
  get_elem?-append (y ∷ xs) ys (suc i) x h = get_elem?-append xs ys i x h

length-marks : (s : Store) → length (marks s) ≡ length s.modules
length-marks s = length-map mark s.modules

marks-modify :
    (f : Module → Module) (ms : List Module) (i : ℕ)
    → ((m : Module) → mark (f m) ≡ mark m)
    → map mark (modify ms i f) ≡ map mark ms
marks-modify f ms i same = map-modify_as mark f (λ x. x) same ms i ∙ modify-same (map mark ms) i

pub marks-assign_exports :
    (self : ℕ) (v : Exports) (s : Store) → marks (assign_exports self v s) ≡ marks s
unfolding assign_exports
marks-assign_exports self v s = marks-modify (with_exports v) s.modules self (λ m. refl)

marks-adopt :
    (parent : Option ℕ) (child : ℕ) (ms : List Module)
    → map mark (adopt parent child ms) ≡ map mark ms
marks-adopt none child ms = refl
marks-adopt (some p) child ms = marks-modify (with_child child) ms p (λ m. refl)

pub marks-new_module :
    (file : String) (parent : Option ℕ) (s : Store)
    → marks (new_module file parent s) ≡ marks s ++ (file, false) ∷ []
unfolding new_module
marks-new_module file parent s =
    marks-adopt parent (length s.modules) (s.modules ++ fresh_module file parent s.objects ∷ [])
    ∙ map-append mark s.modules (fresh_module file parent s.objects ∷ [])

-- The module behind the first ones becomes loaded.
pub marks-mark_loaded :
    (s t : Store) (file : String) (loaded : Bool) (rest : List (String × Bool))
    → marks t ≡ marks s ++ (file, loaded) ∷ rest
    → marks (mark_loaded (length s.modules) t) ≡ marks s ++ (file, true) ∷ rest
marks-mark_loaded s t file loaded rest h =
    map-modify_as mark as_loaded (λ x. (x.0, true)) (λ m. refl) t.modules (length s.modules)
    ∙ rw (h, ← length-marks s) (modify-middle (marks s) rest (file, loaded) (λ x. (x.0, true)))

pub marks-with_route : (d : Result Definition) (s : Store) → marks (with_route d s) ≡ marks s
marks-with_route (throw e) s = refl
marks-with_route (ok d) s = refl

file_of-marks :
    (ms : List Module) (i : ℕ)
    → file_of (get_elem? ms i) ≡ Option.map (λ x. x.0) (get_elem? (map mark ms) i)
file_of-marks [] i = refl
file_of-marks (m ∷ ms) zero = refl
file_of-marks (m ∷ ms) (suc i) = file_of-marks ms i

-- Code finds its own file, at its start and after what only adds modules.
pub parent_file-new_module :
    (file : String) (parent : Option ℕ) (s : Store)
    → parent_file (some (length s.modules)) (new_module file parent s) ≡ some file
parent_file-new_module file parent s =
    let s' = new_module file parent s in
    file_of-marks s'.modules (length s.modules)
    ∙ rw (marks-new_module file parent s, ← length-marks s)
        (ap (Option.map (λ x. x.0)) (get_elem?-middle (marks s) [] (file, false)))

pub parent_file-grown :
    (s t : Store) (i : ℕ) (file : String) (ms : List (String × Bool))
    → marks t ≡ marks s ++ ms
    → parent_file (some i) s ≡ some file
    → parent_file (some i) t ≡ some file
parent_file-grown s t i file ms grown h =
    let mine : Option.map (λ x. x.0) (get_elem? (marks s) i) ≡ some file =
      sym (file_of-marks s.modules i) ∙ h in
    elim (Option-cases (get_elem? (marks s) i)) [
      | inl gone ↦ cc (rw gone at mine)
      | inr (x, found) ↦
          file_of-marks t.modules i
          ∙ rw (grown, get_elem?-append (marks s) ms i x found) (rw found at mine)
    ]
