-- ===== src/Polyfills/Extensions.antt =====
-- What sandbox-patch.js adds to the prototypes of strings and arrays, where the engine lacks it
-- (core/src/main/resources/com/sandbox/runtime/v2/js/version_3/sandbox-patch.js, and version_1 and
-- version_2 beside it). A prototype is the list of its functions by name; one of the engine's is a
-- number.
use worker_cli.Prelude.{
  ℕ, String, ◌≡◌, refl, ap, ◌∙◌, Option, none, some, Dict, lookup, insert, lookup-insert, ◌==◌,
  if◌then◌else◌, Option-cases, inl, inr, Bool-cases, eq_iff,
}

pub data Member : Type 0 where
  engine : ℕ → Member
  added_is_length added_starts_with added_ends_with : Member

pub record Prototypes : Type 0 where
  pub strings : Dict Member
  pub arrays : Dict Member

-- `prototype[name] = f`; where `f` is undefined the name goes on to read as undefined
abbrev pub put_member : String → Option Member → Dict Member → Dict Member
put_member name none prototype = prototype
put_member name (some f) prototype = insert name f prototype

-- `if (typeof prototype[name] != 'function') prototype[name] = f`
unfoldable pub define_missing : String → Option Member → Dict Member → Dict Member
unfolding lookup insert
define_missing name f prototype = elim (lookup name prototype) [
  | some g ↦ prototype
  | none ↦ put_member name f prototype
]

-- `contains`, an alias of the engine's `includes`
unfoldable pub define_contains : Dict Member → Dict Member
unfolding define_missing
define_contains strings = define_missing "contains" (lookup "includes" strings) strings

unfoldable pub define_is_length : Dict Member → Dict Member
unfolding define_missing
define_is_length arrays = define_missing "isLength" (some added_is_length) arrays

unfoldable pub define_starts_with : Dict Member → Dict Member
unfolding define_missing
define_starts_with strings = define_missing "startsWith" (some added_starts_with) strings

unfoldable pub define_ends_with : Dict Member → Dict Member
unfolding define_missing
define_ends_with strings = define_missing "endsWith" (some added_ends_with) strings

-- The end of the script of version_3.
unfoldable pub extend_3 : Prototypes → Prototypes
unfolding define_contains define_is_length
extend_3 p = record { strings = define_contains p.strings; arrays = define_is_length p.arrays }

-- The end of the script of version_2.
unfoldable pub extend_2 : Prototypes → Prototypes
unfolding define_contains define_is_length define_starts_with define_ends_with
extend_2 p = record {
  strings = define_contains (define_starts_with (define_ends_with p.strings));
  arrays = define_is_length p.arrays;
}

-- The end of the script of version_1.
abbrev pub extend_1 : Prototypes → Prototypes
extend_1 = extend_2

-- What is there, or else what is added.
abbrev pub or_added : Option Member → Option Member → Option Member
or_added (some g) f = some g
or_added none f = f

or_added-none : (o : Option Member) → or_added o none ≡ o
or_added-none none = refl
or_added-none (some g) = refl

lookup-put_member :
    (name : String) (f : Option Member) (prototype : Dict Member) (k : String)
    → lookup name prototype ≡ none
    → lookup k (put_member name f prototype)
      ≡ or_added (lookup k prototype) (if name == k then f else none)
lookup-put_member name none prototype k missing = elim (Bool-cases (name == k)) [
  | inl same ↦ rw (same, or_added-none (lookup k prototype))
  | inr other ↦ rw (other, or_added-none (lookup k prototype))
]
lookup-put_member name (some f) prototype k missing =
    lookup-insert name k f prototype ∙ elim (Bool-cases (name == k)) [
      | inl same ↦ rw (same, rw ((eq_iff name k).0 same) at missing)
      | inr other ↦ rw (other, or_added-none (lookup k prototype))
    ]

-- What is there stays, and what is missing is added.
pub lookup-define_missing :
    (name : String) (f : Option Member) (prototype : Dict Member) (k : String)
    → lookup k (define_missing name f prototype)
      ≡ or_added (lookup k prototype) (if name == k then f else none)
unfolding define_missing
lookup-define_missing name f prototype k = elim (Option-cases (lookup name prototype)) [
  | inl missing ↦ rw (missing, define_missing) (lookup-put_member name f prototype k missing)
  | inr (g, there) ↦
      rw (there, define_missing)
        (elim (Bool-cases (name == k)) [
          | inl same ↦ rw (same, rw ((eq_iff name k).0 same) at there)
          | inr other ↦ rw (other, or_added-none (lookup k prototype))
        ])
]

-- What the script adds to the strings under the name, for an engine whose `includes` is given.
abbrev pub added : Option Member → String → Option Member
added includes k =
    if "endsWith" == k
    then some added_ends_with
    else if "startsWith" == k
    then some added_starts_with
    else if "contains" == k
    then includes
    else none

abbrev both_added : Dict Member → Dict Member
both_added strings = define_starts_with (define_ends_with strings)

lookup-both_added :
    (strings : Dict Member) (k : String)
    → lookup k (both_added strings)
      ≡ or_added
          (or_added (lookup k strings) (if "endsWith" == k then some added_ends_with else none))
          (if "startsWith" == k then some added_starts_with else none)
unfolding define_starts_with define_ends_with
lookup-both_added strings k =
    lookup-define_missing "startsWith" (some added_starts_with) (define_ends_with strings) k
    ∙ ap (λ o. or_added o (if "startsWith" == k then some added_starts_with else none))
        (lookup-define_missing "endsWith" (some added_ends_with) strings k)

includes-both_added :
    (strings : Dict Member) → lookup "includes" (both_added strings) ≡ lookup "includes" strings
includes-both_added strings =
    lookup-both_added strings "includes" ∙ or_added-none _ ∙ or_added-none _

-- The functions of the engine stay, the others are added, and `contains` is the engine's `includes`.
pub lookup-extend_2 :
    (p : Prototypes) (k : String)
    → lookup k (extend_2 p).strings
      ≡ or_added (lookup k p.strings) (added (lookup "includes" p.strings) k)
unfolding extend_2 define_contains
lookup-extend_2 p k =
    lookup-define_missing "contains" (lookup "includes" (both_added p.strings))
      (both_added p.strings) k
    ∙ rw (includes-both_added p.strings, lookup-both_added p.strings k)
        (elim (Option-cases (lookup k p.strings)) [
          | inr (g, there) ↦ rw there
          | inl missing ↦ rw missing (elim (Bool-cases ("endsWith" == k)) [
            | inl ends ↦ rw ends
            | inr not_ends ↦ rw not_ends (elim (Bool-cases ("startsWith" == k)) [
              | inl starts ↦ rw starts
              | inr not_starts ↦ rw not_starts
            ])
          ])
        ])
