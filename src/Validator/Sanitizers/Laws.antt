-- ===== src/Validator/Sanitizers/Laws.antt =====
-- Which methods `filter` offers, and where what they compute is written
-- (core/src/main/resources/com/sandbox/runtime/v2/js/version_3/sandbox-validator.js, `sanitize` and
-- `updateParam`).
use worker_cli.Prelude.{
  eq-false, String, Bool, true, false, not, ◌≡◌, ◌≢◌, ◌⊎◌, inl, inr, refl, ap, Option, none, some,
  [], ◌∷◌, Dict, lookup, insert, lookup-insert, ◌==◌, ◌&&◌, arith, Bool-cases, Option-cases,
  if◌then◌else◌,
}
use worker_cli.Js.{
  Value, undefined, boolean, object, Fields, fields, from_dict, is_undefined, Engine, member, ok,
}
use worker_cli.Validator.{Request, Library, Options, contains, is_sanitizer}
use worker_cli.Validator.Checks.{library, find_method}
use worker_cli.Validator.Sanitizers.{
  has_own_property, defines, owns, holds, assign_params, assign_query, assign_body, update_param,
}

-- The places that `updateParam` writes to.
pub data Place : Type 0 where
  in_params in_query in_body : Place

abbrev pub at_place : Request → Place → Value
at_place req in_params = req.params
at_place req in_query = req.query
at_place req in_body = req.body

abbrev pub own_field : Value → String → Option Value
own_field (object fs) k = lookup k (fields fs)
own_field _ k = none

abbrev pub is_defined : Option Value → Bool
is_defined none = false
is_defined (some v) = not (is_undefined v)

abbrev first_of_three : Bool → Bool → Bool → Option Place
first_of_three true q b = some in_params
first_of_three false true b = some in_query
first_of_three false false true = some in_body
first_of_three false false false = none

-- The first of the route's parameters, the query and the body that has the name.
abbrev pub place_of : Request → String → Option Place
place_of req name =
    first_of_three (is_defined (own_field req.params name)) (is_defined (own_field req.query name))
      (is_defined (own_field req.body name))

abbrev pub is_place : Option Place → Place → Bool
is_place (some in_params) in_params = true
is_place (some in_query) in_query = true
is_place (some in_body) in_body = true
is_place _ _ = false

abbrev pub returned : Option Place → Value → Value
returned none value = boolean false
returned (some place) value = value

-- A request whose three places are objects.
abbrev pub with_objects : Fields → Fields → Fields → Request → Request
with_objects ps qs bs base = record base { params = object ps; query = object qs; body = object bs }

if_not : (b : Bool) → (if b then false else true) ≡ not b
if_not true = refl
if_not false = refl

fields-from_dict : (d : Dict Value) → fields (from_dict d) ≡ d
fields-from_dict [] = refl
fields-from_dict ((k, v) ∷ d) = rw (fields-from_dict d)

-- An object after the assignment of one field.
abbrev assigned : String → Value → Fields → Value
assigned name value fs = object (from_dict (insert name value (fields fs)))

own_field-assigned :
    (name : String) (value : Value) (fs : Fields) (k : String)
    → own_field (assigned name value fs) k
      ≡ (if name == k then some value else own_field (object fs) k)
own_field-assigned name value fs k =
    rw (fields-from_dict (insert name value (fields fs))) (lookup-insert name k value (fields fs))

-- What `updateParam` is to return, and what it is to leave.
abbrev pub Written : Engine → String → Value → Request → Option Place → Request → Type 0
Written e name value before place after =
    (update_param e name value before ≡ ok (returned place value, after))
    × ((p : Place) (k : String)
        → own_field (at_place after p) k
          ≡ (if is_place place p && name == k then some value else own_field (at_place before p) k))
    × (after.headers ≡ before.headers)
    × (after.errors ≡ before.errors)

module _ (e : Engine) (name : String)
    (plain : (fs : Fields) → e.builtin_member (object fs) name ≡ undefined) where
  defines-object :
      (fs : Fields) → defines e (object fs) name ≡ ok (is_defined (own_field (object fs) name))
  unfolding defines member
  defines-object fs = elim (Option-cases (lookup name (fields fs))) [
    | inl gone ↦ rw (gone, plain fs)
    | inr (v, there) ↦ rw there (ap ok (if_not (is_undefined v)))
  ]

  owns-object :
      (fs : Fields)
      → lookup "hasOwnProperty" (fields fs) ≡ none
      → owns e (object fs) name ≡ ok (is_defined (own_field (object fs) name))
  unfolding owns has_own_property
  owns-object fs h = rw h (elim (Option-cases (lookup name (fields fs))) [
    | inl gone ↦ rw gone
    | inr (v, there) ↦ rw there (ap ok (if_not (is_undefined v)))
  ])

  module _ (value : Value) (ps qs bs : Fields) (base : Request)
      (shown_ps : lookup "hasOwnProperty" (fields ps) ≡ none) where
    abbrev pub before : Request
    before = with_objects ps qs bs base

    abbrev after_update : Option Place → Request
    after_update none = before
    after_update (some in_params) = record before { params = assigned name value ps }
    after_update (some in_query) = record before { query = assigned name value qs }
    after_update (some in_body) = record before { body = assigned name value bs }

    frame :
        (place : Option Place) (p : Place) (k : String)
        → own_field (at_place (after_update place) p) k
          ≡ (if is_place place p && name == k then some value else own_field (at_place before p) k)
    frame none in_params k = refl
    frame none in_query k = refl
    frame none in_body k = refl
    frame (some in_params) in_params k = own_field-assigned name value ps k
    frame (some in_params) in_query k = refl
    frame (some in_params) in_body k = refl
    frame (some in_query) in_params k = refl
    frame (some in_query) in_query k = own_field-assigned name value qs k
    frame (some in_query) in_body k = refl
    frame (some in_body) in_params k = refl
    frame (some in_body) in_query k = refl
    frame (some in_body) in_body k = own_field-assigned name value bs k

    in_query_defined : defines e before.query name ≡ ok (is_defined (own_field (object qs) name))
    in_query_defined = defines-object qs

    in_body_defined : holds e before.body name ≡ ok (is_defined (own_field (object bs) name))
    unfolding holds
    in_body_defined = defines-object bs

    runs :
        update_param e name value before
        ≡ ok (returned (place_of before name) value, after_update (place_of before name))
    unfolding update_param assign_params assign_query assign_body
    runs =
        rw (owns-object ps shown_ps) (elim (Bool-cases (is_defined (own_field (object ps) name))) [
          | inl p ↦ rw p
          | inr not_p ↦
              rw (not_p, in_query_defined)
                (elim (Bool-cases (is_defined (own_field (object qs) name))) [
                  | inl q ↦ rw q
                  | inr not_q ↦
                      rw (not_q, in_body_defined)
                        (elim (Bool-cases (is_defined (own_field (object bs) name))) [
                          | inl b ↦ rw b
                          | inr not_b ↦ rw not_b
                        ])
                ])
        ])

    headers_kept : (place : Option Place) → (after_update place).headers ≡ before.headers
    headers_kept none = refl
    headers_kept (some in_params) = refl
    headers_kept (some in_query) = refl
    headers_kept (some in_body) = refl

    errors_kept : (place : Option Place) → (after_update place).errors ≡ before.errors
    errors_kept none = refl
    errors_kept (some in_params) = refl
    errors_kept (some in_query) = refl
    errors_kept (some in_body) = refl

    -- Where the route's parameters, the query and the body are objects that inherit nothing under the
    -- name, and the parameters have no field `hasOwnProperty`, `updateParam` writes the value to the
    -- first of the three that has the name, where it can be read afterwards, and to no other field of
    -- any of them; it returns the value, or false where none has the name, and keeps the headers and
    -- the errors.
    pub update_param-frame :
        (after : Request) × Written e name value before (place_of before name) after
    update_param-frame = (
      after_update (place_of before name),
      (
        runs,
        frame (place_of before name),
        headers_kept (place_of before name),
        errors_kept (place_of before name),
      ),
    )

-- A method of the library whose name is neither `optional`, `len` or `notEmpty` nor that of a custom
-- method is the checks' method of that name or a sanitizer of `filter`, and never both.
pub find_method-xor_sanitizer :
    (l : Library) (o : Options) (name : String)
    → contains l.methods name ≡ true
    → name ≢ "optional"
    → name ≢ "len"
    → name ≢ "notEmpty"
    → contains o.custom_names name ≡ false
    → ((find_method l o name ≡ some (library name)) × (is_sanitizer name ≡ false))
      ⊎ ((find_method l o name ≢ some (library name)) × (is_sanitizer name ≡ true))
unfolding find_method
find_method-xor_sanitizer l o name there a b c custom =
    rw (eq-false a, eq-false b, eq-false c, custom, there)
      (elim (Bool-cases (is_sanitizer name)) [
        | inl sanitizes ↦ inr (ground arith, sanitizes)
        | inr checks ↦ inl (rw checks, checks)
      ])
