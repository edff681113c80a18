-- ===== src/Js.antt =====
-- The values and the exceptions of the scripts. A number is a double: ± n / 2 ^ k, an infinity or
-- NaN. Objects and arrays are trees here; where identity matters (Require) values are references.
-- What the engine provides and no file of the repository defines is the record `Engine`.
use worker_cli.Prelude.{
  ℕ, zero, suc, String, Bool, true, false, Option, none, some, List, [], ◌∷◌, Dict, lookup,
  nonempty, if◌then◌else◌,
}

pub data Number : Type 0 where
  nan : Number
  infinity : (negative : Bool) → Number
  finite : (negative : Bool) (numerator places : ℕ) → Number

mutual
  pub data Value : Type 0 where
    undefined : Value
    null : Value
    boolean : Bool → Value
    number : Number → Value
    string : String → Value
    array : Items → Value
    object : Fields → Value
    function : ℕ → Value

  pub data Items : Type 0 where
    nil : Items
    cons : Value → Items → Items

  pub data Fields : Type 0 where
    end : Fields
    field : String → Value → Fields → Fields

abbrev pub items : Items → List Value
items nil = []
items (cons v vs) = v ∷ items vs

abbrev pub fields : Fields → Dict Value
fields end = []
fields (field k v fs) = (k, v) ∷ fields fs

abbrev pub from_list : List Value → Items
from_list [] = nil
from_list (v ∷ vs) = cons v (from_list vs)

abbrev pub from_dict : Dict Value → Fields
from_dict [] = end
from_dict ((k, v) ∷ d) = field k v (from_dict d)

-- Object, array and integer literals
abbrev pub obj : Dict Value → Value
obj d = object (from_dict d)

abbrev pub arr : List Value → Value
arr vs = array (from_list vs)

abbrev pub num : ℕ → Value
num n = number (finite false n 0)

-- `ToBoolean`
abbrev pub truthy : Value → Bool
truthy undefined = false
truthy null = false
truthy (boolean b) = b
truthy (number nan) = false
truthy (number (infinity _)) = true
truthy (number (finite _ zero _)) = false
truthy (number (finite _ (suc _) _)) = true
truthy (string s) = nonempty s
truthy (array _) = true
truthy (object _) = true
truthy (function _) = true

-- `v === undefined`
abbrev pub is_undefined : Value → Bool
is_undefined undefined = true
is_undefined _ = false

-- `v == undefined`
abbrev pub is_nullish : Value → Bool
is_nullish undefined = true
is_nullish null = true
is_nullish _ = false

pub data TypeName : Type 0 where
  undefined boolean number string object function : TypeName

pub TypeName-discrete : Discrete TypeName
TypeName-discrete = hlevel

-- `typeof v`
abbrev pub type_of : Value → TypeName
type_of undefined = TypeName.undefined
type_of null = TypeName.object
type_of (boolean _) = TypeName.boolean
type_of (number _) = TypeName.number
type_of (string _) = TypeName.string
type_of (array _) = TypeName.object
type_of (object _) = TypeName.object
type_of (function _) = TypeName.function

abbrev pub is_string : Value → Bool
is_string (string _) = true
is_string _ = false

-- A message is the concatenation of its pieces, each converted as the script converts it.
pub data Piece : Type 0 where
  text : String → Piece
  shown : Value → Piece
  upper : Value → Piece

pub data JsError : Type 0 where
  error : List Piece → JsError
  type_error reference_error syntax_error : JsError
  thrown : Value → JsError

pub data Result {ℓ} (A : Type ℓ) : Type ℓ where
  ok : A → Result A
  throw : JsError → Result A

infixl 5 ◌>>=◌ ◌>>◌
abbrev pub ◌>>=◌ {ℓ κ} : {A : Type ℓ} {B : Type κ} → Result A → (A → Result B) → Result B
ok a >>= f = f a
throw e >>= f = throw e

abbrev pub ◌>>◌ {ℓ} : {B : Type ℓ} → Result (Unit {0}) → Result B → Result B
m >> k = m >>= λ _. k

-- The part of the language's runtime that the scripts lean on: conversion to a string, and the
-- members that a value has besides the own properties of an object, what they are after an
-- assignment, and which of them are the value's own.
pub record Engine : Type 0 where
  pub to_string : Value → String
  pub to_string_string : (s : String) → worker_cli.Prelude.◌≡◌ (to_string (string s)) s
  pub builtin_member : Value → String → Value
  pub assign_builtin : Value → String → Value → Value
  pub has_own_builtin : Value → String → Bool

abbrev pub or_else : Value → Option Value → Value
or_else d none = d
or_else d (some v) = v

-- `v[k]`
unfoldable pub member : Engine → Value → String → Result Value
member e undefined k = throw type_error
member e null k = throw type_error
member e (object fs) k = ok (or_else (e.builtin_member (object fs) k) (lookup k (fields fs)))
member e v k = ok (e.builtin_member v k)
