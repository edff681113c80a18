-- ===== src/Validator/Params/Laws.antt =====
-- The value that a check tests, and the name that its errors carry
-- (core/src/main/resources/com/sandbox/runtime/v2/js/version_3/sandbox-validator.js, `checkParam`).
use worker_cli.Prelude.{
  String, true, false, ◌≡◌, ◌||◌, if◌then◌else◌, ◌⊎◌, inl, inr, refl, List, [], ◌∷◌, map, All,
  split, nonempty, filter_by, Bool-cases,
}
use worker_cli.Paths.Segments.{Avoids, split-Avoids, join-split}
use worker_cli.Js.{
  Value, undefined, null, string, object, truthy, is_undefined, is_nullish, Engine, member, Result,
  ok,
}
use worker_cli.Validator.{Request}
use worker_cli.Validator.Params.{
  params_getter, body_getter, query_getter, parse_param, key, join_piece, param_name, Getter,
  or_empty, step, walk, get_from, check_getter, param_value,
}

-- A call that gives a value.
abbrev pub Returns : Result Value → Type 0
Returns r = (v : Value) × (r ≡ ok v)

member-Returns :
    (e : Engine) (v : Value) (k : String) → is_nullish v ≡ false → Returns (member e v k)
unfolding member
member-Returns e undefined k h = cc
member-Returns e null k h = cc
member-Returns e (object fs) k h = (_, refl)
member-Returns e _ k h = (_, refl)

is_nullish_of_truthy : (v : Value) → truthy v ≡ true → is_nullish v ≡ false
is_nullish_of_truthy undefined h = cc
is_nullish_of_truthy null h = cc
is_nullish_of_truthy _ h = refl

pub get_from-Returns : (e : Engine) (owner part : Value) → Returns (get_from e owner part)
unfolding get_from
get_from-Returns e owner part = elim (Bool-cases (truthy owner)) [
  | inl there ↦
      let (v, h) = member-Returns e owner (key e part) (is_nullish_of_truthy owner there) in
      (v, rw there h)
  | inr gone ↦ (owner, rw gone)
]

or_empty-defined : (v : Value) → is_nullish (or_empty v) ≡ false
or_empty-defined undefined = refl
or_empty-defined _ = refl

-- A value from which the walk can go on: the start, or one that has members.
abbrev CanGoOn : Value → Type 0
CanGoOn v = (is_undefined v ≡ true) ⊎ (is_nullish v ≡ false)

pub not_undefined : (v : Value) → is_nullish v ≡ false → is_undefined v ≡ false
not_undefined undefined h = cc
not_undefined _ h = refl

step-Returns :
    (e : Engine) (getter : Getter) (value part : Value)
    → Returns (getter part)
    → CanGoOn value
    → (v : Value) × (step e getter value part ≡ ok v) × (is_nullish v ≡ false)
unfolding step
step-Returns e getter value part (u, g) (inl start) =
    (or_empty u, rw (start, g), or_empty-defined u)
step-Returns e getter value part (u, g) (inr further) =
    let (w, m) = member-Returns e value (key e part) further in
    (or_empty w, rw (not_undefined value further, m), or_empty-defined w)

walk-Returns :
    (e : Engine) (getter : Getter) (value : Value) (parts : List Value)
    → ((part : Value) → Returns (getter part))
    → is_nullish value ≡ false
    → (v : Value) × (walk e getter value parts ≡ ok v) × (is_nullish v ≡ false)
unfolding walk
walk-Returns e getter value [] g h = (value, refl, h)
walk-Returns e getter value (part ∷ parts) g h =
    let (u, first, defined) = step-Returns e getter value part (g part) (inr h) in
    let (v, rest, final) = walk-Returns e getter u parts g defined in (v, rw (first, rest), final)

-- With a getter that does not throw, the walk along a path of at least one part does not throw
-- either, and the value that is checked is neither undefined nor null.
pub param_value-defined :
    (e : Engine) (getter : Getter) (part : Value) (parts : List Value)
    → ((p : Value) → Returns (getter p))
    → (v : Value) × (param_value e getter (part ∷ parts) ≡ ok v) × (is_nullish v ≡ false)
unfolding param_value
param_value-defined e getter part parts g =
    let (u, first, defined) = step-Returns e getter undefined part (g part) (inl refl) in
    let (v, rest, final) = walk-Returns e getter u parts g defined in (v, rw (first, rest), final)

-- What `checkParams`, `checkBody` and `checkQuery` read under a name
pub record Found (e : Engine) (req : Request) (name : String) : Type 0 where
  pub in_params : Value
  pub in_body : Value
  pub in_query : Value
  pub params_read : params_getter e req (string name) ≡ ok in_params
  pub body_read : body_getter e req (string name) ≡ ok in_body
  pub query_read : query_getter e req (string name) ≡ ok in_query

found : (e : Engine) (req : Request) (name : String) → Found e req name
unfolding params_getter body_getter query_getter
found e req name =
    let (a, in_params) = get_from-Returns e req.params (string name) in
    let (b, in_body) = get_from-Returns e req.body (string name) in
    let (c, in_query) = get_from-Returns e req.query (string name) in
    record {
      in_params = a;
      in_body = b;
      in_query = c;
      params_read = in_params;
      body_read = in_body;
      query_read = in_query;
    }

check_getter-Found :
    (e : Engine) (req : Request) (name : String) (f : Found e req name)
    → check_getter e req (string name)
      ≡ ok (
          if truthy f.in_params || truthy f.in_body || truthy f.in_query
          then string name
          else undefined)
unfolding check_getter params_getter body_getter query_getter
check_getter-Found e req name f = rw (f.params_read) (elim (Bool-cases (truthy f.in_params)) [
  | inl t ↦ rw t refl
  | inr n ↦
      rw (n, f.body_read)
        (elim (Bool-cases (truthy f.in_body)) [
          | inl t ↦ rw t refl
          | inr m ↦
              rw (m, f.query_read)
                (elim (Bool-cases (truthy f.in_query)) [ inl t ↦ rw t refl | inr z ↦ rw z refl ])
        ])
])

-- `check` of a parameter with one part tests the part's own name where what `checkParams`,
-- `checkBody` or `checkQuery` reads under the name is truthy, and the empty string where none of the
-- three is; never the value that the request carries.
pub check_value-cases :
    (e : Engine) (req : Request) (name : String)
    → (f : Found e req name) × (param_value e (check_getter e req) (string name ∷ [])
        ≡ ok (
            if truthy f.in_params || truthy f.in_body || truthy f.in_query
            then string name
            else string ""))
unfolding param_value
check_value-cases e req name =
    let f = found e req name in
    (
      f,
      rw (check_getter-Found e req name f)
          (elim (Bool-cases (truthy f.in_params || truthy f.in_body || truthy f.in_query)) [
            | inl t ↦ rw (t, step)
            | inr n ↦ rw (n, step)
          ]),
    )

filter_by-All : (ps : List String) → All (λ p. nonempty p ≡ true) ps → filter_by nonempty ps ≡ ps
filter_by-All [] h = refl
filter_by-All (p ∷ ps) (h, hs) = rw (h, filter_by-All ps hs)

join_pieces-string : (e : Engine) (ps : List String) → map (join_piece e) (map string ps) ≡ ps
join_pieces-string e [] = refl
join_pieces-string e (p ∷ ps) = rw (e.to_string_string p, join_pieces-string e ps)

-- A path of names with a dot between each two is split into those names, none of which holds a dot,
-- and the errors of the check carry the path as it was written.
pub param_name-parse_param :
    (e : Engine) (param : String)
    → All (λ p. nonempty p ≡ true) (split b'.' param)
    → (parts : List String) × (parse_param (string param) ≡ ok (map string parts))
      × All (Avoids b'.') parts
      × (param_name e (map string parts) ≡ param)
unfolding parse_param param_name
param_name-parse_param e param h = (
  split b'.' param,
  rw (filter_by-All (split b'.' param) h),
  split-Avoids b'.' param,
  rw (join_pieces-string e (split b'.' param)) (join-split "." param),
)
