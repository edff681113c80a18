-- ===== src/Validator/Params.antt =====
-- `checkParam` up to the value that is checked
-- (core/src/main/resources/com/sandbox/runtime/v2/js/version_3/sandbox-validator.js): the path of
-- the parameter, the getters and the walk along the path.
pub mod Laws
use worker_cli.Prelude.{
  String, Bool, true, false, List, [], ◌∷◌, map, ◌==◌, ◌||◌, split, join, nonempty, filter_by,
  if◌then◌else◌,
}
use worker_cli.Js.{
  Value, undefined, null, boolean, number, string, array, object, function, items, truthy,
  is_undefined, is_nullish, Engine, member, Result, ok, throw, type_error, ◌>>=◌,
}
use worker_cli.Validator.{Request}

-- The parts of the path: an array as it is, a number alone, a string at its dots without empty
-- parts. Nothing else has a `split`.
unfoldable pub parse_param : Value → Result (List Value)
unfolding split
parse_param (array parts) = ok (items parts)
parse_param (number n) = ok (number n ∷ [])
parse_param (string s) = ok (map string (filter_by nonempty (split b'.' s)))
parse_param param = throw type_error

-- A part as a property's name.
abbrev pub key : Engine → Value → String
key e part = e.to_string part

-- A piece of `param.join('.')`
abbrev pub join_piece : Engine → Value → String
join_piece e part = if is_nullish part then "" else e.to_string part

-- `param.join('.')`
unfoldable pub param_name : Engine → List Value → String
unfolding join
param_name e parts = join "." (map (join_piece e) parts)

abbrev pub Getter : Type 0
Getter = Value → Result Value

-- "default to empty string otherwise checks fail"
abbrev pub or_empty : Value → Value
or_empty value = if is_nullish value then string "" else value

-- One part of the walk.
unfoldable pub step : Engine → Getter → Value → Value → Result Value
unfolding member
step e getter value part = do
  next ← if is_undefined value then getter part else member e value (key e part)
  ok (or_empty next)

unfoldable pub walk : Engine → Getter → Value → List Value → Result Value
unfolding step
walk e getter value [] = ok value
walk e getter value (part ∷ parts) = do next ← step e getter value part; walk e getter next parts

-- `owner && owner[part]`
unfoldable pub get_from : Engine → Value → Getter
unfolding member
get_from e owner part = if truthy owner then member e owner (key e part) else ok owner

-- The getters of `checkBody`, `checkParams` and `checkQuery`
unfoldable pub body_getter : Engine → Request → Getter
unfolding get_from
body_getter e req = get_from e req.body

unfoldable pub params_getter : Engine → Request → Getter
unfolding get_from
params_getter e req = get_from e req.params

unfoldable pub query_getter : Engine → Request → Getter
unfolding get_from
query_getter e req = get_from e req.query

-- The getter of `check`: it gives back the part itself where a place has it.
unfoldable pub check_getter : Engine → Request → Getter
unfolding get_from
check_getter e req part = do
  in_params ← get_from e req.params part
  if truthy in_params then ok part else do
    in_body ← get_from e req.body part
    if truthy in_body then ok part else do
      in_query ← get_from e req.query part
      if truthy in_query then ok part else ok undefined

abbrev pub is_referrer : Value → Bool
is_referrer (string s) = s == "referrer" || s == "referer"
is_referrer part = false

abbrev pub or_empty_text : Value → Value
or_empty_text value = if truthy value then value else string ""

-- The getter of `checkHeader`
unfoldable pub header_getter : Engine → Request → Getter
unfolding member
header_getter e req part = do
  value ← member e req.headers (if is_referrer part then "referer" else key e part)
  ok (or_empty_text value)

-- The value that the methods of a check test.
unfoldable pub param_value : Engine → Getter → List Value → Result Value
unfolding walk
param_value e getter parts = walk e getter undefined parts
