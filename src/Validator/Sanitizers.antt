-- ===== src/Validator/Sanitizers.antt =====
-- `updateParam`, and the methods of `filter`, which write what they compute back to the request
-- (core/src/main/resources/com/sandbox/runtime/v2/js/version_3/sandbox-validator.js). The request's
-- own `param` function, the host's, gives the value that `filter` starts from.
pub mod Laws
pub mod Spares
pub mod Checked
use worker_cli.Prelude.{
  String, Bool, true, false, Option, none, some, List, [], ◌∷◌, Dict, lookup, insert, ◌&&◌,
  if◌then◌else◌,
}
use worker_cli.Js.{
  Value, undefined, null, boolean, number, string, array, object, function, Items, nil, cons,
  Fields, end, field, fields, from_dict, truthy, is_undefined, Engine, member, Result, ok, throw,
  type_error, ◌>>=◌,
}
use worker_cli.Validator.{Request, Library, contains, is_sanitizer}

-- `owner[name] = value`; an assignment to a member of a string, number or Boolean is lost, and what
-- one to an array or function does is the engine's
unfoldable pub set_member : Engine → Value → String → Value → Result Value
unfolding insert
set_member e undefined name value = throw type_error
set_member e null name value = throw type_error
set_member e (object fs) name value = ok (object (from_dict (insert name value (fields fs))))
set_member e (array vs) name value = ok (e.assign_builtin (array vs) name value)
set_member e (function n) name value = ok (e.assign_builtin (function n) name value)
set_member e owner name value = ok owner

abbrev pub is_some : Option Value → Bool
is_some none = false
is_some (some v) = true

-- `owner.hasOwnProperty(name)`, for an owner that is an object; a field of the object's own with
-- that name hides the function
abbrev pub own_property : Fields → String → Option Value → Result Bool
own_property fs name none = ok (is_some (lookup name (fields fs)))
own_property fs name (some hidden) = throw type_error

unfoldable pub has_own_property : Engine → Value → String → Result Bool
unfolding lookup
has_own_property e (object fs) name = own_property fs name (lookup "hasOwnProperty" (fields fs))
has_own_property e owner name = ok (e.has_own_builtin owner name)

-- `undefined !== owner[name]`
unfoldable pub defines : Engine → Value → String → Result Bool
unfolding member
defines e owner name = do
  value ← member e owner name
  ok (if is_undefined value then false else true)

abbrev pub if_true : Bool → Result Bool → Result Bool
if_true true test = test
if_true false test = ok false

-- `owner && owner.hasOwnProperty(name) && undefined !== owner[name]`
unfoldable pub owns : Engine → Value → String → Result Bool
unfolding has_own_property defines
owns e owner name =
    if_true (truthy owner)
      do own ← has_own_property e owner name; if_true own (defines e owner name)

-- `owner && undefined !== owner[name]`
unfoldable pub holds : Engine → Value → String → Result Bool
unfolding defines
holds e owner name = if_true (truthy owner) (defines e owner name)

module _ (e : Engine) (name : String) (value : Value) (req : Request) where
  unfoldable pub assign_params : Result (Value × Request)
  unfolding set_member
  assign_params = do
    params ← set_member e req.params name value
    ok (value, record req { params = params })

  unfoldable pub assign_query : Result (Value × Request)
  unfolding set_member
  assign_query = do
    query ← set_member e req.query name value
    ok (value, record req { query = query })

  unfoldable pub assign_body : Result (Value × Request)
  unfolding set_member
  assign_body = do body ← set_member e req.body name value; ok (value, record req { body = body })

  -- `req.updateParam`: what it returns, and the request that it leaves
  unfoldable pub update_param : Result (Value × Request)
  update_param = do
    in_params ← owns e req.params name
    if in_params then assign_params else do
      in_query ← defines e req.query name
      if in_query then assign_query else do
        in_body ← holds e req.body name
        if in_body then assign_body else ok (boolean false, req)

-- `request.updateParam(param, result)`, whose own result is dropped
abbrev pub sanitize_with : Engine → String → Request → Result Value → Result (Value × Request)
sanitize_with e param req call = do
  result ← call
  updated ← update_param e param result req
  ok (result, updated.1)

-- A method of `sanitize(request, param, value)`: only the library's sanitizers are there.
unfoldable pub call_sanitizer :
    Engine → Library → String → Value → String → List Value → Request → Result (Value × Request)
unfolding is_sanitizer update_param
call_sanitizer e l param value name args req =
    if contains l.methods name && is_sanitizer name
    then sanitize_with e param req (l.call name (value ∷ args))
    else throw type_error
