-- ===== src/Routes.antt =====
-- `Sandbox.define` and `Sandbox.soap`
-- (core/src/main/resources/com/sandbox/runtime/v2/js/version_3/sandbox-patch.js).
-- `arguments` is the list of the values given. A call of the host's `__mock.define` is the record
-- `Definition` of what it is given; the callback is handed over as it is and wrapped (Wrapping).
pub mod Laws
use worker_cli.Prelude.{
  String, Bool, true, false, List, [], ◌∷◌, if◌then◌else◌, length, eqb, ◌&&◌, Dict,
}
use worker_cli.Js.{
  Value, undefined, null, string, object, Fields, end, field, TypeName, type_of, is_string,
  is_nullish, Piece, text, shown, upper, JsError, error, type_error, reference_error, Result, ok,
  throw, ◌>>=◌, ◌>>◌,
}

pub data Action : Type 0 where
  define_route soap_route : Action

-- The arguments of `__mock.define`, less the transport 'http', the wrapped callback and the stack.
pub record Definition : Type 0 where
  pub action : Action
  pub path : Value
  pub method : Value
  pub properties : Value
  pub callback : Value

-- `arguments[i]`; beyond the end it is undefined
abbrev pub first : List Value → Value
first [] = undefined
first (v ∷ _) = v

abbrev pub second : List Value → Value
second [] = undefined
second (_ ∷ vs) = first vs

-- The four variables of `define`.
pub record Parsed : Type 0 where
  pub path : Value
  pub method : Value
  pub properties : Value
  pub callback : Value

abbrev pub get_method : Value
get_method = string "GET"

abbrev pub no_properties : Value
no_properties = object end

-- Three arguments: the second one's type tells whether it is the properties or the method. In the
-- last branch the message reads `method.toUpperCase()` while `method` is still undefined.
unfoldable pub parse_three : Value → Value → Value → Result Parsed
parse_three path middle callback = elim (type_of middle) [
  | TypeName.object ↦
      ok (record { path = path; method = get_method; properties = middle; callback = callback })
  | TypeName.string ↦
      ok (record { path = path; method = middle; properties = no_properties; callback = callback })
  | _ ↦ throw type_error
]

unfoldable pub parse_arguments : List Value → Result Parsed
unfolding parse_three
parse_arguments (path ∷ method ∷ properties ∷ callback ∷ []) =
    ok (record { path = path; method = method; properties = properties; callback = callback })
parse_arguments (path ∷ middle ∷ callback ∷ []) = parse_three path middle callback
parse_arguments args = ok (record {
  path = first args;
  method = get_method;
  properties = no_properties;
  callback = second args;
})

-- The message of a missing callback; `toUpperCase` is a method of strings only.
unfoldable pub missing_callback : Parsed → JsError
missing_callback p =
    if is_string p.method
    then error (
        text "Invalid route definition for "
        ∷ upper p.method
        ∷ text " "
        ∷ shown p.path
        ∷ text ", given function is undefined"
        ∷ [])
    else type_error

unfoldable pub check_callback : Parsed → Result Definition
unfolding missing_callback
check_callback p =
    if is_nullish p.callback
    then throw (missing_callback p)
    else ok (record {
      action = define_route;
      path = p.path;
      method = p.method;
      properties = p.properties;
      callback = p.callback;
    })

-- `mock.define`
unfoldable pub define : List Value → Result Definition
unfolding parse_arguments check_callback
define args = do parsed ← parse_arguments args; check_callback parsed

abbrev pub soap_definition : Value → Fields → Value → Definition
soap_definition path properties callback = record {
  action = soap_route;
  path = path;
  method = string "POST";
  properties = object properties;
  callback = callback;
}

-- `mock.soap`. The last branch reads the undeclared variable `method`.
unfoldable pub soap : List Value → Result Definition
soap (path ∷ action ∷ callback ∷ []) =
    if is_string action
    then ok (soap_definition path (field "SOAPAction" action end) callback)
    else throw reference_error
soap (path ∷ action ∷ operation ∷ callback ∷ []) =
    if is_string action
    then ok (
        soap_definition path (field "SOAPAction" action (field "SOAPOperationName" operation end))
          callback)
    else throw reference_error
soap args = throw reference_error
