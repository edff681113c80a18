-- ===== src/Wrapping.antt =====
-- `wrapCallback`: what a route's callback sees of a request and a response
-- (core/src/main/resources/com/sandbox/runtime/v2/js/version_3/sandbox-patch.js).
-- `wrappedRequest` and `wrappedResponse` are made once and serve every request. The host's objects
-- are lists of named values; a function of theirs is read again when it is called.
pub mod Laws
pub mod Response
use worker_cli.Prelude.{
  ℕ, String, Bool, true, false, Option, none, some, List, [], ◌∷◌, ◌++◌, Dict, lookup, insert,
  length, eqb, ◌==◌, if◌then◌else◌,
}
use worker_cli.Validator.{Fault}
use worker_cli.Js.{
  Value, undefined, function, obj, array, from_list, Result, throw, type_error, Fields, fields,
}

-- An object of the host, known by a number, with its properties.
pub record HostObject : Type 0 where
  pub host : ℕ
  pub properties : Dict Value

-- A property of a wrapped object: a value, the array of errors that the validator pushes to, a method
-- that the validator or the templates put there, a function that calls the host's function of the same
-- name on the host's object, or `render`, made for the host's request.
pub data Property : Type 0 where
  value : Value → Property
  faults : List Fault → Property
  method : String → Property
  forward_request forward_response : (host : ℕ) (name : String) → Property
  render : (request : HostObject) → Property

abbrev pub Wrapped : Type 0
Wrapped = Dict Property

abbrev pub is_function : Value → Bool
is_function (function _) = true
is_function _ = false

-- One round of the `forEach` over the request's keys.
unfoldable pub copy_request_property : ℕ → String → Value → Wrapped → Wrapped
unfolding insert
copy_request_property host name v w =
    if is_function v
    then insert name (forward_request host name) w
    else insert "_validationErrors" (value undefined) (insert name (value v) w)

unfoldable pub copy_request : ℕ → Dict Value → Wrapped → Wrapped
unfolding copy_request_property
copy_request host [] w = w
copy_request host ((name, v) ∷ properties) w =
    copy_request host properties (copy_request_property host name v w)

-- One round of the `forEach` over the response's keys.
unfoldable pub copy_response_property : ℕ → String → Value → Wrapped → Wrapped
unfolding insert
copy_response_property host name v w =
    if is_function v then insert name (forward_response host name) w else insert name (value v) w

unfoldable pub copy_response : ℕ → Dict Value → Wrapped → Wrapped
unfolding copy_response_property
copy_response host [] w = w
copy_response host ((name, v) ∷ properties) w =
    copy_response host properties (copy_response_property host name v w)

-- The two objects that the callback is called with.
pub record Wrappers : Type 0 where
  pub request : Wrapped
  pub response : Wrapped

-- The function that `wrapCallback` returns, up to its call of the callback.
unfoldable pub wrap : HostObject → HostObject → Wrappers → Wrappers
unfolding copy_request copy_response
wrap request response w = record {
  request = copy_request request.host request.properties w.request;
  response =
      insert "render" (render request) (copy_response response.host response.properties w.response);
}

-- What the object holds now that the host's request and the wrapped request share, if they share one.
abbrev pub held : Value → Option Property → Value
held v (some (value now)) = now
held v _ = v

-- The parameters, the query and the body are the same objects in both, and `updateParam` assigns to
-- their fields.
abbrev pub current_property : Wrapped → String → Value → Value
current_property w name v =
    if name == "params"
    then held v (lookup "params" w)
    else if name == "query"
    then held v (lookup "query" w)
    else if name == "body"
    then held v (lookup "body" w)
    else v

abbrev pub current_properties : Wrapped → Dict Value → Dict Value
current_properties w [] = []
current_properties w ((name, v) ∷ properties) =
    (name, current_property w name v) ∷ current_properties w properties

-- `callbackRequest` as it is when a callback renders
abbrev pub current_request : Wrapped → HostObject → Value
current_request w request = obj (current_properties w request.properties)

-- The arguments that a forwarding function of the request gives to the host's: a single one in an
-- array of its own.
unfoldable pub request_arguments : List Value → List Value
request_arguments args = if eqb (length args) 1 then array (from_list args) ∷ [] else args

-- The names that the function that `sandboxValidator` returns puts on a request.
abbrev pub validator_methods : List String
validator_methods =
    "updateParam" ∷ "check" ∷ "checkBody" ∷ "checkParams" ∷ "checkQuery" ∷ "checkHeader"
    ∷ "onValidationError" ∷ "validationErrors" ∷ "validationErrorsJson" ∷ "filter" ∷ "sanitize"
    ∷ "assert" ∷ "validate" ∷ "checkJsonSchema" ∷ []

unfoldable pub put_methods : List String → Wrapped → Wrapped
unfolding insert
put_methods [] w = w
put_methods (name ∷ names) w = put_methods names (insert name (method name) w)

-- The two objects after `sandboxValidator` and `sandboxTemplates`, before any request.
unfoldable pub made : Wrappers
unfolding put_methods
made = record {
  request = put_methods validator_methods [];
  response = put_methods ("renderWithRequest" ∷ []) [];
}
