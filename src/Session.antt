-- ===== src/Session.antt =====
-- The two objects that all callbacks share, through a sequence of requests
-- (core/src/main/resources/com/sandbox/runtime/v2/js/version_3/sandbox-patch.js, `wrapCallback`, with
-- the methods that sandbox-validator.js and sandbox-templates.js put on the objects beside it). A
-- callback is what it does to them: it checks and sanitizes parameters, updates them, checks a JSON
-- schema, registers an error callback, renders, and calls the host's functions, of which it is recorded
-- with what arguments they are called. The methods read the wrapped request, and what they change is
-- written back. A host's request with a property of the name of one of the methods, or
-- with a function for its parameters, query or body, is not modelled.
pub mod Writes
pub mod Frame
pub mod Scripts
pub mod Isolation
pub mod Persistence
pub mod Private
pub mod Rendering
pub mod Calls
pub mod Methods
use worker_cli.Prelude.{
  ℕ, String, Option, none, some, List, [], ◌∷◌, ◌++◌, Dict, lookup, insert, ◌==◌, if◌then◌else◌,
}
use worker_cli.Js.{Value, undefined, string, function, obj, arr, Engine, Result, ok, throw}
use worker_cli.Validator.{Fault, Request, Library, Options}
use worker_cli.Validator.Params.{
  Getter, body_getter, params_getter, query_getter, check_getter, header_getter,
}
use worker_cli.Validator.Checks.{Check, check_param, Chain, live, run_chain}
use worker_cli.Validator.Sanitizers.{update_param, call_sanitizer}
use worker_cli.Schemas.{SchemaHost, check_json_schema}
use worker_cli.Versions.Legacy.{AmandaHost, legacy_check, legacy_check_json_schema}
use worker_cli.Templates.{RenderHost, Renderers, render_with_request}
use worker_cli.Wrapping.{
  Property, value, faults, method, forward_request, forward_response, render, request_arguments,
  Wrapped, HostObject, current_request, Wrappers, wrap, made,
}

-- The validator of version_3, or that of version_1 and version_2: the texts of the three differ in
-- `checkParam` and `checkJsonSchema`.
pub data Script : Type 0 where
  current : SchemaHost → Script
  older : AmandaHost → Script

abbrev pub check_of : Script → Engine → Getter → Value → Value → Result Check
check_of (current host) = check_param
check_of (older host) = legacy_check

abbrev pub schema_check_of : Script → String → Request → Result (Unit {0}) × Request
schema_check_of (current host) = check_json_schema host
schema_check_of (older host) = legacy_check_json_schema host

-- What the scripts take from the host and from the third-party libraries: `service` is `__service`.
pub record World : Type 0 where
  pub engine : Engine
  pub library : Library
  pub options : Options
  pub script : Script
  pub templates : RenderHost
  pub service : ℕ

-- A call of a function of one of the host's objects, known by its number
pub record HostCall : Type 0 where
  pub host : ℕ
  pub name : String
  pub args : List Value

-- `notified` is what error callbacks have been called with, `functions` is `templateRenderFunctions`,
-- and `calls` are the calls of the host's functions, in order.
pub record Session : Type 0 where
  pub wrappers : Wrappers
  pub notified : List Value
  pub functions : Dict ℕ
  pub calls : List HostCall

-- Before any request
abbrev pub opened : Session
opened = record { wrappers = made; notified = []; functions = []; calls = [] }

abbrev pub or_undefined : Option Value → Value
or_undefined none = undefined
or_undefined (some v) = v

abbrev pub fault_value : Fault → Value
fault_value f = obj (("param", f.param) ∷ ("msg", f.msg) ∷ ("value", or_undefined f.value) ∷ [])

abbrev pub fault_values : List Fault → List Value
fault_values [] = []
fault_values (f ∷ fs) = fault_value f ∷ fault_values fs

-- A property as a value; the methods read no function of the objects', so that all are one here.
abbrev pub read : Option Property → Value
read none = undefined
read (some (value v)) = v
read (some (faults fs)) = arr (fault_values fs)
read (some (method name)) = function 0
read (some (forward_request host name)) = function 0
read (some (forward_response host name)) = function 0
read (some (render request)) = function 0

abbrev pub errors_of : Option Property → Option (List Fault)
errors_of (some (faults fs)) = some fs
errors_of _ = none

-- The wrapped request as the methods read it.
unfoldable pub view : Session → Request
unfolding lookup
view s = record {
  params = read (lookup "params" s.wrappers.request);
  query = read (lookup "query" s.wrappers.request);
  body = read (lookup "body" s.wrappers.request);
  headers = read (lookup "headers" s.wrappers.request);
  errors = errors_of (lookup "_validationErrors" s.wrappers.request);
  on_error = read (lookup "onErrorCallback" s.wrappers.request);
  notified = s.notified;
}

abbrev pub put : String → Property → Session → Session
put name p s = record s {
  wrappers = record s.wrappers { request = insert name p s.wrappers.request };
}

-- What a chain changes of the wrapped request: its errors.
abbrev pub put_errors : Option (List Fault) → Session → Session
put_errors none s = s
put_errors (some fs) s = put "_validationErrors" (faults fs) s

unfoldable pub write_back : Request → Session → Session
unfolding insert
write_back req s = record (put_errors req.errors s) { notified = req.notified }

-- A field was assigned to in the object that the property holds.
abbrev pub put_value : String → Value → Option Property → Session → Session
put_value name v (some (value _)) s = put name (value v) s
put_value name v _ s = s

unfoldable pub assign_place : String → Value → Session → Session
unfolding lookup insert
assign_place name v s = put_value name v (lookup name s.wrappers.request) s

-- What `updateParam` changes: one of these three.
abbrev pub write_places : Request → Session → Session
write_places req s =
    assign_place "body" req.body
      (assign_place "query" req.query (assign_place "params" req.params s))

abbrev pub write_updated : Result (Value × Request) → Session → Session
write_updated (throw err) s = s
write_updated (ok (returned, req)) s = write_places req s

-- What a call of a property reaches; any other property is not one of the host's functions.
abbrev pub forwarded : Option Property → List Value → Option HostCall
forwarded none args = none
forwarded (some (value v)) args = none
forwarded (some (faults fs)) args = none
forwarded (some (method name)) args = none
forwarded (some (forward_request host name)) args =
    some (record { host = host; name = name; args = request_arguments args })
forwarded (some (forward_response host name)) args =
    some (record { host = host; name = name; args = args })
forwarded (some (render request)) args = none

abbrev pub note : Option HostCall → Session → Session
note none s = s
note (some c) s = record s { calls = s.calls ++ c ∷ [] }

-- `wrappedResponse.send(output)`, for each output
abbrev pub send_all : Option Property → List Value → Session → Session
send_all send [] s = s
send_all send (output ∷ outputs) s = send_all send outputs (note (forwarded send (output ∷ [])) s)

-- What follows `this.param(param)`, if the request has such a function.
abbrev pub sanitized : Option HostCall → Result (Value × Request) → Session → Session
sanitized none updated s = s
sanitized (some c) updated s = write_updated updated (note (some c) s)

-- `check`, `checkBody`, `checkParams`, `checkQuery` and `checkHeader`
pub data Source : Type 0 where
  anywhere body params query header : Source

abbrev pub getter_of : Source → Engine → Request → Getter
getter_of anywhere = check_getter
getter_of body = body_getter
getter_of params = params_getter
getter_of query = query_getter
getter_of header = header_getter

-- What happens to the objects: the host calls a wrapped callback, and a callback calls `check…` with
-- a chain of methods, `filter(param).name(…args)` where the host's `param` gives `given`,
-- `updateParam`, `checkJsonSchema`, `onValidationError`, the response's `render`, or a function that
-- the request or the response has from the host.
pub data Event : Type 0 where
  dispatch : (request response : HostObject) → Event
  check : Source → (param fail_msg : Value) → (calls : List (String × List Value)) → Event
  sanitize : (param : String) (given : Value) (name : String) (args : List Value) → Event
  update : (name : String) (given : Value) → Event
  json_schema : (filename : String) → Event
  on_validation_error : Value → Event
  render_template : (args : List Value) → Event
  call_request call_response : (name : String) (args : List Value) → Event

-- The event is one of a callback.
abbrev pub IsOwn : Event → Type 0
IsOwn (dispatch request response) = ⊥
IsOwn _ = Unit

module _ (w : World) where
  abbrev pub run_check : Result Check → List (String × List Value) → Session → Session
  run_check (throw err) calls s = s
  run_check (ok c) calls s = write_back (run_chain w.library w.options c live calls (view s)).1 s

  -- `renderWithRequest` with the host's request, from the table and with nothing sent yet
  abbrev pub rendering : HostObject → List Value → Session → Renderers
  rendering request args s =
      (render_with_request w.engine w.templates w.service
        (current_request s.wrappers.request request ∷ args)
        (record { functions = s.functions; sent = [] })).1

  -- `wrappedResponse.render`; before any request there is none.
  abbrev pub run_render : Option Property → List Value → Session → Session
  run_render (some (render request)) args s =
      send_all (lookup "send" s.wrappers.response) (rendering request args s).sent
        (record s { functions = (rendering request args s).functions })
  run_render _ args s = s

  unfoldable pub perform : Event → Session → Session
  unfolding wrap insert lookup view write_back assign_place check_param legacy_check
      legacy_check_json_schema run_chain body_getter params_getter query_getter check_getter
      header_getter call_sanitizer update_param check_json_schema render_with_request
      request_arguments
  perform (dispatch request response) s = record s { wrappers = wrap request response s.wrappers }
  perform (check source param fail_msg calls) s =
      run_check (check_of w.script w.engine (getter_of source w.engine (view s)) param fail_msg)
        calls s
  perform (sanitize param given name args) s =
      sanitized (forwarded (lookup "param" s.wrappers.request) (string param ∷ []))
        (call_sanitizer w.engine w.library param given name args (view s)) s
  perform (update name given) s = write_updated (update_param w.engine name given (view s)) s
  perform (json_schema filename) s = write_back (schema_check_of w.script filename (view s)).1 s
  perform (on_validation_error errback) s = put "onErrorCallback" (value errback) s
  perform (render_template args) s = run_render (lookup "render" s.wrappers.response) args s
  perform (call_request name args) s = note (forwarded (lookup name s.wrappers.request) args) s
  perform (call_response name args) s = note (forwarded (lookup name s.wrappers.response) args) s

  unfoldable pub perform_all : List Event → Session → Session
  unfolding perform
  perform_all [] s = s
  perform_all (event ∷ events) s = perform_all events (perform event s)
