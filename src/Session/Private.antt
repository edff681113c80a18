-- ===== src/Session/Private.antt =====
-- A callback on the shared objects, against a callback with a request of its own
-- (core/src/main/resources/com/sandbox/runtime/v2/js/version_3/sandbox-patch.js, `wrapCallback`, and
-- sandbox-validator.js).
pub mod Refines
pub mod Served
use worker_cli.Prelude.{
  Bool, true, false, Option, if◌then◌else◌, ℕ, String, ◌≡◌, none, some, List, [], ◌∷◌, lookup, Dict,
}
use worker_cli.Js.{Value, undefined, Result, ok, throw}
use worker_cli.Validator.{Fault, Request}
use worker_cli.Validator.Checks.{Check, live, run_chain}
use worker_cli.Validator.Sanitizers.{update_param, call_sanitizer}
use worker_cli.Schemas.{check_json_schema}
use worker_cli.Wrapping.{Property, value, forward_request, forward_response, HostObject}
use worker_cli.Wrapping.Laws.{has_data, last_image}
use worker_cli.Session.{
  check_of, schema_check_of, World, Session, errors_of, getter_of, Event, dispatch, check, sanitize,
  update, json_schema, on_validation_error, render_template, call_request, call_response,
}

-- The property is one of the host's functions.
abbrev pub callable : Option Property → Bool
callable (some (forward_request host name)) = true
callable (some (forward_response host name)) = true
callable _ = false

module _ (w : World) where
  abbrev pub checked : Result Check → List (String × List Value) → Request → Request
  checked (throw err) calls req = req
  checked (ok c) calls req = (run_chain w.library w.options c live calls req).1

  abbrev pub updated : Result (Value × Request) → Request → Request
  updated (throw err) req = req
  updated (ok (returned, after)) req = after

  -- What an event of a callback does to a request that no other callback shares, and that has no
  -- error callback. `filters` says whether the request has a function `param`: without one, `filter`
  -- throws before it does anything.
  abbrev pub private_step : Bool → Event → Request → Request
  private_step filters (dispatch request response) req = req
  private_step filters (check source param fail_msg calls) req =
      checked (check_of w.script w.engine (getter_of source w.engine req) param fail_msg) calls req
  private_step filters (sanitize param given name args) req =
      if filters
      then updated (call_sanitizer w.engine w.library param given name args req) req
      else req
  private_step filters (update name given) req = updated (update_param w.engine name given req) req
  private_step filters (json_schema filename) req = (schema_check_of w.script filename req).1
  private_step filters (on_validation_error errback) req = req
  private_step filters (render_template args) req = req
  private_step filters (call_request name args) req = req
  private_step filters (call_response name args) req = req

  abbrev pub private_run : Bool → List Event → Request → Request
  private_run filters [] req = req
  private_run filters (event ∷ events) req =
      private_run filters events (private_step filters event req)

-- The host's request has values, and no functions, for its parameters, query, body and headers, and
-- nothing under the name of the errors.
pub record Offers (request : HostObject) (params query body headers : Value) : Type 0 where
  pub has_params : last_image request.host "params" request.properties none ≡ some (value params)
  pub has_query : last_image request.host "query" request.properties none ≡ some (value query)
  pub has_body : last_image request.host "body" request.properties none ≡ some (value body)
  pub has_headers : last_image request.host "headers" request.properties none ≡ some (value headers)
  pub no_errors : lookup "_validationErrors" request.properties ≡ none

-- The request before its callback begins.
abbrev pub private_of : (params query body headers : Value) → Request
private_of params query body headers = record {
  params = params;
  query = query;
  body = body;
  headers = headers;
  errors = none;
  on_error = undefined;
  notified = [];
}

-- The wrapped request of the session holds what the request holds, and has a function `param` or not.
pub record Reads (filters : Bool) (s : Session) (req : Request) : Type 0 where
  pub params : lookup "params" s.wrappers.request ≡ some (value req.params)
  pub query : lookup "query" s.wrappers.request ≡ some (value req.query)
  pub body : lookup "body" s.wrappers.request ≡ some (value req.body)
  pub headers : lookup "headers" s.wrappers.request ≡ some (value req.headers)
  pub param : callable (lookup "param" s.wrappers.request) ≡ filters
  pub errors : errors_of (lookup "_validationErrors" s.wrappers.request) ≡ req.errors
