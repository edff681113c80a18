-- ===== src/Session/Calls.antt =====
-- The host's functions that a callback calls
-- (core/src/main/resources/com/sandbox/runtime/v2/js/version_3/sandbox-patch.js, `wrapCallback`,
-- sandbox-validator.js, `filter`, and sandbox-templates.js).
pub mod Events
pub mod Steps
use worker_cli.Prelude.{
  Dict, Bool, if◌then◌else◌, true, ℕ, String, true, false, ◌≡◌, ◌≢◌, refl, sym, ap, ◌∙◌, Option,
  none, some, List, [], ◌∷◌, ◌++◌, map, All, lookup, lookup-insert_self, ◌==◌, append-nil,
  append_assoc,
}
use worker_cli.Js.{obj, Value, string, arr, Result}
use worker_cli.Validator.{Request}
use worker_cli.Validator.Sanitizers.{call_sanitizer}
use worker_cli.Templates.Laws.{Remembers, outputs}
use worker_cli.Wrapping.{
  Property, forward_request, forward_response, render, HostObject, Wrapped, wrap,
}
use worker_cli.Wrapping.Laws.{last_image, lookup-copy_request-some}
use worker_cli.Wrapping.Response.{last_response_image, lookup-wrap, lookup-wrap-some}
use worker_cli.Session.{
  view, World, HostCall, Session, note, forwarded, sanitized, Event, dispatch, check, sanitize,
  update, json_schema, on_validation_error, render_template, call_request, call_response, IsOwn,
  perform, perform_all,
}
use worker_cli.Session.Writes.{at, rest, note-wrappers, run_render-wrappers}
use worker_cli.Session.Frame.{IsFree}
use worker_cli.Session.Rendering.{table, sent_by, rendered_for, run_render-calls}
use worker_cli.Session.Private.{Reads, Offers, private_of, private_step}
use worker_cli.Validator.{Request}
use worker_cli.Session.Private.Served.{served}

-- The host's request has a function of the name.
abbrev pub HasRequest : HostObject → String → Type 0
HasRequest request name =
    last_image request.host name request.properties none ≡ some (forward_request request.host name)

-- The host's response has a function of the name.
abbrev pub HasResponse : HostObject → String → Type 0
HasResponse response name =
    last_response_image response.host name response.properties none
    ≡ some (forward_response response.host name)

-- The event is one of a callback, and the functions that it calls are among those of the host's
-- request and response.
abbrev pub IsOffered : HostObject → HostObject → Event → Type 0
IsOffered request response (dispatch other_request other_response) = ⊥
IsOffered request response (render_template args) = HasResponse response "send"
IsOffered request response (call_request name args) = IsFree name × HasRequest request name
IsOffered request response (call_response name args) =
    (("render" == name) ≡ false) × HasResponse response name
IsOffered request response _ = Unit

-- A single argument goes to the functions of the host's request in an array.
abbrev pub boxed : List Value → List Value
boxed (arg ∷ []) = arr (arg ∷ []) ∷ []
boxed args = args

-- Whether the host's request has a function `param`, which `filter` calls, or no property of the name
abbrev pub Filters : Bool → HostObject → Type 0
Filters true request = HasRequest request "param"
Filters false request = lookup "param" request.properties ≡ none

-- The host's request as it is when the callback has made of it what `now` holds: its parameters, query
-- and body are the objects that the callback sees.
abbrev pub property_now : Request → String → Value → Value
property_now now name v =
    if name == "params"
    then now.params
    else if name == "query"
    then now.query
    else if name == "body"
    then now.body
    else v

abbrev pub properties_now : Request → Dict Value → Dict Value
properties_now now [] = []
properties_now now ((name, v) ∷ properties) =
    (name, property_now now name v) ∷ properties_now now properties

module _ (w : World) (filters : Bool) (request response : HostObject) where
  -- The calls of the host that an event stands for, of the functions of this request and response,
  -- where the callback has made `now` of its request
  abbrev pub called_by : Event → Request → List HostCall
  called_by (sanitize param given name args) now =
      if filters
      then record { host = request.host; name = "param"; args = arr (string param ∷ []) ∷ [] } ∷ []
      else []
  called_by (render_template args) now =
      map (sent_by response.host)
        (rendered_for w (obj (properties_now now request.properties)) args)
  called_by (call_request name args) now =
      record { host = request.host; name = name; args = boxed args } ∷ []
  called_by (call_response name args) now =
      record { host = response.host; name = name; args = args } ∷ []
  called_by _ now = []

  -- The calls of a callback that begins with the request `now`, which no other callback shares
  abbrev pub calls_of : List Event → Request → List HostCall
  calls_of [] now = []
  calls_of (event ∷ events) now =
      called_by event now ++ calls_of events (private_step w filters event now)

  -- The wrapped objects have what the host's request and response have, and the request what the
  -- callback has made of it.
  pub record Serves (t : Session) (now : Request) : Type 0 where
    pub request_at :
        (k : String) (p : Property)
        → IsFree k
        → last_image request.host k request.properties none ≡ some p
        → at t k ≡ some p
    pub response_at :
        (k : String) (p : Property)
        → ("render" == k) ≡ false
        → last_response_image response.host k response.properties none ≡ some p
        → lookup k t.wrappers.response ≡ some p
    pub render_at : lookup "render" t.wrappers.response ≡ some (render request)
    pub remembers : Remembers w.service (table t)
    pub filter_at :
        at t "param" ≡ (if filters then some (forward_request request.host "param") else none)
    pub reads : Reads filters t now

-- The host's call of a callback with a request and a response, the data of the request, and what the
-- callback does
pub record Visit : Type 0 where
  pub request : HostObject
  pub response : HostObject
  pub params : Value
  pub query : Value
  pub body : Value
  pub headers : Value
  pub events : List Event

abbrev pub begun_with : Visit → Request
begun_with v = private_of v.params v.query v.body v.headers

module _ (w : World) where
  abbrev pub serve_all : List Visit → Session → Session
  serve_all [] s = s
  serve_all (v ∷ vs) s = serve_all vs (served w v.request v.response v.events s)

  abbrev pub all_calls : Bool → List Visit → List HostCall
  all_calls filters [] = []
  all_calls filters (v ∷ vs) =
      calls_of w filters v.request v.response v.events (begun_with v) ++ all_calls filters vs

-- The request has the data and a function `param` or not, and what the callback calls is offered by its
-- own request and response.
pub record IsOwnVisit (filters : Bool) (v : Visit) : Type 0 where
  pub offers : Offers v.request v.params v.query v.body v.headers
  pub has_filter : Filters filters v.request
  pub offered : All (IsOffered v.request v.response) v.events

-- A session to begin with: its table of render functions holds nothing or the service's, and no earlier
-- request has left a `param` where the requests have none.
pub record IsFresh (w : World) (filters : Bool) (s : Session) : Type 0 where
  pub remembers : Remembers w.service (table s)
  pub no_filter : filters ≡ false → at s "param" ≡ none
