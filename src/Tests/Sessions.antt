-- ===== src/Tests/Sessions.antt =====
-- Two requests one after the other
-- (core/src/main/resources/com/sandbox/runtime/v2/js/version_3/sandbox-patch.js).
use worker_cli.Prelude.{insert, false, ◌≡◌, ◌↔◌, refl, inl, List, [], ◌∷◌, ◌++◌, lookup, split, All}
use worker_cli.Js.{Value, undefined, string, function, obj, arr, ok}
use worker_cli.Validator.{Request}
use worker_cli.Validator.Checks.{check_param}
use worker_cli.Validator.Checks.Copies.{copies}
use worker_cli.Validator.Checks.Rejections.{rejections}
use worker_cli.Validator.Errors.{Report, validation_errors}
use worker_cli.Validator.Sanitizers.{update_param, owns, assign_query}
use worker_cli.Wrapping.{wrap, HostObject, made}
use worker_cli.Session.{
  World, current, Session, update, sanitize, json_schema, render_template, opened, view, query,
  getter_of, Event, dispatch, check, on_validation_error, perform, perform_all, call_request,
  call_response,
}
use worker_cli.Session.Isolation.{validation_errors-dispatch}
use worker_cli.Session.Persistence.{Leaves, notified-perform_all}
use worker_cli.Session.Methods.{IsFitted, LeavesMethods, opened-IsFitted}
use worker_cli.Session.Methods.Kept.{perform_all-IsFitted}
use worker_cli.Session.Calls.{Visit, serve_all, all_calls, IsOwnVisit, IsFresh}
use worker_cli.Session.Calls.Steps.{serve_all-calls}
use worker_cli.Session.Private.{Offers, Reads, private_run, private_of}
use worker_cli.Session.Private.Served.{served, served-Reads}
use worker_cli.Tests.Rendering.{echoing}
use worker_cli.Tests.Schemes.{schemas}
use worker_cli.Tests.Samples.{plain_engine}
use worker_cli.Tests.Checking.{two_methods, defaults, answer, twice, twice-Judged}

abbrev world : World
world = record {
  engine = plain_engine;
  library = two_methods;
  options = defaults;
  script = current schemas;
  templates = echoing;
  service = 1;
}

abbrev no_request : HostObject
no_request = record { host = 1; properties = ("query", obj (("answer", string "no") ∷ [])) ∷ [] }

abbrev no_response : HostObject
no_response = record { host = 2; properties = ("send", function 4) ∷ ("render", function 5) ∷ [] }

abbrev errback : Value
errback = function 9

-- A request whose callback registers an error callback and records two errors.
abbrev history : List Event
history =
    dispatch no_request no_response
    ∷ on_validation_error errback
    ∷ check query (string "answer") undefined twice
    ∷ []

abbrev before : Session
before = perform_all world history opened

history-LeavesMethods : All LeavesMethods history
unfolding lookup
history-LeavesMethods = (
  (
    (
      refl,
      (
        refl,
        (
          refl,
          (
            refl,
            (refl, (refl, (refl, (refl, (refl, (refl, (refl, (refl, (refl, (refl, tt)))))))))),
          ),
        ),
      ),
    ),
    refl,
    refl,
  ),
  (tt, (tt, tt)),
)

perform_all-IsFitted_example : IsFitted before
perform_all-IsFitted_example =
    perform_all-IsFitted world history opened history-LeavesMethods opened-IsFitted

abbrev next_begun : Session
next_begun = perform world (dispatch no_request no_response) before

answer_made :
    check_param plain_engine
      (getter_of query plain_engine (view next_begun))
      (string "answer")
      undefined
    ≡ ok answer
unfolding perform_all check_param split made
answer_made = refl

validation_errors-dispatch_example :
    (validation_errors plain_engine undefined
        (view (perform world (check query (string "answer") undefined twice) next_begun))
      ≡ Report.null)
    ↔ (rejections two_methods defaults answer twice ≡ 0)
validation_errors-dispatch_example =
    validation_errors-dispatch world before no_request no_response refl (unfold lookup in refl)
      query (string "answer") undefined undefined twice answer answer_made twice-Judged

-- The next request, after the callback was registered.
abbrev next : List Event
next = dispatch no_request no_response ∷ []

abbrev next_session : Session
next_session = perform_all world (on_validation_error errback ∷ next) opened

answer_made_next :
    check_param plain_engine
      (getter_of query plain_engine (view next_session))
      (string "answer")
      undefined
    ≡ ok answer
unfolding perform_all check_param split made
answer_made_next = refl

next-Leaves : All Leaves next
unfolding lookup
next-Leaves = (refl, tt)

notified-perform_all_example :
    ((view next_session).on_error ≡ errback)
    × ((perform world (check query (string "answer") undefined twice) next_session).notified
        ≡ next_session.notified
          ++ copies (rejections two_methods defaults answer twice) (string "Invalid value"))
notified-perform_all_example =
    notified-perform_all world errback next opened next_session query (string "answer") undefined
      twice answer refl next-Leaves refl answer_made_next twice-Judged

-- A request with the data and functions of the host's, after the requests of `history`; there is no
-- `param` among them.
abbrev full_request : HostObject
full_request = record {
  host = 3;
  properties =
      ("params", obj [])
      ∷ ("query", obj (("answer", string " no ") ∷ []))
      ∷ ("body", obj [])
      ∷ ("headers", obj [])
      ∷ ("get", function 4)
      ∷ ("is", function 6)
      ∷ [];
}

full-Offers : Offers full_request (obj []) (obj (("answer", string " no ") ∷ [])) (obj []) (obj [])
unfolding lookup
full-Offers = record {
  has_params = refl;
  has_query = refl;
  has_body = refl;
  has_headers = refl;
  no_errors = refl;
}

-- The parameter is set and checked, the body is checked, and an answer is rendered; `filter` throws.
abbrev full_body : List Event
full_body =
    sanitize "answer" (string " no ") "trim" []
    ∷ update "answer" (string "yes")
    ∷ check query (string "answer") undefined twice
    ∷ json_schema "user"
    ∷ render_template (string "hello" ∷ [])
    ∷ []

abbrev alone : Request
alone =
    private_run world false full_body
      (private_of (obj []) (obj (("answer", string " no ") ∷ [])) (obj []) (obj []))

served-Reads_example :
    Reads false (served world full_request no_response full_body before) alone
    × (validation_errors plain_engine undefined
          (view (served world full_request no_response full_body before))
        ≡ validation_errors plain_engine undefined alone)
unfolding perform_all made wrap
served-Reads_example =
    served-Reads world full_request no_response (obj []) (obj (("answer", string " no ") ∷ []))
      (obj []) (obj []) full-Offers before full_body undefined (tt, (tt, (tt, (tt, (tt, tt)))))

-- A service that gives back the locals of the template
abbrev revealing : World
revealing = record world { templates = record { render_liquid = λ service name locals. ok locals } }

-- Two callbacks: the first one sets a parameter and renders, and the second one asks its request twice
-- and sends a value.
abbrev visits : List Visit
visits =
    record {
      request = full_request;
      response = no_response;
      params = obj [];
      query = obj (("answer", string " no ") ∷ []);
      body = obj [];
      headers = obj [];
      events =
          sanitize "answer" (string " no ") "trim" []
          ∷ update "answer" (string "yes")
          ∷ render_template (string "hello" ∷ [])
          ∷ [];
    }
    ∷ record {
      request = full_request;
      response = record { host = 5; properties = ("send", function 8) ∷ [] };
      params = obj [];
      query = obj (("answer", string " no ") ∷ []);
      body = obj [];
      headers = obj [];
      events =
          call_request "get" (string "answer" ∷ [])
          ∷ call_request "is" (string "answer" ∷ string "again" ∷ [])
          ∷ call_response "send" (string "yes" ∷ [])
          ∷ [];
    }
    ∷ []

visits-IsOwnVisit : All (IsOwnVisit false) visits
unfolding lookup
visits-IsOwnVisit = (
  record { offers = full-Offers; has_filter = refl; offered = (tt, (tt, (refl, tt))) },
  (
    record {
      offers = full-Offers;
      has_filter = refl;
      offered = (
        (((refl, refl, refl, refl), refl), refl),
        ((((refl, refl, refl, refl), refl), refl), ((refl, refl), tt)),
      );
    },
    tt,
  ),
)

opened-IsFresh : IsFresh revealing false opened
unfolding lookup made
opened-IsFresh = record { remembers = inl refl; no_filter = λ h. refl }

serve_all-calls_example :
    (serve_all revealing visits opened).calls ≡ [] ++ all_calls revealing false visits
serve_all-calls_example =
    serve_all-calls revealing false visits opened visits-IsOwnVisit opened-IsFresh

-- What the theorem says of these two, written out
visits_calls :
    all_calls revealing false visits
    ≡ record {
      host = 2;
      name = "send";
      args =
          obj (
            ("res", obj [])
            ∷ ("data", obj [])
            ∷ (
              "req",
              obj (
                  ("params", obj [])
                  ∷ ("query", obj (("answer", string "yes") ∷ []))
                  ∷ ("body", obj [])
                  ∷ ("headers", obj [])
                  ∷ ("get", function 4)
                  ∷ ("is", function 6)
                  ∷ []),
            )
            ∷ [])
          ∷ [];
    }
      ∷ record { host = 3; name = "get"; args = arr (string "answer" ∷ []) ∷ [] }
      ∷ record { host = 3; name = "is"; args = string "answer" ∷ string "again" ∷ [] }
      ∷ record { host = 5; name = "send"; args = string "yes" ∷ [] }
      ∷ []
unfolding update_param lookup insert owns assign_query
visits_calls = refl
