-- ===== src/Tests/Registering.antt =====
-- Routes that are registered while files require each other
-- (core/src/main/resources/com/sandbox/runtime/v2/js/version_3/sandbox-patch.js).
use worker_cli.Prelude.{
  ◌≡◌, refl, Option, none, some, List, [], ◌∷◌, ◌++◌, ◌==◌, ◌||◌, if◌then◌else◌,
}
use worker_cli.Js.{Value, string, function, syntax_error, Result, ok, throw}
use worker_cli.Routes.{Definition, define_route, get_method, no_properties}
use worker_cli.Modules.{Exports, reference, Store, initial}
use worker_cli.Require.{
  Script, done, require, call_mock, define_call, soap_call, Host, require_from,
}
use worker_cli.Require.BigStep.{Requires}
use worker_cli.Require.BigStep.Sound.{Requires-of_require_from}
use worker_cli.Require.BigStep.Registers.{with_routes, Requires-frame}
use worker_cli.Require.BigStep.Accepted.{requires_calls, Registers, Requires-Registers}
use worker_cli.Tests.Loader.{store_after}

-- Two files: one requires the other twice and defines a route, the other defines one, and calls `soap`
-- without a callback and goes on.
abbrev app_script : Script
app_script =
    require "./routes" λ a.
      require "./routes" λ b. call_mock (define_call (string "/app" ∷ function 1 ∷ [])) λ r. done

abbrev routes_script : Script
routes_script =
    call_mock (define_call (string "/users" ∷ function 2 ∷ []))
      λ r. call_mock (soap_call (string "/soap" ∷ [])) λ q. done

abbrev service : Host
service = record {
  has_file = λ f. f == "app.js" || f == "routes.js";
  read_file = λ f. some f;
  compile = λ name contents. ok (if name == "app.js" then app_script else routes_script);
  parse_json = λ contents. throw syntax_error;
  mock_define = λ d. ok tt;
}

abbrev started : Option (Result Exports × Store)
started = require_from service 3 "app" none initial

abbrev running : Store
running = store_after started

started-eq : started ≡ some (ok (reference 0), running)
unfolding require_from
started-eq = refl

abbrev get_route : Value → Value → Definition
get_route path callback = record {
  action = define_route;
  path = path;
  method = get_method;
  properties = no_properties;
  callback = callback;
}

-- The file that is required twice has registered its route once, before that of the other.
registered_once :
    running.routes
    ≡ get_route (string "/users") (function 2) ∷ get_route (string "/app") (function 1) ∷ []
unfolding require_from
registered_once = refl

app-Requires : Requires service "app" none initial (ok (reference 0)) running
app-Requires =
    Requires-of_require_from service 3 "app" none initial (ok (reference 0)) running started-eq

Requires-frame_example :
    (routes : List Definition) × (running.routes ≡ routes)
    × ((before : List Definition)
        → Requires service "app" none
            (with_routes before initial)
            (ok (reference 0))
            (with_routes (before ++ routes) running))
Requires-frame_example =
    Requires-frame service "app" none initial (ok (reference 0)) running app-Requires

Requires-Registers_example :
    (routes : List Definition) × (running.routes ≡ routes)
    × Registers (requires_calls app-Requires) routes
Requires-Registers_example =
    Requires-Registers service "app" none initial (ok (reference 0)) running app-Requires
