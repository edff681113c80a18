-- ===== src/Tests/Rendering.antt =====
-- Templates that are rendered, and libraries that are loaded
-- (core/src/main/resources/com/sandbox/runtime/v2/js/version_3/sandbox-templates.js, and
-- sandbox-libraries.js beside it).
use worker_cli.Prelude.{◌≡◌, refl, some, List, [], ◌∷◌, lookup}
use worker_cli.Js.{Value, string, obj, arr, num, type_error, Result, ok, throw}
use worker_cli.Templates.{RenderHost, Renderers, parse_render, find_library, render_with_request}
use worker_cli.Libraries.{
  LibraryId, LibraryHost, Lazy, Log, get_library_object, Access, trap, traps, version_3,
}
use worker_cli.Libraries.Laws.{traps-loads, trap-direct}
use worker_cli.Tests.Samples.{plain_engine}

-- A service that gives back the name of the template.
abbrev pub echoing : RenderHost
echoing = record { render_liquid = λ service name locals. ok name }

abbrev nothing_sent : Renderers
nothing_sent = record { functions = []; sent = [] }

abbrev hello : List Value
hello = obj [] ∷ string "hello" ∷ []

abbrev rendered_hello : Result (Unit {0}) × Renderers
rendered_hello = render_with_request plain_engine echoing 1 hello nothing_sent

-- It is sent, and the function is kept.
sent_hello :
    (rendered_hello.0 ≡ ok tt)
    × (rendered_hello.1.sent ≡ string "hello" ∷ [])
    × (lookup "liquid" rendered_hello.1.functions ≡ some 1)
unfolding render_with_request find_library parse_render
sent_hello = (refl, refl, refl)

-- Every library gives the same object, and a call gives back its arguments.
abbrev evaluating : LibraryHost
evaluating = record {
  eval_library = λ id. ok (some 5);
  property = λ target name. ok (string name);
  call = λ target args. ok (arr args);
  construct = λ target args. throw type_error;
}

abbrev moment : LibraryId
moment = version_3.moment

abbrev two_uses : List Access
two_uses = Access.get "utc" ∷ Access.apply [] ∷ []

traps-loads_example : (traps evaluating (get_library_object moment) two_uses []).1 ≡ moment ∷ []
traps-loads_example = traps-loads evaluating moment 5 two_uses [] refl

-- A call with two arguments reaches the library with one, their array.
trap-direct_example :
    (lazy : Lazy) × (now : Log) × (traps evaluating (get_library_object moment) two_uses []
      ≡ (lazy, now))
    × ((trap evaluating lazy (Access.apply (num 1 ∷ num 2 ∷ [])) now).0
        ≡ ok (arr (arr (num 1 ∷ num 2 ∷ []) ∷ [])))
trap-direct_example =
    trap-direct evaluating moment 5 two_uses (Access.apply (num 1 ∷ num 2 ∷ [])) [] refl
