-- ===== src/Tests/Routing.antt =====
-- Routes that a script defines, and what the callback of one reads
-- (core/src/main/resources/com/sandbox/runtime/v2/js/version_3/sandbox-patch.js).
use worker_cli.Prelude.{◌≡◌, ◌↔◌, ◌⊎◌, refl, some, List, [], ◌∷◌, lookup, Dict}
use worker_cli.Js.{Value, string, function, reference_error, ok, throw}
use worker_cli.Routes.{Definition, define_route, no_properties, define, soap}
use worker_cli.Routes.Laws.{Accepts, AcceptsSoap, define_iff, soap_total}
use worker_cli.Wrapping.{value, copy_request}
use worker_cli.Wrapping.Laws.{last_image, lookup-copy_request}

abbrev handler : Value
handler = function 1

abbrev users : List Value
users = string "/users" ∷ string "POST" ∷ handler ∷ []

abbrev users_route : Definition
users_route = record {
  action = define_route;
  path = string "/users";
  method = string "POST";
  properties = no_properties;
  callback = handler;
}

define_iff_example : (define users ≡ ok users_route) ↔ Accepts users users_route
define_iff_example = define_iff users users_route

-- An operation without a callback.
abbrev no_callback : List Value
no_callback = string "/soap" ∷ string "urn:op" ∷ []

soap_total_example :
    ((d : Definition) × (soap no_callback ≡ ok d) × AcceptsSoap no_callback d)
    ⊎ ((soap no_callback ≡ throw reference_error)
        × ((d : Definition) → AcceptsSoap no_callback d → ⊥))
soap_total_example = soap_total no_callback

-- The second of two requests has no `user`, and a `path` and a function of its own.
abbrev second_request : Dict Value
second_request = ("path", string "/b") ∷ ("get", function 3) ∷ []

lookup-copy_request_example :
    lookup "user" (copy_request 2 second_request (("user", value (string "ann")) ∷ []))
    ≡ last_image 2 "user" second_request (some (value (string "ann")))
unfolding lookup
lookup-copy_request_example =
    lookup-copy_request 2 second_request (("user", value (string "ann")) ∷ []) "user" (λ e. cc)

-- What the first request left is what the second one's callback reads.
user_of_earlier_request :
    lookup "user" (copy_request 2 second_request (("user", value (string "ann")) ∷ []))
    ≡ some (value (string "ann"))
unfolding lookup copy_request
user_of_earlier_request = refl
