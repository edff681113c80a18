-- ===== src/Tests/Filtering.antt =====
-- What `filter` writes back to a request
-- (core/src/main/resources/com/sandbox/runtime/v2/js/version_3/sandbox-validator.js).
use worker_cli.Prelude.{◌≡◌, refl, none, some, [], lookup, split, starts_with}
use worker_cli.Js.{undefined, string, obj, ok, Fields, end, field}
use worker_cli.Validator.{Request, is_sanitizer}
use worker_cli.Validator.Sanitizers.Laws.{
  in_query, place_of, with_objects, Written, update_param-frame,
}
use worker_cli.Validator.Checks.{check_param}
use worker_cli.Validator.Sanitizers.{call_sanitizer}
use worker_cli.Validator.Sanitizers.Checked.{getter_at, check_param-call_sanitizer}
use worker_cli.Tests.Checking.{two_methods}
use worker_cli.Tests.Samples.{plain_engine}

abbrev untrimmed : Fields
untrimmed = field "name" (string " ann ") end

abbrev unchecked : Request
unchecked = record {
  params = undefined;
  query = undefined;
  body = undefined;
  headers = obj [];
  errors = none;
  on_error = undefined;
  notified = [];
}

abbrev untrimmed_request : Request
untrimmed_request = with_objects end untrimmed untrimmed unchecked

update_param-frame_example :
    (after : Request) × Written plain_engine "name"
      (string "ann")
      untrimmed_request
      (place_of untrimmed_request "name")
      after
update_param-frame_example =
    update_param-frame plain_engine "name" (λ fs. refl) (string "ann") end untrimmed untrimmed
      unchecked (unfold lookup in refl)

-- The query is first: the body keeps its text.
written_to_query : place_of untrimmed_request "name" ≡ some in_query
unfolding lookup
written_to_query = refl

-- The value that is trimmed is the one that the check tests.
check_param-call_sanitizer_example :
    (after : Request) × (call_sanitizer plain_engine two_methods "name"
        (string " ann ")
        "trim"
        []
        untrimmed_request
      ≡ ok (string "trimmed", after))
    × (check_param plain_engine (getter_at in_query plain_engine after) (string "name") undefined
        ≡ ok (record { param = "name"; fail_msg = undefined; value = string "trimmed" }))
unfolding is_sanitizer starts_with
check_param-call_sanitizer_example =
    check_param-call_sanitizer plain_engine two_methods "name" "trim" (string " ann ")
      (string "trimmed") undefined [] end untrimmed untrimmed unchecked in_query (λ fs. refl)
      (unfold lookup in refl) (unfold lookup in refl) refl refl refl (unfold split in refl) refl
