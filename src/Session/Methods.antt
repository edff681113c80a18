-- ===== src/Session/Methods.antt =====
-- What stays under the names of the methods and of the errors
-- (core/src/main/resources/com/sandbox/runtime/v2/js/version_3/sandbox-patch.js, `wrapCallback`,
-- sandbox-validator.js and sandbox-templates.js).
pub mod Kept
use worker_cli.Prelude.{
  String, ◌≡◌, ◌≢◌, refl, ap, ◌∙◌, Option, none, some, List, [], ◌∷◌, All, lookup, Option-cases,
  inl, inr, lookup-insert_self,
}
use worker_cli.Js.{Value, undefined, Result, ok, throw}
use worker_cli.Validator.{Fault, Request}
use worker_cli.Validator.Checks.{Check, live, run_chain}
use worker_cli.Wrapping.{
  Property, value, faults, method, forward_request, forward_response, render, HostObject,
  validator_methods, made, wrap,
}
use worker_cli.Wrapping.Laws.{last_image-none, lookup-copy_request, copy_request-errors}
use worker_cli.Wrapping.Response.{last_response_image-none, lookup-wrap}
use worker_cli.Session.{
  World, HostCall, Session, opened, view, note, sanitized, schema_check_of, put_errors, write_back,
  write_places, write_updated, Event, dispatch, check, sanitize, update, json_schema,
  on_validation_error, render_template, call_request, call_response, IsOwn, run_check, perform,
  perform_all,
}
use worker_cli.Session.Writes.{at, at-put, at-write_places, note-wrappers, run_render-wrappers}
use worker_cli.Session.Frame.{IsFree, IsFree-distinct, IsOwn-Spares, at-perform, perform-response}

-- The errors are unset or an array of errors, and nothing else.
abbrev pub IsErrors : Option Property → Type 0
IsErrors none = Unit
IsErrors (some (value v)) = v ≡ undefined
IsErrors (some (faults fs)) = Unit
IsErrors _ = ⊥

abbrev pub HasMethods : Session → List String → Type 0
HasMethods s names = All (λ name. at s name ≡ some (method name)) names

-- The two objects have the methods of the validator and the templates, and errors that are so.
pub record IsFitted (s : Session) : Type 0 where
  pub methods : HasMethods s validator_methods
  pub renders : lookup "renderWithRequest" s.wrappers.response ≡ some (method "renderWithRequest")
  pub errors : IsErrors (at s "_validationErrors")

-- The host's objects have nothing under the names of the methods and of the errors.
abbrev pub LeavesMethods : Event → Type 0
LeavesMethods (dispatch request response) =
    All (λ name. lookup name request.properties ≡ none) validator_methods
    × (lookup "_validationErrors" request.properties ≡ none)
    × (lookup "renderWithRequest" response.properties ≡ none)
LeavesMethods _ = Unit

pub opened-IsFitted : IsFitted opened
unfolding made lookup
opened-IsFitted = record {
  methods = (
    refl,
    (
      refl,
      (
        refl,
        (refl, (refl, (refl, (refl, (refl, (refl, (refl, (refl, (refl, (refl, (refl, tt))))))))))),
      ),
    ),
  );
  renders = refl;
  errors = tt;
}
