-- ===== src/Session/Private/Served.antt =====
-- A callback on the shared objects, from the host's call to its end
-- (core/src/main/resources/com/sandbox/runtime/v2/js/version_3/sandbox-patch.js, `wrapCallback`,
-- and sandbox-validator.js).
use worker_cli.Prelude.{
  ℕ, String, Bool, true, false, ◌≡◌, ◌≢◌, refl, ap, Option, none, some, List, [], ◌∷◌, All, Dict,
  lookup, ◌==◌, Bool-cases, inl, inr,
}
use worker_cli.Js.{Value}
use worker_cli.Validator.Errors.{validation_errors, report_of}
use worker_cli.Wrapping.{Property, value, HostObject, is_function, wrap}
use worker_cli.Wrapping.Laws.{
  image, has_data, last_image, lookup-copy_request-some, copy_request-IsCleared,
}
use worker_cli.Session.{
  IsOwn, World, Session, errors_of, view, Event, dispatch, perform, perform_all,
}
use worker_cli.Session.Private.{callable, private_run, Offers, private_of, Reads}
use worker_cli.Session.Private.Refines.{Reads-perform_all}

abbrev holds_value : Option Property → Bool
holds_value (some (value v)) = true
holds_value _ = false

image-function :
    (host : ℕ) (name : String) (v : Value)
    → is_function v ≡ true
    → holds_value (some (image host name v)) ≡ false
image-function host name v f = rw f

-- A request all of whose properties are functions has a value under no name.
no_value :
    (host : ℕ) (k : String) (properties : Dict Value) (old : Option Property)
    → has_data properties ≡ false
    → holds_value old ≡ false
    → holds_value (last_image host k properties old) ≡ false
no_value host k [] old h before = before
no_value host k ((name, v) ∷ properties) old h before = elim (Bool-cases (is_function v)) [
  | inr plain ↦ cc (rw plain at h)
  | inl f ↦ no_value host k properties _ (rw f at h) (elim (Bool-cases (name == k)) [
    | inl same ↦ rw same (image-function host name v f)
    | inr other ↦ rw other before
  ])
]

has_data_of_value :
    (host : ℕ) (k : String) (properties : Dict Value) (v : Value)
    → last_image host k properties none ≡ some (value v)
    → has_data properties ≡ true
has_data_of_value host k properties v h = elim (Bool-cases (has_data properties)) [
  | inl data_given ↦ data_given
  | inr none_given ↦ cc (rw h at (no_value host k properties none none_given refl))
]

-- The session after the callback.
abbrev pub served : World → HostObject → HostObject → List Event → Session → Session
served w request response events s = perform_all w (dispatch request response ∷ events) s

module _ (w : World) (request response : HostObject) (params query body headers : Value)
    (offers : Offers request params query body headers) (s : Session) where
  there :
      (k : String) (p : Property)
      → k ≢ "_validationErrors"
      → last_image request.host k request.properties none ≡ some p
      → lookup k (perform w (dispatch request response) s).wrappers.request ≡ some p
  unfolding perform wrap
  there k p other h =
      lookup-copy_request-some request.host request.properties s.wrappers.request k p other h

  pub Reads-dispatch :
      Reads
        (callable (lookup "param" (perform w (dispatch request response) s).wrappers.request))
        (perform w (dispatch request response) s)
        (private_of params query body headers)
  unfolding perform wrap
  Reads-dispatch = record {
    params = there "params" (value params) (λ p. cc) offers.has_params;
    query = there "query" (value query) (λ p. cc) offers.has_query;
    body = there "body" (value body) (λ p. cc) offers.has_body;
    headers = there "headers" (value headers) (λ p. cc) offers.has_headers;
    param = refl;
    errors = ap errors_of (
        copy_request-IsCleared request.host request.properties s.wrappers.request
          (has_data_of_value request.host "params" request.properties params offers.has_params)
          offers.no_errors);
  }

  -- The shared request serves a callback as a request of its own would, whatever requests came
  -- before and with the validator of every version: where the host's request has values for its
  -- parameters, query, body and headers and nothing under the name of the errors, then after any
  -- checks, sanitizers, updates, schema checks, error callbacks, renderings and calls of the host of
  -- the callback the shared request holds the same parameters, query, body, headers and errors as one
  -- that no other callback has touched and that went through the same, and `validationErrors` reports
  -- the same of both. `filter` is part of the same: it does nothing where the wrapped request has no
  -- function `param` when the callback begins.
  pub served-Reads :
      (events : List Event) (mapped : Value)
      → All IsOwn events
      → let filters =
          callable (lookup "param" (perform w (dispatch request response) s).wrappers.request) in
        let alone = private_run w filters events (private_of params query body headers) in
        Reads filters (served w request response events s) alone
        × (validation_errors w.engine mapped (view (served w request response events s))
            ≡ validation_errors w.engine mapped alone)
  unfolding perform_all validation_errors view
  served-Reads events mapped own =
      let filters =
        callable (lookup "param" (perform w (dispatch request response) s).wrappers.request) in
      let reads = Reads-perform_all w filters events own Reads-dispatch in
      (reads, ap (report_of w.engine mapped) reads.errors)
