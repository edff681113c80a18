-- ===== src/Session/Isolation.antt =====
-- The errors of one request, whatever requests came before
-- (core/src/main/resources/com/sandbox/runtime/v2/js/version_3/sandbox-patch.js, `wrapCallback`,
-- and sandbox-validator.js, `validationErrors`).
use worker_cli.Prelude.{
  String, true, ◌≡◌, ◌↔◌, ap, none, List, All, lookup, lookup-insert_self, Option-cases, inl, inr,
}
use worker_cli.Js.{Value, Engine, Result, ok}
use worker_cli.Validator.{Request}
use worker_cli.Validator.Checks.{Check, Chain, live, run_chain}
use worker_cli.Validator.Checks.Rejections.{Judged, rejections}
use worker_cli.Validator.Errors.{Report, report_of, validation_errors}
use worker_cli.Validator.Errors.Laws.{validation_errors-run_chain}
use worker_cli.Wrapping.{faults, HostObject, wrap}
use worker_cli.Wrapping.Laws.{has_data, copy_request-IsCleared}
use worker_cli.Session.{
  check_of, World, Session, errors_of, view, write_back, Source, getter_of, dispatch, check,
  perform,
}

-- What was written back is what is read.
pub view-write_back :
    (req : Request) (s : Session)
    → (req.errors ≡ none → (view s).errors ≡ none)
    → (view (write_back req s)).errors ≡ req.errors
unfolding view write_back
view-write_back req s h = elim (Option-cases req.errors) [
  | inl unset ↦ rw unset (h unset)
  | inr (fs, found) ↦
      rw found
        (ap errors_of (lookup-insert_self "_validationErrors" (faults fs) s.wrappers.request))
]

pub perform-check :
    (w : World) (source : Source) (param fail_msg : Value) (calls : List (String × List Value))
    (c : Check) (chain : Result Chain) (after : Request) (s : Session)
    → check_of w.script w.engine (getter_of source w.engine (view s)) param fail_msg ≡ ok c
    → run_chain w.library w.options c live calls (view s) ≡ (chain, after)
    → perform w (check source param fail_msg calls) s ≡ write_back after s
unfolding perform
perform-check w source param fail_msg calls c chain after s made_check runs =
    rw (made_check) (rw runs)

validation_errors-errors :
    (e : Engine) (mapped : Value) (a b : Request)
    → a.errors ≡ b.errors
    → validation_errors e mapped a ≡ validation_errors e mapped b
unfolding validation_errors
validation_errors-errors e mapped a b same = ap (report_of e mapped) same

module _ (w : World) (s : Session) (request response : HostObject)
    (data_given : has_data request.properties ≡ true)
    (none_named : lookup "_validationErrors" request.properties ≡ none) where
  -- The session when the callback of the request begins.
  abbrev pub begun : Session
  begun = perform w (dispatch request response) s

  begun-errors : (view begun).errors ≡ none
  unfolding view perform wrap
  begun-errors = ap errors_of (
      copy_request-IsCleared request.host request.properties s.wrappers.request data_given
        none_named)

  -- With the validator of every version, and whatever went on before, in a request of which some
  -- property is no function, and none is named `_validationErrors`, a check that is made and whose
  -- methods test the value without throwing leaves null for `validationErrors`, in either form,
  -- exactly if none of its calls rejects the value: no error of an earlier request is reported.
  pub validation_errors-dispatch :
      (source : Source) (param fail_msg mapped : Value) (calls : List (String × List Value))
      (c : Check)
      → check_of w.script w.engine (getter_of source w.engine (view begun)) param fail_msg ≡ ok c
      → All (Judged w.library w.options c) calls
      → (validation_errors w.engine mapped
            (view (perform w (check source param fail_msg calls) begun))
          ≡ Report.null)
        ↔ (rejections w.library w.options c calls ≡ 0)
  validation_errors-dispatch source param fail_msg mapped calls c made_check judged =
      let (after, runs, reported) =
        validation_errors-run_chain w.library w.options c w.engine mapped calls (view begun) judged
          begun-errors in
      let reads = view-write_back after begun (λ h. begun-errors) in
      let says =
        validation_errors-errors w.engine mapped (view (write_back after begun)) after reads in
      rw (perform-check w source param fail_msg calls c (ok live) after begun made_check runs, says)
        reported
