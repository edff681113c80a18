-- ===== src/Validator/Errors/Laws.antt =====
-- What the reports say of the recorded errors
-- (core/src/main/resources/com/sandbox/runtime/v2/js/version_3/sandbox-validator.js,
-- `validationErrors`).
use worker_cli.Prelude.{
  ℕ, zero, suc, String, true, ◌≡◌, ◌↔◌, refl, ◌∙◌, Option, none, some, List, [], ◌∷◌, ◌++◌, All,
  Dict, lookup, insert, lookup-insert, ◌==◌, arith, Bool-cases, Option-cases, inl, inr,
  if◌then◌else◌,
}
use worker_cli.Js.{Value, truthy, Engine, ok}
use worker_cli.Validator.{Fault, Request, Library, Options, recorded}
use worker_cli.Validator.Checks.{Check, live, run_chain}
use worker_cli.Validator.Checks.Copies.{fault, copies, errors_after}
use worker_cli.Validator.Checks.Rejections.{Judged, rejections, run_chain-rejections}
use worker_cli.Validator.Errors.{
  Report, by_param, fault_key, map_errors, report_of, validation_errors,
}

-- The last of the errors that carries the parameter.
abbrev pub last_for : Engine → String → List Fault → Option Fault
last_for e k [] = none
last_for e k (f ∷ fs) = elim (last_for e k fs) [
  | some g ↦ some g
  | none ↦ if fault_key e f == k then some f else none
]

abbrev or_before : Option Fault → Option Fault → Option Fault
or_before (some g) before = some g
or_before none before = before

or_before-none : (o : Option Fault) → or_before o none ≡ o
or_before-none none = refl
or_before-none (some g) = refl

lookup-map_errors_from :
    (e : Engine) (k : String) (errors : Dict Fault) (errs : List Fault)
    → lookup k (map_errors e errors errs) ≡ or_before (last_for e k errs) (lookup k errors)
unfolding map_errors
lookup-map_errors_from e k errors [] = refl
lookup-map_errors_from e k errors (f ∷ fs) =
    rw (lookup-map_errors_from e k (insert (fault_key e f) f errors) fs) (
      rw (lookup-insert (fault_key e f) k f errors) (elim (Option-cases (last_for e k fs)) [
        | inl nothing ↦
            rw nothing
              (elim (Bool-cases (fault_key e f == k)) [ inl same ↦ rw same | inr other ↦ rw other ])
        | inr (g, found) ↦ rw found
      ]))

-- Where the request has a list of errors, and with a truthy argument, the report has, under each
-- parameter, the last error that was recorded for it, and nothing under a parameter with no error.
pub lookup-map_errors :
    (e : Engine) (mapped : Value) (req : Request) (errs : List Fault) (k : String)
    → truthy mapped ≡ true
    → req.errors ≡ some errs
    → (d : Dict Fault) × (validation_errors e mapped req ≡ by_param d)
      × (lookup k d ≡ last_for e k errs)
unfolding validation_errors lookup
lookup-map_errors e mapped req errs k t h = (
  map_errors e [] errs,
  rw (h, t),
  lookup-map_errors_from e k [] errs ∙ or_before-none (last_for e k errs),
)

is_null_iff_zero :
    (n : ℕ) (f : Fault) (e : Engine) (mapped : Value)
    → (report_of e mapped (errors_after n f none) ≡ Report.null) ↔ (n ≡ 0)
is_null_iff_zero zero f e mapped = (λ h. refl, λ h. refl)
is_null_iff_zero (suc n) f e mapped =
    (λ h. absurd (some-ne-null (recorded none ++ copies (suc n) f) h), λ h. absurd (omega arith))
  where
    some-ne-null : (errs : List Fault) → report_of e mapped (some errs) ≡ Report.null → ⊥
    some-ne-null errs h = elim (Bool-cases (truthy mapped)) [
      | inl by ↦ cc (rw by at h)
      | inr in_list ↦ cc (rw in_list at h)
    ]

-- A request with no recorded errors that goes through a chain of methods of the library, custom
-- methods, `notEmpty`, `len` and `optional` of a defined value, none of which throws, has null for its
-- `validationErrors`, in either form, exactly if none of the calls rejects the value.
pub validation_errors-run_chain :
    (l : Library) (o : Options) (c : Check) (e : Engine) (mapped : Value)
    (calls : List (String × List Value)) (req : Request)
    → All (Judged l o c) calls
    → req.errors ≡ none
    → (after : Request) × (run_chain l o c live calls req ≡ (ok live, after))
      × ((validation_errors e mapped after ≡ Report.null) ↔ (rejections l o c calls ≡ 0))
unfolding validation_errors
validation_errors-run_chain l o c e mapped calls req h fresh =
    let (after, runs, recorded_all) = run_chain-rejections l o c calls req h in
    (
      after,
      runs,
      rw (recorded_all.errors, fresh)
          (is_null_iff_zero (rejections l o c calls) (fault o c) e mapped),
    )
