-- ===== src/Validator/Checks/Rejections.antt =====
-- Chains of methods that test the value
-- (core/src/main/resources/com/sandbox/runtime/v2/js/version_3/sandbox-validator.js, `checkParam`
-- and its `errorHandler`).
use worker_cli.Prelude.{
  ℕ, String, true, false, ◌≡◌, refl, sym, ap, ◌∙◌, Option, none, some, List, [], ◌∷◌, ◌++◌, All,
  append-nil, ◌+◌, Bool-cases, inl, inr, if◌then◌else◌, ◌||◌,
}
use worker_cli.Js.{Value, boolean, truthy, is_undefined, Result, ok, throw}
use worker_cli.Validator.{Request, Library, Options, contains}
use worker_cli.Validator.Checks.{
  Check, live, Method, library, custom, not_empty, len, optional, array_is_length, message, one,
  error_handler, judge, find_method, call_is_length, run_method, call_method, run_chain,
}
use worker_cli.Validator.Checks.Copies.{fault, copies, copies_after, errors_after, errors_after-add}

abbrev pub rejects : Result Value → ℕ
rejects (throw e) = 0
rejects (ok v) = if truthy v then 0 else 1

-- What the error callback has been called with after `n` errors.
abbrev pub notified_after : ℕ → Value → Request → List Value
notified_after n msg req =
    if truthy req.on_error then req.notified ++ copies n msg else req.notified

module _ (o : Options) (c : Check) where
  -- `n` errors were recorded, with a call of the error callback for each if there is one.
  pub record Records (n : ℕ) (before after : Request) : Type 0 where
    pub errors : after.errors ≡ errors_after n (fault o c) before.errors
    pub notified : after.notified ≡ notified_after n (message c.fail_msg) before
    pub on_error : after.on_error ≡ before.on_error

  Records-none : (req : Request) → Records 0 req req
  Records-none req = record {
    errors = refl;
    notified = elim (Bool-cases (truthy req.on_error)) [
      | inl calls ↦ rw calls (sym (append-nil req.notified))
      | inr silent ↦ rw silent
    ];
    on_error = refl;
  }

  Records-one : (req : Request) → Records 1 req (error_handler o c (message c.fail_msg) req)
  Records-one req = elim (Bool-cases (truthy req.on_error)) [
    | inl calls ↦ rw calls (record { errors = refl; notified = rw calls; on_error = refl })
    | inr silent ↦ rw silent (record { errors = refl; notified = rw silent; on_error = refl })
  ]

  Records-trans : {m n : ℕ} {a b d : Request} → Records m a b → Records n b d → Records (m + n) a d
  Records-trans {m} {n} {a} {b} {d} x y = record {
    errors =
        y.errors
        ∙ ap (errors_after n (fault o c)) x.errors
        ∙ errors_after-add m n (fault o c) a.errors;
    notified = elim (Bool-cases (truthy a.on_error)) [
      | inl calls ↦ rw calls (
          copies_after m n (message c.fail_msg) a.notified b.notified d.notified
            (rw (x.on_error, calls) at y.notified) (rw calls at x.notified))
      | inr silent ↦ rw silent ((rw (x.on_error, silent) at y.notified) ∙ (rw silent at x.notified))
    ];
    on_error = y.on_error ∙ x.on_error;
  }

module _ (l : Library) (o : Options) (c : Check) where
  -- What `isLength` says, of the custom validators or of the library.
  abbrev pub length_verdict : List Value → Result Value
  length_verdict args =
      if contains o.custom_names "isLength"
      then o.call_custom "isLength" (c.value ∷ args)
      else l.call "isLength" (c.value ∷ args)

  -- What a method asks of the code behind it; `optional` asks nothing.
  abbrev pub verdict : Method → List Value → Result Value
  verdict (library name) args = l.call name (c.value ∷ args)
  verdict (custom name) args = o.call_custom name (c.value ∷ args)
  verdict not_empty args = length_verdict (one ∷ [])
  verdict len args = length_verdict args
  verdict optional args = ok (boolean true)
  verdict array_is_length args = ok (boolean true)

  -- `notEmpty` and `len` need an `isLength`; `optional` leaves the chain if the value is undefined, and
  -- so does the array's own `isLength`.
  abbrev pub Tests : Method → Type 0
  Tests (library name) = Unit
  Tests (custom name) = Unit
  Tests not_empty = (contains o.custom_names "isLength" || contains l.methods "isLength") ≡ true
  Tests len = (contains o.custom_names "isLength" || contains l.methods "isLength") ≡ true
  Tests optional = is_undefined c.value ≡ false
  Tests array_is_length = ⊥

  -- A call of a method that the chain has, which does not throw.
  abbrev pub Judged : String × List Value → Type 0
  Judged (name, args) =
      (m : Method) × (find_method l o name ≡ some m)
      × Tests m
      × ((v : Value) × (verdict m args ≡ ok v))

  abbrev pub rejects_by : Option Method → List Value → ℕ
  rejects_by none args = 0
  rejects_by (some m) args = rejects (verdict m args)

  -- How many of the calls reject the value.
  abbrev pub rejections : List (String × List Value) → ℕ
  rejections [] = 0
  rejections ((name, args) ∷ calls) = rejects_by (find_method l o name) args + rejections calls

  judged :
      (r : Result Value) (v : Value) (req : Request)
      → r ≡ ok v
      → (req' : Request) × (judge o c r req ≡ (ok live, req')) × Records o c (rejects r) req req'
  unfolding judge
  judged r v req gave = elim (Bool-cases (truthy v)) [
    | inl correct ↦ (req, rw gave (rw correct), rw gave (rw correct (Records-none o c req)))
    | inr wrong ↦ (
      error_handler o c (message c.fail_msg) req,
      rw gave (rw wrong),
      rw gave (rw wrong (Records-one o c req)),
    )
  ]

  length_judged :
      (args : List Value) (v : Value) (req : Request)
      → (contains o.custom_names "isLength" || contains l.methods "isLength") ≡ true
      → length_verdict args ≡ ok v
      → (req' : Request) × (call_is_length l o c args req ≡ (ok live, req'))
        × Records o c (rejects (length_verdict args)) req req'
  unfolding call_is_length
  length_judged args v req there gave = elim (Bool-cases (contains o.custom_names "isLength")) [
    | inl custom_one ↦ rw custom_one (judged _ v req (rw custom_one at gave))
    | inr not_custom ↦
        rw (not_custom, rw not_custom at there) (judged _ v req (rw not_custom at gave))
  ]

  method_judged :
      (m : Method) (args : List Value) (v : Value) (req : Request)
      → Tests m
      → verdict m args ≡ ok v
      → (req' : Request) × (run_method l o m c args req ≡ (ok live, req'))
        × Records o c (rejects (verdict m args)) req req'
  unfolding run_method
  method_judged (library name) args v req h gave = judged _ v req gave
  method_judged (custom name) args v req h gave = judged _ v req gave
  method_judged not_empty args v req h gave = length_judged (one ∷ []) v req h gave
  method_judged len args v req h gave = length_judged args v req h gave
  method_judged optional args v req h gave = (req, rw h, Records-none o c req)
  method_judged array_is_length args v req h gave = absurd h

  Judged-step :
      (name : String) (args : List Value) (req : Request)
      → Judged (name, args)
      → (req' : Request) × (call_method l o c live name args req ≡ (ok live, req'))
        × Records o c (rejects_by (find_method l o name) args) req req'
  unfolding call_method
  Judged-step name args req (m, found, h, (v, gave)) =
      rw (found, call_method) (method_judged m args v req h gave)

  -- A chain of methods of the library, custom methods, `notEmpty`, `len` and `optional` of a defined
  -- value, none of which throws, stays live to its end, whatever the methods say, and adds exactly one
  -- copy of the check's error, with one call of the error callback if there is one, for each call that
  -- rejects the value; without such a call the errors stay as they are, unset if they were.
  pub run_chain-rejections :
      (calls : List (String × List Value)) (req : Request)
      → All Judged calls
      → (req' : Request) × (run_chain l o c live calls req ≡ (ok live, req'))
        × Records o c (rejections calls) req req'
  unfolding run_chain
  run_chain-rejections [] req h = (req, refl, Records-none o c req)
  run_chain-rejections ((name, args) ∷ calls) req (j, js) =
      let (r, first, x) = Judged-step name args req j in
      let (t, rest, y) = run_chain-rejections calls r js in
      (t, rw (first, rest), Records-trans o c x y)
