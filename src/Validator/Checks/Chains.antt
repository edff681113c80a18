-- ===== src/Validator/Checks/Chains.antt =====
-- What a chain of calls records
-- (core/src/main/resources/com/sandbox/runtime/v2/js/version_3/sandbox-validator.js, `checkParam`
-- and its `errorHandler`).
use worker_cli.Prelude.{
  ℕ, suc, String, ◌≡◌, refl, sym, ◌∙◌, none, List, [], ◌∷◌, ◌++◌, arith, append-nil, length, ◌≤◌,
  ◌+◌, Bool-cases, Option-cases, inl, inr,
}
use worker_cli.Js.{Value, truthy, Result, ok, throw}
use worker_cli.Validator.{Request, Library, Options, contains, recorded}
use worker_cli.Validator.Checks.{
  Check, Chain, live, dummy, other, Method, library, custom, not_empty, len, optional,
  array_is_length, message, error_handler, judge, find_method, call_is_length, run_method,
  call_method, go_on, run_chain,
}
use worker_cli.Validator.Checks.Copies.{fault, copies, copies_after}

-- From the one request to the other, at most `limit` copies of the error were added, the errors were
-- not unset, and no other field that the scripts read was changed.
pub record Adds (o : Options) (c : Check) (limit : ℕ) (before after : Request) : Type 0 where
  pub count : ℕ
  pub bounded : count ≤ limit
  pub errors : recorded after.errors ≡ recorded before.errors ++ copies count (fault o c)
  pub kept : after.errors ≡ none → before.errors ≡ none
  pub params : after.params ≡ before.params
  pub query : after.query ≡ before.query
  pub body : after.body ≡ before.body
  pub headers : after.headers ≡ before.headers

module _ (l : Library) (o : Options) (c : Check) where
  Adds-none : (limit : ℕ) (req : Request) → Adds o c limit req req
  Adds-none limit req = record {
    count = 0;
    bounded = omega arith;
    errors = sym (append-nil _);
    kept = λ h. h;
    params = refl;
    query = refl;
    body = refl;
    headers = refl;
  }

  Adds-trans : {m n : ℕ} {a b d : Request} → Adds o c m a b → Adds o c n b d → Adds o c (m + n) a d
  Adds-trans {a} x y = record {
    count = x.count + y.count;
    bounded = omega (arith, x.bounded, y.bounded);
    errors = copies_after x.count y.count (fault o c) _ _ _ y.errors x.errors;
    kept = λ h. x.kept (y.kept h);
    params = y.params ∙ x.params;
    query = y.query ∙ x.query;
    body = y.body ∙ x.body;
    headers = y.headers ∙ x.headers;
  }

  weaken : {m n : ℕ} {a b : Request} → m ≤ n → Adds o c m a b → Adds o c n a b
  weaken h x = record {
    count = x.count;
    bounded = omega arith;
    errors = x.errors;
    kept = x.kept;
    params = x.params;
    query = x.query;
    body = x.body;
    headers = x.headers;
  }

  -- The callback's turn touches none of these fields.
  error_handler-Adds : (req : Request) → Adds o c 1 req (error_handler o c (message c.fail_msg) req)
  error_handler-Adds req = elim (Bool-cases (truthy req.on_error)) [
    | inl calls ↦ rw calls (record {
      count = 1;
      bounded = omega arith;
      errors = refl;
      kept = λ h. cc;
      params = refl;
      query = refl;
      body = refl;
      headers = refl;
    })
    | inr silent ↦ rw silent (record {
      count = 1;
      bounded = omega arith;
      errors = refl;
      kept = λ h. cc;
      params = refl;
      query = refl;
      body = refl;
      headers = refl;
    })
  ]

  judge-Adds : (r : Result Value) (req : Request) → Adds o c 1 req (judge o c r req).1
  unfolding judge
  judge-Adds (throw e) req = Adds-none 1 req
  judge-Adds (ok v) req = elim (Bool-cases (truthy v)) [
    | inl correct ↦ rw correct (Adds-none 1 req)
    | inr wrong ↦ rw wrong (error_handler-Adds req)
  ]

  call_is_length-Adds :
      (args : List Value) (req : Request) → Adds o c 1 req (call_is_length l o c args req).1
  unfolding call_is_length
  call_is_length-Adds args req = elim (Bool-cases (contains o.custom_names "isLength")) [
    | inl custom_one ↦ rw custom_one (judge-Adds _ req)
    | inr not_custom ↦ elim (Bool-cases (contains l.methods "isLength")) [
      | inl library_one ↦ rw (not_custom, library_one) (judge-Adds _ req)
      | inr missing ↦ rw (not_custom, missing) (Adds-none 1 req)
    ]
  ]

  run_method-Adds :
      (m : Method) (args : List Value) (req : Request)
      → Adds o c 1 req (run_method l o m c args req).1
  unfolding run_method
  run_method-Adds (library name) args req = judge-Adds _ req
  run_method-Adds (custom name) args req = judge-Adds _ req
  run_method-Adds not_empty args req = call_is_length-Adds _ req
  run_method-Adds len args req = call_is_length-Adds args req
  run_method-Adds optional args req = Adds-none 1 req
  run_method-Adds array_is_length args req = Adds-none 1 req

  call_method-Adds :
      (chain : Chain) (name : String) (args : List Value) (req : Request)
      → Adds o c 1 req (call_method l o c chain name args req).1
  unfolding call_method
  call_method-Adds live name args req = elim (Option-cases (find_method l o name)) [
    | inl unknown ↦ rw (unknown, call_method) (Adds-none 1 req)
    | inr (m, found) ↦ rw (found, call_method) (run_method-Adds m args req)
  ]
  call_method-Adds dummy name args req = elim (Option-cases (find_method l o name)) [
    | inl unknown ↦ rw (unknown, call_method) (Adds-none 1 req)
    | inr (m, found) ↦ rw (found, call_method) (Adds-none 1 req)
  ]
  call_method-Adds (other v) name args req = Adds-none 1 req

  go_on-Adds :
      {n : ℕ} {req : Request} (next : Chain → Request → Result Chain × Request)
      (p : Result Chain × Request)
      → Adds o c 1 req p.1
      → ((chain : Chain) (r : Request) → Adds o c n r (next chain r).1)
      → Adds o c (suc n) req (go_on next p).1
  go_on-Adds next (ok chain, r) first rest = weaken (omega arith) (Adds-trans first (rest chain r))
  go_on-Adds next (throw err, r) first rest = weaken (omega arith) first

  -- A chain of calls, whether it ends or throws, only adds copies of the one error of its check, at
  -- most one for each call, behind the errors that were there, never unsets them, and leaves the
  -- parameters, the query, the body and the headers of the request as they are.
  pub run_chain-Adds :
      (chain : Chain) (calls : List (String × List Value)) (req : Request)
      → Adds o c (length calls) req (run_chain l o c chain calls req).1
  unfolding run_chain
  run_chain-Adds chain [] req = Adds-none 0 req
  run_chain-Adds chain ((name, args) ∷ calls) req =
      go_on-Adds (λ chain' req'. run_chain l o c chain' calls req')
        (call_method l o c chain name args req) (call_method-Adds chain name args req)
        (λ chain' req'. run_chain-Adds chain' calls req')
