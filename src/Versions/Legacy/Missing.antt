-- ===== src/Versions/Legacy/Missing.antt =====
-- Parameters that a request does not have, with the older validator
-- (core/src/main/resources/com/sandbox/runtime/v2/js/version_2/sandbox-validator.js, `checkParam`).
use worker_cli.Prelude.{String, ◌≡◌, refl, some, List, [], ◌∷◌, ◌++◌, All}
use worker_cli.Js.{Value, undefined, Engine, Result, ok, throw, ◌>>=◌}
use worker_cli.Validator.{Request, Library, Options}
use worker_cli.Validator.Params.{Getter, parse_param, param_name}
use worker_cli.Validator.Checks.{Check, Method, live, dummy, find_method, call_method, run_chain}
use worker_cli.Versions.Legacy.{legacy_step, legacy_value, legacy_check}

bind-ok : {A : Type 0} (r : Result A) → (r >>= λ a. ok a) ≡ r
bind-ok (ok a) = refl
bind-ok (throw e) = refl

-- With the older validator, a path whose parts but the last are all missing reads the last one as
-- if it stood alone: a field at the top stands in for the nested one.
pub legacy_value-append :
    (e : Engine) (getter : Getter) (missing : List Value) (part : Value)
    → All (λ p. getter p ≡ ok undefined) missing
    → legacy_value e getter (missing ++ part ∷ []) ≡ getter part
unfolding legacy_value legacy_step
legacy_value-append e getter [] part h = bind-ok (getter part)
legacy_value-append e getter (p ∷ missing) part (gone, h) =
    rw gone (legacy_value-append e getter missing part h)

module _ (l : Library) (o : Options) where
  -- The methods that the chain has.
  abbrev pub Offered : String × List Value → Type 0
  Offered (name, args) = (m : Method) × (find_method l o name ≡ some m)

  run_chain-dummy :
      (c : Check) (calls : List (String × List Value)) (req : Request)
      → All Offered calls
      → run_chain l o c dummy calls req ≡ (ok dummy, req)
  unfolding run_chain call_method
  run_chain-dummy c [] req h = refl
  run_chain-dummy c ((name, args) ∷ calls) req ((m, found), h) =
      rw (found, call_method) (run_chain-dummy c calls req h)

-- A check of a parameter that the request does not have is made, and `optional` at the head of its
-- chain skips all the methods that follow, where the chain offers methods of their names: none is
-- asked, nothing is recorded, and the request stays as it is.
run_chain-optional :
    (l : Library) (o : Options) (e : Engine) (getter : Getter) (param fail_msg : Value)
    (parts : List Value) (args : List Value) (calls : List (String × List Value)) (req : Request)
    → parse_param param ≡ ok parts
    → legacy_value e getter parts ≡ ok undefined
    → All (Offered l o) calls
    → (c : Check) × (legacy_check e getter param fail_msg ≡ ok c)
      × (run_chain l o c live (("optional", args) ∷ calls) req ≡ (ok dummy, req))
unfolding legacy_check run_chain call_method find_method
run_chain-optional l o e getter param fail_msg parts args calls req parsed gone h =
    let c : Check = record { param = param_name e parts; fail_msg = fail_msg; value = undefined } in
    (c, rw (parsed, gone) refl, run_chain-dummy l o c calls req h)
