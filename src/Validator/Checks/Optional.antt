-- ===== src/Validator/Checks/Optional.antt =====
-- What `optional` does to a check
-- (core/src/main/resources/com/sandbox/runtime/v2/js/version_3/sandbox-validator.js, `checkParam`).
use worker_cli.Prelude.{◌≡◌, List, ◌∷◌}
use worker_cli.Js.{Value, Engine, ok}
use worker_cli.Validator.{Request, Library, Options}
use worker_cli.Validator.Params.{Getter, parse_param, param_name}
use worker_cli.Validator.Params.Laws.{Returns, param_value-defined, not_undefined}
use worker_cli.Validator.Checks.{Check, live, check_param, call_method}

-- Whatever the request holds, a check of a path of at least one part, whose getter does not throw, is
-- made, and `optional` leaves its chain live: the methods that follow still test a parameter that
-- the request does not have.
pub call_method-optional :
    (l : Library) (o : Options) (e : Engine) (getter : Getter) (param fail_msg part : Value)
    (parts : List Value) (args : List Value) (req : Request)
    → parse_param param ≡ ok (part ∷ parts)
    → ((p : Value) → Returns (getter p))
    → (c : Check) × (check_param e getter param fail_msg ≡ ok c)
      × (call_method l o c live "optional" args req ≡ (ok live, req))
unfolding check_param call_method
call_method-optional l o e getter param fail_msg part parts args req h g =
    let (v, found, defined) = param_value-defined e getter part parts g in
    (
      record { param = param_name e (part ∷ parts); fail_msg = fail_msg; value = v },
      rw (h, found),
      rw (not_undefined v defined),
    )
