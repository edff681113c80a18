-- ===== src/Validator/Checks.antt =====
-- The methods that `checkParam` returns
-- (core/src/main/resources/com/sandbox/runtime/v2/js/version_3/sandbox-validator.js), and chains of
-- calls of them. A chain is live, or it is the `dummyMethods` of `optional`; `other` is a value that
-- is no chain, whose methods are not there.
pub mod Copies
pub mod Chains
pub mod Rejections
pub mod Optional
use worker_cli.Prelude.{
  ℕ, zero, suc, String, Bool, true, false, Option, none, some, List, [], ◌∷◌, ◌++◌, ◌==◌, ◌&&◌, not,
  eqb, leb, if◌then◌else◌, ◌-◌, ◌^◌, ◌%◌, ◌/◌,
}
use worker_cli.Js.{
  Value, undefined, string, number, function, Number, nan, infinity, finite, boolean, truthy,
  is_undefined, Engine, Result, ok, throw, type_error, ◌>>=◌,
}
use worker_cli.Polyfills.{is_length}
use worker_cli.Validator.{
  Fault, Request, Library, Options, contains, is_sanitizer, recorded, push_error,
}
use worker_cli.Validator.Params.{Getter, parse_param, param_name, param_value}

-- The variables of a check that its methods close over: `param`, `failMsg` and `value`.
pub record Check : Type 0 where
  pub param : String
  pub fail_msg : Value
  pub value : Value

-- `checkParam(req, getter)(param, failMsg)`
unfoldable pub check_param : Engine → Getter → Value → Value → Result Check
unfolding parse_param param_name param_value
check_param e getter param fail_msg = do
  parts ← parse_param param
  value ← param_value e getter parts
  ok (record { param = param_name e parts; fail_msg = fail_msg; value = value })

pub data Chain : Type 0 where
  live dummy : Chain
  other : Value → Chain

-- What a name in `methods` stands for; the last assignment to a name wins.
pub data Method : Type 0 where
  library custom : String → Method
  not_empty len optional array_is_length : Method

-- `failMsg || 'Invalid value'`
abbrev pub message : Value → Value
message fail_msg = if truthy fail_msg then fail_msg else string "Invalid value"

abbrev pub notify : Value → Request → Request
notify msg req =
    if truthy req.on_error then record req { notified = req.notified ++ msg ∷ [] } else req

-- `errorHandler`; the callback is the host's, and it is recorded that it is called
abbrev pub error_handler : Options → Check → Value → Request → Request
error_handler o c msg req = notify msg (push_error (o.error_formatter c.param msg c.value) req)

-- The end of a library or custom method.
unfoldable pub judge : Options → Check → Result Value → Request → Result Chain × Request
judge o c (throw e) req = (throw e, req)
judge o c (ok is_correct) req =
    (ok live, if truthy is_correct then req else error_handler o c (message c.fail_msg) req)

abbrev pub first_arg : List Value → Value
first_arg [] = undefined
first_arg (v ∷ _) = v

abbrev pub array_length : List Value → Request → Result Chain × Request
array_length args req = (ok (other (boolean (is_length (first_arg args)))), req)

abbrev pub one : Value
one = number (finite false 1 0)

abbrev pub go_on :
    (Chain → Request → Result Chain × Request) → Result Chain × Request → Result Chain × Request
go_on next (ok chain, req) = next chain req
go_on next (throw err, req) = (throw err, req)

module _ (l : Library) (o : Options) where
  -- `methods[name]`, for a name that is not one of an array's own built-in methods
  unfoldable pub find_method : String → Option Method
  unfolding is_sanitizer
  find_method name =
      if name == "optional"
      then some optional
      else if name == "len"
      then some len
      else if name == "notEmpty"
      then some not_empty
      else if contains o.custom_names name
      then some (custom name)
      else if contains l.methods name && not (is_sanitizer name)
      then some (library name)
      else if name == "isLength"
      then some array_is_length
      else none

  -- `methods.isLength(...)`, which both `notEmpty` and `len` call; `methods` is an array, so without
  -- a library method of that name it is the array's own
  unfoldable pub call_is_length : Check → List Value → Request → Result Chain × Request
  unfolding judge is_length is_sanitizer
  call_is_length c args req =
      if contains o.custom_names "isLength"
      then judge o c (o.call_custom "isLength" (c.value ∷ args)) req
      else if contains l.methods "isLength"
      then judge o c (l.call "isLength" (c.value ∷ args)) req
      else array_length args req

  unfoldable pub run_method : Method → Check → List Value → Request → Result Chain × Request
  unfolding call_is_length
  run_method (library name) c args req = judge o c (l.call name (c.value ∷ args)) req
  run_method (custom name) c args req = judge o c (o.call_custom name (c.value ∷ args)) req
  run_method not_empty c args req = call_is_length c (one ∷ []) req
  run_method len c args req = call_is_length c args req
  run_method array_is_length c args req = array_length args req
  run_method optional c args req = (ok (if is_undefined c.value then dummy else live), req)

  -- `chain.name(...args)`; a name that `methods` lacks is undefined and cannot be called
  unfoldable pub call_method :
      Check → Chain → String → List Value → Request → Result Chain × Request
  unfolding find_method run_method
  call_method c live name args req = elim (find_method name) [
    | none ↦ (throw type_error, req)
    | some method ↦ run_method method c args req
  ]
  call_method c dummy name args req = elim (find_method name) [
    | none ↦ (throw type_error, req)
    | some method ↦ (ok dummy, req)
  ]
  call_method c (other v) name args req = (throw type_error, req)

  -- A chain of calls, as in `req.checkQuery('q', 'msg').notEmpty().isInt()`.
  unfoldable pub run_chain :
      Check → Chain → List (String × List Value) → Request → Result Chain × Request
  unfolding call_method
  run_chain c chain [] req = (ok chain, req)
  run_chain c chain ((name, args) ∷ calls) req =
      go_on (λ chain' req'. run_chain c chain' calls req') (call_method c chain name args req)
