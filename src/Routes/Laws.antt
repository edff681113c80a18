-- ===== src/Routes/Laws.antt =====
-- What `Sandbox.define` and `Sandbox.soap` accept, and their errors
-- (core/src/main/resources/com/sandbox/runtime/v2/js/version_3/sandbox-patch.js, `define` and
-- `soap`).
use worker_cli.Prelude.{
  String, true, false, ◌≡◌, ◌≢◌, ◌↔◌, ◌⊎◌, inl, inr, refl, List, [], ◌∷◌, length, arith,
}
use worker_cli.Js.{
  Value, undefined, object, string, end, field, TypeName, type_of, is_nullish, text, shown, upper,
  error, type_error, reference_error, ok, throw, ◌>>=◌, TypeName-discrete,
}
use worker_cli.Routes.{
  define_route, Definition, Parsed, first, second, get_method, no_properties, parse_three,
  parse_arguments, check_callback, define, soap_definition, soap,
}

abbrev route : Value → Value → Value → Value → Definition
route path method properties callback = record {
  action = define_route;
  path = path;
  method = method;
  properties = properties;
  callback = callback;
}

-- The four forms of a call that the comment above `define` lists, and calls with more arguments than
-- any form has, which are read by their first two.
pub data Accepts : List Value → Definition → Type 0 where
  full :
      (path method properties callback : Value)
      → is_nullish callback ≡ false
      → Accepts (path ∷ method ∷ properties ∷ callback ∷ []) (route path method properties callback)
  with_properties :
      (path properties callback : Value)
      → type_of properties ≡ TypeName.object
      → is_nullish callback ≡ false
      → Accepts (path ∷ properties ∷ callback ∷ []) (route path (string "GET") properties callback)
  with_method :
      (path method callback : Value)
      → type_of method ≡ TypeName.string
      → is_nullish callback ≡ false
      → Accepts (path ∷ method ∷ callback ∷ []) (route path method (object end) callback)
  short :
      (path callback : Value)
      → is_nullish callback ≡ false
      → Accepts (path ∷ callback ∷ []) (route path (string "GET") (object end) callback)
  surplus :
      (path callback third fourth fifth : Value) (more : List Value)
      → is_nullish callback ≡ false
      → Accepts
          (path ∷ callback ∷ third ∷ fourth ∷ fifth ∷ more)
          (route path (string "GET") (object end) callback)

abbrev parsed : Value → Value → Value → Value → Parsed
parsed path method properties callback = record {
  path = path;
  method = method;
  properties = properties;
  callback = callback;
}

check_callback-eq-ok :
    (p : Parsed) (d : Definition)
    → check_callback p ≡ ok d
    → (is_nullish p.callback ≡ false) × (d ≡ route p.path p.method p.properties p.callback)
unfolding check_callback
check_callback-eq-ok p d h = ground arith

-- The three ways in which the middle one of three arguments is read.
module _ (path middle callback : Value) where
  parse_three-object :
      type_of middle ≡ TypeName.object
      → parse_three path middle callback ≡ ok (parsed path get_method middle callback)
  unfolding parse_three
  parse_three-object h = ground arith

  parse_three-string :
      type_of middle ≡ TypeName.string
      → parse_three path middle callback ≡ ok (parsed path middle no_properties callback)
  unfolding parse_three
  parse_three-string h = ground arith

  parse_three-other :
      type_of middle ≢ TypeName.object
      → type_of middle ≢ TypeName.string
      → parse_three path middle callback ≡ throw type_error
  unfolding parse_three
  parse_three-other h k = ground arith

  parse_three-cases :
      (d : Definition)
      → (parse_three path middle callback >>= check_callback) ≡ ok d
      → Accepts (path ∷ middle ∷ callback ∷ []) d
  parse_three-cases d h = elim (TypeName-discrete (type_of middle) TypeName.object) [
    | yes o ↦
        let (live, same) = check_callback-eq-ok _ d (rw (parse_three-object o) at h) in
        rw same (with_properties path middle callback o live)
    | no not_o ↦ elim (TypeName-discrete (type_of middle) TypeName.string) [
      | yes s ↦
          let (live, same) = check_callback-eq-ok _ d (rw (parse_three-string s) at h) in
          rw same (with_method path middle callback s live)
      | no not_s ↦ cc (h, parse_three-other not_o not_s)
    ]
  ]

define-Accepts : (args : List Value) (d : Definition) → define args ≡ ok d → Accepts args d
unfolding define parse_arguments
define-Accepts [] d h =
    let (live, same) =
      check_callback-eq-ok (parsed undefined get_method no_properties undefined) d h in
    cc live
define-Accepts (a ∷ []) d h =
    let (live, same) = check_callback-eq-ok (parsed a get_method no_properties undefined) d h in
    cc live
define-Accepts (a ∷ b ∷ []) d h =
    let (live, same) = check_callback-eq-ok (parsed a get_method no_properties b) d h in
    rw same (short a b live)
define-Accepts (a ∷ b ∷ c ∷ []) d h = parse_three-cases a b c d h
define-Accepts (a ∷ b ∷ c ∷ e ∷ []) d h =
    let (live, same) = check_callback-eq-ok (parsed a b c e) d h in rw same (full a b c e live)
define-Accepts (a ∷ b ∷ c ∷ e ∷ f ∷ g) d h =
    let (live, same) = check_callback-eq-ok (parsed a get_method no_properties b) d h in
    rw same (surplus a b c e f g live)

short_define :
    (args : List Value)
    → length args ≢ 3
    → length args ≢ 4
    → define args ≡ check_callback (parsed (first args) get_method no_properties (second args))
unfolding define parse_arguments
short_define [] h k = refl
short_define (a ∷ []) h k = refl
short_define (a ∷ b ∷ []) h k = refl
short_define (a ∷ b ∷ c ∷ []) h k = absurd (omega arith)
short_define (a ∷ b ∷ c ∷ e ∷ []) h k = absurd (omega arith)
short_define (a ∷ b ∷ c ∷ e ∷ f ∷ g) h k = refl

Accepts-define : (args : List Value) (d : Definition) → Accepts args d → define args ≡ ok d
unfolding check_callback
Accepts-define args d (full path method properties callback h) =
    unfold define parse_arguments in rw h
Accepts-define args d (with_properties path properties callback t h) =
    unfold define parse_arguments in rw (parse_three-object path properties callback t) (rw h)
Accepts-define args d (with_method path method callback t h) =
    unfold define parse_arguments in rw (parse_three-string path method callback t) (rw h)
Accepts-define args d (short path callback h) = unfold define parse_arguments in rw h
Accepts-define args d (surplus path callback third fourth fifth more h) =
    unfold define parse_arguments in rw h

-- `define` registers exactly the calls whose callback is neither undefined nor null and that have one
-- of the four forms of its comment or more than four arguments. It passes the path, the method, the
-- properties and the callback of the form on, with "GET" for a method and an empty object for
-- properties that the form does not have; of more than four arguments the first two are the path and
-- the callback.
pub define_iff : (args : List Value) (d : Definition) → (define args ≡ ok d) ↔ Accepts args d
define_iff args d = (define-Accepts args d, Accepts-define args d)

-- A call with neither three nor four arguments, whose second one is undefined, null or not given,
-- ends in the error that names the route.
pub define_missing_callback :
    (args : List Value)
    → length args ≢ 3
    → length args ≢ 4
    → is_nullish (second args) ≡ true
    → define args
      ≡ throw (
          error (
            text "Invalid route definition for "
            ∷ upper get_method
            ∷ text " "
            ∷ shown (first args)
            ∷ text ", given function is undefined"
            ∷ []))
unfolding check_callback
define_missing_callback args h k missing = rw (short_define args h k) (rw missing)

-- The two forms of `soap`; there is no test of the callback.
pub data AcceptsSoap : List Value → Definition → Type 0 where
  action_only :
      (path : Value) (action : String) (callback : Value)
      → AcceptsSoap
          (path ∷ string action ∷ callback ∷ [])
          (soap_definition path (field "SOAPAction" (string action) end) callback)
  action_and_operation :
      (path : Value) (action : String) (operation callback : Value)
      → AcceptsSoap (path ∷ string action ∷ operation ∷ callback ∷ []) (
          soap_definition path
            (field "SOAPAction" (string action) (field "SOAPOperationName" operation end))
            callback)

AcceptsSoap-soap : (args : List Value) (d : Definition) → AcceptsSoap args d → soap args ≡ ok d
unfolding soap
AcceptsSoap-soap args d (action_only path action callback) = refl
AcceptsSoap-soap args d (action_and_operation path action operation callback) = refl

soap_rejects :
    (args : List Value)
    → soap args ≡ throw reference_error
    → ((d : Definition) × (soap args ≡ ok d) × AcceptsSoap args d)
      ⊎ ((soap args ≡ throw reference_error) × ((d : Definition) → AcceptsSoap args d → ⊥))
soap_rejects args e = inr (e, λ d a. cc (AcceptsSoap-soap args d a))

-- `soap` registers a route, or ends in a ReferenceError: the message that it means to give is never
-- built, for it reads a variable that is not declared.
pub soap_total :
    (args : List Value)
    → ((d : Definition) × (soap args ≡ ok d) × AcceptsSoap args d)
      ⊎ ((soap args ≡ throw reference_error) × ((d : Definition) → AcceptsSoap args d → ⊥))
unfolding soap
soap_total (path ∷ string action ∷ callback ∷ []) = inl (_, refl, action_only path action callback)
soap_total (path ∷ string action ∷ operation ∷ callback ∷ []) =
    inl (_, refl, action_and_operation path action operation callback)
soap_total (path ∷ action ∷ callback ∷ []) = soap_rejects (path ∷ action ∷ callback ∷ []) refl
soap_total (path ∷ action ∷ operation ∷ callback ∷ []) =
    soap_rejects (path ∷ action ∷ operation ∷ callback ∷ []) refl
soap_total [] = soap_rejects [] refl
soap_total (a ∷ []) = soap_rejects (a ∷ []) refl
soap_total (a ∷ b ∷ []) = soap_rejects (a ∷ b ∷ []) refl
soap_total (a ∷ b ∷ c ∷ d ∷ e ∷ args) = soap_rejects (a ∷ b ∷ c ∷ d ∷ e ∷ args) refl
