-- ===== src/Session/Writes.antt =====
-- What a method's write to the wrapped request leaves of its other properties
-- (core/src/main/resources/com/sandbox/runtime/v2/js/version_3/sandbox-validator.js, `updateParam`
-- and `errorHandler`).
use worker_cli.Prelude.{
  ℕ, Dict, String, false, ◌≡◌, refl, ◌∙◌, Option, none, some, List, [], ◌∷◌, lookup, lookup-insert,
  lookup-insert_self, ◌==◌,
}
use worker_cli.Js.{Value}
use worker_cli.Validator.{Fault, Request}
use worker_cli.Wrapping.{
  Wrapped, Property, value, faults, method, forward_request, forward_response, render,
}
use worker_cli.Session.{
  World, HostCall, Session, forwarded, note, send_all, rendering, run_render, put, put_errors,
  put_value, write_back, assign_place, write_places,
}

abbrev pub at : Session → String → Option Property
at s k = lookup k s.wrappers.request

module _ (name k : String) (other : (name == k) ≡ false) where
  pub at-put : (p : Property) (s : Session) → at (put name p s) k ≡ at s k
  at-put p s = lookup-insert name k p s.wrappers.request ∙ rw other refl

  pub at-put_value :
      (v : Value) (old : Option Property) (s : Session) → at (put_value name v old s) k ≡ at s k
  at-put_value v none s = refl
  at-put_value v (some (value u)) s = at-put (value v) s
  at-put_value v (some (faults fs)) s = refl
  at-put_value v (some (method n)) s = refl
  at-put_value v (some (forward_request host n)) s = refl
  at-put_value v (some (forward_response host n)) s = refl
  at-put_value v (some (render host)) s = refl

  pub at-assign_place : (v : Value) (s : Session) → at (assign_place name v s) k ≡ at s k
  unfolding assign_place
  at-assign_place v s = at-put_value v (lookup name s.wrappers.request) s

pub at-assign_place_self :
    (name : String) (u v : Value) (s : Session)
    → at s name ≡ some (value u)
    → at (assign_place name v s) name ≡ some (value v)
unfolding assign_place
at-assign_place_self name u v s h = rw h (lookup-insert_self name (value v) s.wrappers.request)

-- A name that is none of the three places'.
pub at-write_places :
    (req : Request) (s : Session) (k : String)
    → ("params" == k) ≡ false
    → ("query" == k) ≡ false
    → ("body" == k) ≡ false
    → at (write_places req s) k ≡ at s k
at-write_places req s k p q b =
    let s' = assign_place "params" req.params s in
    at-assign_place "body" k b req.body (assign_place "query" req.query s')
    ∙ at-assign_place "query" k q req.query s'
    ∙ at-assign_place "params" k p req.params s

-- The three places, where they were values.
module _ (req : Request) (s : Session) (u : Value) where
  pub params-write_places :
      at s "params" ≡ some (value u) → at (write_places req s) "params" ≡ some (value req.params)
  params-write_places h =
      let s' = assign_place "params" req.params s in
      at-assign_place "body" "params" refl req.body (assign_place "query" req.query s')
      ∙ at-assign_place "query" "params" refl req.query s'
      ∙ at-assign_place_self "params" u req.params s h

  pub query-write_places :
      at s "query" ≡ some (value u) → at (write_places req s) "query" ≡ some (value req.query)
  query-write_places h =
      let s' = assign_place "params" req.params s in
      at-assign_place "body" "query" refl req.body (assign_place "query" req.query s')
      ∙ at-assign_place_self "query" u req.query s'
          (at-assign_place "params" "query" refl req.params s ∙ h)

  pub body-write_places :
      at s "body" ≡ some (value u) → at (write_places req s) "body" ≡ some (value req.body)
  body-write_places h =
      let s' = assign_place "params" req.params s in
      at-assign_place_self "body" u req.body (assign_place "query" req.query s') (
        at-assign_place "query" "body" refl req.query s'
        ∙ at-assign_place "params" "body" refl req.params s
        ∙ h)

-- A name that is not the errors'.
pub at-write_back :
    (req : Request) (s : Session) (k : String)
    → ("_validationErrors" == k) ≡ false
    → at (write_back req s) k ≡ at s k
unfolding write_back
at-write_back req s k other = kept req.errors
  where
    kept : (errs : Option (List Fault)) → at (put_errors errs s) k ≡ at s k
    kept none = refl
    kept (some fs) = at-put "_validationErrors" k other (faults fs) s

-- Calls of the host's functions and `render` write to neither of the wrapped objects.
pub note-wrappers : (c : Option HostCall) (s : Session) → (note c s).wrappers ≡ s.wrappers
note-wrappers none s = refl
note-wrappers (some c) s = refl

send_all-wrappers :
    (send : Option Property) (outputs : List Value) (s : Session)
    → (send_all send outputs s).wrappers ≡ s.wrappers
send_all-wrappers send [] s = refl
send_all-wrappers send (output ∷ outputs) s =
    send_all-wrappers send outputs (note (forwarded send (output ∷ [])) s)
    ∙ note-wrappers (forwarded send (output ∷ [])) s

pub run_render-wrappers :
    (w : World) (p : Option Property) (args : List Value) (s : Session)
    → (run_render w p args s).wrappers ≡ s.wrappers
run_render-wrappers w none args s = refl
run_render-wrappers w (some (value v)) args s = refl
run_render-wrappers w (some (faults fs)) args s = refl
run_render-wrappers w (some (method n)) args s = refl
run_render-wrappers w (some (forward_request host n)) args s = refl
run_render-wrappers w (some (forward_response host n)) args s = refl
run_render-wrappers w (some (render host)) args s =
    send_all-wrappers _ (rendering w host args s).sent _

-- What no method of the validator writes to: the wrapped response, the render functions and the calls.
abbrev pub rest : Session → Wrapped × Dict ℕ × List HostCall
rest s = (s.wrappers.response, s.functions, s.calls)

put_value-rest :
    (name : String) (v : Value) (old : Option Property) (s : Session)
    → rest (put_value name v old s) ≡ rest s
put_value-rest name v none s = refl
put_value-rest name v (some (value u)) s = refl
put_value-rest name v (some (faults fs)) s = refl
put_value-rest name v (some (method n)) s = refl
put_value-rest name v (some (forward_request host n)) s = refl
put_value-rest name v (some (forward_response host n)) s = refl
put_value-rest name v (some (render host)) s = refl

assign_place-rest :
    (name : String) (v : Value) (s : Session) → rest (assign_place name v s) ≡ rest s
unfolding assign_place
assign_place-rest name v s = put_value-rest name v (lookup name s.wrappers.request) s

pub write_places-rest : (req : Request) (s : Session) → rest (write_places req s) ≡ rest s
write_places-rest req s =
    let s' = assign_place "params" req.params s in
    assign_place-rest "body" req.body (assign_place "query" req.query s')
    ∙ assign_place-rest "query" req.query s'
    ∙ assign_place-rest "params" req.params s

pub write_back-rest : (req : Request) (s : Session) → rest (write_back req s) ≡ rest s
unfolding write_back
write_back-rest req s = kept req.errors
  where
    kept : (errs : Option (List Fault)) → rest (put_errors errs s) ≡ rest s
    kept none = refl
    kept (some fs) = refl
