-- ===== src/Require/BigStep/Accepted.antt =====
-- The routes that a `require` registers, from the calls that the user's code makes
-- (core/src/main/resources/com/sandbox/runtime/v2/js/version_3/sandbox-patch.js, `define`, `soap` and
-- `Require`).
use worker_cli.Prelude.{
  ℕ, String, ◌≡◌, refl, sym, ap, ◌∙◌, inl, inr, Option, List, [], ◌∷◌, ◌++◌, append-nil,
  append_assoc,
}
use worker_cli.Js.{Result, ok, throw, JsError}
use worker_cli.Routes.{Definition}
use worker_cli.Routes.Laws.{Accepts, AcceptsSoap, define_iff, soap_total}
use worker_cli.Modules.{Exports, Store, assign_exports, new_module}
use worker_cli.Require.{MockCall, define_call, soap_call, definition_of, with_route, Script, Host}
use worker_cli.Require.BigStep.{
  Requires, unknown, cached, json, unreadable, failed, loaded, Runs, ended, raised, assigned,
  required, mocked,
}

mutual
  -- The calls of `Sandbox.define` and `Sandbox.soap` that the code of the loaded files made, in order
  pub requires_calls :
      {host : Host} {id : String} {parent : Option ℕ} {s t : Store} {x : Result Exports}
      → Requires host id parent s x t
      → List MockCall
  requires_calls (unknown named) = []
  requires_calls (cached named there) = []
  requires_calls (json named missing is_json) = []
  requires_calls (unreadable named missing code compiled) = []
  requires_calls (failed named missing code compiled d) = runs_calls d
  requires_calls (loaded named missing code compiled d) = runs_calls d

  pub runs_calls :
      {host : Host} {self : ℕ} {script : Script} {s t : Store} {r : Result (Unit {0})}
      → Runs host self script s r t
      → List MockCall
  runs_calls ended = []
  runs_calls raised = []
  runs_calls (assigned d) = runs_calls d
  runs_calls (required d d') = requires_calls d ++ runs_calls d'
  runs_calls (mocked {call = call} d) = call ∷ runs_calls d

-- The call has a form, for which the route is registered.
abbrev pub HasForm : MockCall → Definition → Type 0
HasForm (define_call args) d = Accepts args d
HasForm (soap_call args) d = AcceptsSoap args d

-- The routes of the calls that have a form, in order
pub data Registers : List MockCall → List Definition → Type 0 where
  nothing : Registers [] []
  registered :
      {call : MockCall} {d : Definition} {calls : List MockCall} {routes : List Definition}
      → HasForm call d
      → Registers calls routes
      → Registers (call ∷ calls) (d ∷ routes)
  rejected :
      {call : MockCall} {calls : List MockCall} {routes : List Definition}
      → ((d : Definition) → HasForm call d → ⊥)
      → Registers calls routes
      → Registers (call ∷ calls) routes

Registers-append :
    {calls more : List MockCall} {routes others : List Definition}
    → Registers calls routes
    → Registers more others
    → Registers (calls ++ more) (routes ++ others)
Registers-append nothing h = h
Registers-append (registered form k) h = registered form (Registers-append k h)
Registers-append (rejected none_such k) h = rejected none_such (Registers-append k h)

definition_of-HasForm :
    (call : MockCall) (d : Definition) → definition_of call ≡ ok d → HasForm call d
definition_of-HasForm (define_call args) d h = (define_iff args d).0 h
definition_of-HasForm (soap_call args) d h = elim (soap_total args) [
  | inl (d', gives, accepts) ↦ let same : d' ≡ d = cc (gives, h) in rw (← same) accepts
  | inr (throws, no_form) ↦ cc (throws, h)
]

definition_of-throw :
    (call : MockCall) (e : JsError)
    → definition_of call ≡ throw e
    → (d : Definition) → HasForm call d
    → ⊥
definition_of-throw (define_call args) e h d form = cc (h, (define_iff args d).1 form)
definition_of-throw (soap_call args) e h d form = elim (soap_total args) [
  | inl (d', gives, accepts) ↦ cc (gives, h)
  | inr (throws, no_form) ↦ no_form d form
]

-- From `s` to `t` the routes of these calls were added.
abbrev pub Adds : List MockCall → Store → Store → Type 0
Adds calls s t =
    (routes : List Definition) × (t.routes ≡ s.routes ++ routes) × Registers calls routes

Adds-none : (s t : Store) → t.routes ≡ s.routes → Adds [] s t
Adds-none s t same = ([], same ∙ sym (append-nil s.routes), nothing)

Adds-append :
    (calls more : List MockCall) (s t u : Store)
    → Adds calls s t
    → Adds more t u
    → Adds (calls ++ more) s u
Adds-append calls more s t u (rs, a, h) (os, b, k) =
    (rs ++ os, b ∙ ap (λ xs. xs ++ os) a ∙ append_assoc s.routes rs os, Registers-append h k)

Adds-call :
    (call : MockCall) (calls : List MockCall) (s t : Store) (r : Result Definition)
    → definition_of call ≡ r
    → Adds calls (with_route r s) t
    → Adds (call ∷ calls) s t
Adds-call call calls s t (throw e) h (rs, a, k) = (rs, a, rejected (definition_of-throw call e h) k)
Adds-call call calls s t (ok d) h (rs, a, k) =
    (d ∷ rs, a ∙ append_assoc s.routes (d ∷ []) rs, registered (definition_of-HasForm call d h) k)

mutual
  unfolding new_module assign_exports requires_calls runs_calls

  Requires-Adds :
      {host : Host} {id : String} {parent : Option ℕ} {s t : Store} {x : Result Exports}
      → (d : Requires host id parent s x t) → Adds (requires_calls d) s t
  Requires-Adds {s = s} (unknown named) = Adds-none s s refl
  Requires-Adds {s = s} (cached named there) = Adds-none s s refl
  Requires-Adds {s = s} (json named missing is_json) = Adds-none s s refl
  Requires-Adds {s = s} {t = t} (unreadable named missing code compiled) = Adds-none s t refl
  Requires-Adds (failed named missing code compiled d) = Runs-Adds d
  Requires-Adds (loaded named missing code compiled d) = Runs-Adds d

  Runs-Adds :
      {host : Host} {self : ℕ} {script : Script} {s t : Store} {r : Result (Unit {0})}
      → (d : Runs host self script s r t) → Adds (runs_calls d) s t
  Runs-Adds {s = s} ended = Adds-none s s refl
  Runs-Adds {s = s} raised = Adds-none s s refl
  Runs-Adds (assigned d) = Runs-Adds d
  Runs-Adds {s = s} {t = u} (required {t = t} d d') =
      Adds-append (requires_calls d) (runs_calls d') s t u (Requires-Adds d) (Runs-Adds d')
  Runs-Adds {s = s} {t = t} (mocked {call = call} d) =
      Adds-call call (runs_calls d) s t (definition_of call) refl (Runs-Adds d)

-- However a `require` ends, it adds, behind the routes that were there, one route for each call of
-- `Sandbox.define` and `Sandbox.soap` that the code of the loaded files made and that has one of the
-- forms, in the order of the calls and with what the form says, and none for a call that has no form.
pub Requires-Registers :
    (host : Host) (id : String) (parent : Option ℕ) (s : Store) (x : Result Exports) (t : Store)
    → (d : Requires host id parent s x t)
    → (routes : List Definition) × (t.routes ≡ s.routes ++ routes)
      × Registers (requires_calls d) routes
Requires-Registers host id parent s x t d = Requires-Adds d
