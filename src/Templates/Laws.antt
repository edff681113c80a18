-- ===== src/Templates/Laws.antt =====
-- The table of render functions of `renderWithRequest`
-- (core/src/main/resources/com/sandbox/runtime/v2/js/version_3/sandbox-templates.js), against
-- rendering without one.
use worker_cli.Prelude.{
  ℕ, ◌≡◌, ◌⊎◌, inl, inr, refl, sym, ap, ◌∙◌, append-nil, none, some, List, [], ◌∷◌, ◌++◌, lookup,
  insert, lookup-insert_self,
}
use worker_cli.Js.{Value, Engine, Result, ok, throw}
use worker_cli.Templates.{
  RenderHost, Renderers, RenderCall, parse_render, find_library, template_locals, send,
  render_found, render_with_request,
}

-- The table holds nothing, or the function of the service.
abbrev pub Remembers : ℕ → Renderers → Type 0
Remembers service s =
    (lookup "liquid" s.functions ≡ none) ⊎ (lookup "liquid" s.functions ≡ some service)

-- Rendering with no table: the library is looked up, and the service renders.
abbrev pub rendered : RenderHost → ℕ → RenderCall → Result (Unit {0}) → Result Value
rendered h service c (throw err) = throw err
rendered h service c (ok _) =
    h.render_liquid service c.template_name (template_locals c.context c.request)

abbrev pub outputs : Result Value → List Value
outputs (throw err) = []
outputs (ok output) = output ∷ []

abbrev pub as_unit : Result Value → Result (Unit {0})
as_unit (throw err) = throw err
as_unit (ok output) = ok tt

-- The result, what is sent, and the table afterwards.
abbrev pub Renders : Result Value → ℕ → Renderers → Result (Unit {0}) × Renderers → Type 0
Renders r service s p = (p.0 ≡ as_unit r) × (p.1.sent ≡ s.sent ++ outputs r) × Remembers service p.1

send-Renders :
    (service : ℕ) (r : Result Value) (s t : Renderers)
    → t.sent ≡ s.sent
    → Remembers service t
    → Renders r service s (send r t)
send-Renders service (throw err) s t same m = (refl, same ∙ sym (append-nil s.sent), m)
send-Renders service (ok output) s t same m = (refl, ap (λ vs. vs ++ output ∷ []) same, m)

render_found-Renders :
    (h : RenderHost) (service : ℕ) (c : RenderCall) (found : Result (Unit {0})) (s : Renderers)
    → Remembers service s
    → Renders (rendered h service c found) service s (render_found h service c found s)
render_found-Renders h service c (throw err) s m = (refl, sym (append-nil s.sent), m)
render_found-Renders h service c (ok u) s (inl fresh) = rw fresh (
    send-Renders service
      (h.render_liquid service c.template_name (template_locals c.context c.request)) s
      (record s { functions = insert "liquid" service s.functions }) refl
      (inr (lookup-insert_self "liquid" service s.functions)))
render_found-Renders h service c (ok u) s (inr known) = rw known (
    send-Renders service
      (h.render_liquid service c.template_name (template_locals c.context c.request)) s s refl
      (inr known))

-- Where the table of render functions holds nothing or the function of the service, a call of
-- `renderWithRequest` gives and sends what the library lookup and the service give with no table,
-- and throws what they throw, in which case nothing is sent; the table goes on to hold nothing or
-- the service's function.
pub render_with_request-Renders :
    (e : Engine) (h : RenderHost) (service : ℕ) (args : List Value) (s : Renderers)
    → Remembers service s
    → Renders
        (rendered h service (parse_render args) (find_library e (parse_render args).library))
        service
        s
        (render_with_request e h service args s)
unfolding render_with_request
render_with_request-Renders e h service args s m =
    render_found-Renders h service (parse_render args) (find_library e (parse_render args).library)
      s m
