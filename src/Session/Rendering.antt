-- ===== src/Session/Rendering.antt =====
-- `render` in a callback
-- (core/src/main/resources/com/sandbox/runtime/v2/js/version_3/sandbox-patch.js, `wrapCallback`, and
-- sandbox-templates.js).
use worker_cli.Prelude.{
  ◌==◌, if◌then◌else◌, Bool-cases, inl, inr, ℕ, ◌≡◌, refl, ap, ◌∙◌, sym, some, List, [], ◌∷◌, ◌++◌,
  map, lookup, append-nil, append_assoc,
}
use worker_cli.Js.{Value, undefined, string, obj, is_undefined, Engine}
use worker_cli.Templates.{
  Renderers, RenderHost, RenderCall, template_locals, parse_render, find_library,
}
use worker_cli.Templates.Laws.{Remembers, rendered, outputs, render_with_request-Renders}
use worker_cli.Wrapping.{HostObject, forward_response, render}
use worker_cli.Session.{
  World, HostCall, Session, current_request, note, send_all, rendering, run_render,
}

-- The table of a session's render functions, with nothing sent
abbrev pub table : Session → Renderers
table s = record { functions = s.functions; sent = [] }

-- The library, the name and the context of `render(…args)`
abbrev pub template_of : List Value → Value × Value × Value
template_of (name ∷ []) = (string "liquid", name, obj [])
template_of (name ∷ context ∷ []) = (string "liquid", name, context)
template_of (library ∷ name ∷ context ∷ []) = (library, name, context)
template_of _ = (string "liquid", undefined, obj [])

-- What the service gives for the template, with the request among its locals; nothing where the
-- library is not Liquid.
abbrev pub rendered_for : World → Value → List Value → List Value
rendered_for w request args =
    let (library, name, context) = template_of args in
    if w.engine.to_string library == "liquid"
    then outputs (
        w.templates.render_liquid w.service name
          (obj (("res", context) ∷ ("data", context) ∷ ("req", request) ∷ [])))
    else []

-- A call of `send` of the host's response
abbrev pub sent_by : ℕ → Value → HostCall
sent_by host output = record { host = host; name = "send"; args = output ∷ [] }

send_all-calls :
    (host : ℕ) (outputs : List Value) (s : Session)
    → (send_all (some (forward_response host "send")) outputs s).calls
      ≡ s.calls ++ map (sent_by host) outputs
send_all-calls host [] s = sym (append-nil s.calls)
send_all-calls host (output ∷ outputs) s =
    send_all-calls host outputs (note (some (sent_by host output)) s)
    ∙ append_assoc s.calls (sent_by host output ∷ []) (map (sent_by host) outputs)

send_all-functions :
    (host : ℕ) (outputs : List Value) (s : Session)
    → (send_all (some (forward_response host "send")) outputs s).functions ≡ s.functions
send_all-functions host [] s = refl
send_all-functions host (output ∷ outputs) s =
    send_all-functions host outputs (note (some (sent_by host output)) s)

outputs-rendered :
    (e : Engine) (h : RenderHost) (service : ℕ) (c : RenderCall)
    → outputs (rendered h service c (find_library e c.library)) ≡ (
        if e.to_string c.library == "liquid"
        then outputs (h.render_liquid service c.template_name (template_locals c.context c.request))
        else [])
unfolding find_library
outputs-rendered e h service c = elim (Bool-cases (e.to_string c.library == "liquid")) [
  | inl same ↦ rw same refl
  | inr other ↦
      rw other
        (elim (Bool-cases (is_undefined (e.builtin_member (obj []) (e.to_string c.library)))) [
          | inl gone ↦ rw gone refl
          | inr there ↦ rw there refl
        ])
]

outputs-rendered_for :
    (w : World) (request : Value) (args : List Value)
    → outputs (
        rendered w.templates w.service
          (parse_render (request ∷ args))
          (find_library w.engine (parse_render (request ∷ args)).library))
      ≡ rendered_for w request args
unfolding parse_render
outputs-rendered_for w request [] = outputs-rendered w.engine w.templates w.service _
outputs-rendered_for w request (a ∷ []) = outputs-rendered w.engine w.templates w.service _
outputs-rendered_for w request (a ∷ b ∷ []) = outputs-rendered w.engine w.templates w.service _
outputs-rendered_for w request (a ∷ b ∷ c ∷ []) = outputs-rendered w.engine w.templates w.service _
outputs-rendered_for w request (a ∷ b ∷ c ∷ d ∷ more) =
    outputs-rendered w.engine w.templates w.service _

pub run_render-calls :
    (w : World) (request : HostObject) (args : List Value) (response : ℕ) (s : Session)
    → lookup "send" s.wrappers.response ≡ some (forward_response response "send")
    → Remembers w.service (table s)
    → ((run_render w (some (render request)) args s).calls
        ≡ s.calls
          ++ map
              (sent_by response)
              (rendered_for w (current_request s.wrappers.request request) args))
      × Remembers w.service (table (run_render w (some (render request)) args s))
run_render-calls w request args response s has_send m =
    let now = current_request s.wrappers.request request in
    let (gives, sends, remembers) =
      render_with_request-Renders w.engine w.templates w.service (now ∷ args) (table s) m in
    let after = rendering w request args s in
    let begun = record s { functions = after.functions } in
    rw has_send (
      send_all-calls response after.sent begun
          ∙ ap (λ os. s.calls ++ map (sent_by response) os)
              (sends ∙ outputs-rendered_for w now args),
      rw (send_all-functions response after.sent begun) remembers,
    )
