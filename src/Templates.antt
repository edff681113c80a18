-- ===== src/Templates.antt =====
-- `sandboxTemplates`: `renderWithRequest` and its table of render functions
-- (core/src/main/resources/com/sandbox/runtime/v2/js/version_3/sandbox-templates.js).
-- The services that render, and `wrappedResponse.send`, are the host's: a service is a number, and
-- `render_liquid` what it gives. What is sent is appended to a list.
pub mod Laws
use worker_cli.Prelude.{
  ℕ, String, Option, none, some, List, [], ◌∷◌, ◌++◌, ◌==◌, Dict, lookup, insert, if◌then◌else◌,
}
use worker_cli.Js.{
  Value, undefined, string, obj, is_undefined, Engine, text, shown, JsError, error, type_error,
  Result, ok, throw, ◌>>=◌,
}

pub record RenderHost : Type 0 where
  pub render_liquid : (service : ℕ) (template_name locals : Value) → Result Value

-- `templateRenderFunctions`, each function by the service that it closes over, and what was sent
pub record Renderers : Type 0 where
  pub functions : Dict ℕ
  pub sent : List Value

-- The four variables of `renderWithRequest`.
pub record RenderCall : Type 0 where
  pub library : Value
  pub context : Value
  pub template_name : Value
  pub request : Value

abbrev pub no_context : Value
no_context = obj []

abbrev pub liquid : Value
liquid = string "liquid"

abbrev pub first : List Value → Value
first [] = undefined
first (v ∷ _) = v

-- The cases of `arguments.length`.
unfoldable pub parse_render : List Value → RenderCall
parse_render (request ∷ name ∷ []) = record {
  library = liquid;
  context = no_context;
  template_name = name;
  request = request;
}
parse_render (request ∷ name ∷ context ∷ []) = record {
  library = liquid;
  context = context;
  template_name = name;
  request = request;
}
parse_render (request ∷ library ∷ name ∷ context ∷ []) = record {
  library = library;
  context = context;
  template_name = name;
  request = request;
}
parse_render args = record {
  library = liquid;
  context = no_context;
  template_name = undefined;
  request = first args;
}

-- `templateLibraries[library]`: only `liquid` is there. What other objects inherit under the name is
-- no function that gives a render function, so that the calls end in a TypeError.
unfoldable pub find_library : Engine → Value → Result (Unit {0})
find_library e library =
    if e.to_string library == "liquid"
    then ok tt
    else if is_undefined (e.builtin_member (obj []) (e.to_string library))
    then throw (error (text "Unsupported template library: " ∷ shown library ∷ []))
    else throw type_error

abbrev pub function_or_new : ℕ → Option ℕ → ℕ
function_or_new service none = service
function_or_new service (some known) = known

abbrev pub remember : ℕ → Option ℕ → Renderers → Renderers
remember service none s = record s { functions = insert "liquid" service s.functions }
remember service (some known) s = s

-- The locals that `liquidRender` makes
abbrev pub template_locals : Value → Value → Value
template_locals context request = obj (("res", context) ∷ ("data", context) ∷ ("req", request) ∷ [])

abbrev pub send : Result Value → Renderers → Result (Unit {0}) × Renderers
send (throw err) s = (throw err, s)
send (ok output) s = (ok tt, record s { sent = s.sent ++ output ∷ [] })

abbrev pub render_found :
    RenderHost → ℕ → RenderCall → Result (Unit {0}) → Renderers → Result (Unit {0}) × Renderers
render_found h service c (throw err) s = (throw err, s)
render_found h service c (ok _) s =
    let known = lookup "liquid" s.functions in
    send
      (h.render_liquid (function_or_new service known) c.template_name
        (template_locals c.context c.request))
      (remember service known s)

-- `wrappedResponse.renderWithRequest`
unfoldable pub render_with_request :
    Engine → RenderHost → ℕ → List Value → Renderers → Result (Unit {0}) × Renderers
unfolding parse_render find_library lookup insert
render_with_request e h service args s =
    let c = parse_render args in render_found h service c (find_library e c.library) s
