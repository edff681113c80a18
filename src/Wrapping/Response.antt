-- ===== src/Wrapping/Response.antt =====
-- What a callback reads from the wrapped response
-- (core/src/main/resources/com/sandbox/runtime/v2/js/version_3/sandbox-patch.js, `wrapCallback`).
use worker_cli.Prelude.{
  none, false, ℕ, String, ◌≡◌, refl, ap, ◌∙◌, Option, some, [], ◌∷◌, Dict, lookup, lookup-insert,
  ◌==◌, Bool-cases, inl, inr, if◌then◌else◌,
}
use worker_cli.Js.{Value}
use worker_cli.Wrapping.{
  Property, value, forward_response, render, Wrapped, HostObject, is_function,
  copy_response_property, copy_response, Wrappers, wrap,
}

-- The image of a property of the host's response.
abbrev pub response_image : ℕ → String → Value → Property
response_image host name v = if is_function v then forward_response host name else value v

-- The last property of the name.
abbrev pub last_response_image : ℕ → String → Dict Value → Option Property → Option Property
last_response_image host k [] old = old
last_response_image host k ((name, v) ∷ properties) old =
    last_response_image host k properties
      (if name == k then some (response_image host name v) else old)

lookup-copy_response_property :
    (host : ℕ) (name : String) (v : Value) (w : Wrapped) (k : String)
    → lookup k (copy_response_property host name v w)
      ≡ (if name == k then some (response_image host name v) else lookup k w)
unfolding copy_response_property
lookup-copy_response_property host name v w k = elim (Bool-cases (is_function v)) [
  | inl f ↦ rw f (lookup-insert name k (forward_response host name) w)
  | inr plain ↦ rw plain (lookup-insert name k (value v) w)
]

lookup-copy_response :
    (host : ℕ) (properties : Dict Value) (w : Wrapped) (k : String)
    → lookup k (copy_response host properties w)
      ≡ last_response_image host k properties (lookup k w)
unfolding copy_response
lookup-copy_response host [] w k = refl
lookup-copy_response host ((name, v) ∷ properties) w k =
    lookup-copy_response host properties (copy_response_property host name v w) k
    ∙ ap (last_response_image host k properties) (lookup-copy_response_property host name v w k)

-- `render` of the wrapped response renders with the request of the running callback, whatever the
-- host's response and earlier callbacks had under the name; any other name is the image of the host's
-- last property of that name, and where the host's response has none, what the name meant before.
pub lookup-wrap :
    (request response : HostObject) (w : Wrappers) (k : String)
    → lookup k (wrap request response w).response ≡ (
        if "render" == k
        then some (render request)
        else last_response_image response.host k response.properties (lookup k w.response))
unfolding wrap
lookup-wrap request response w k =
    lookup-insert "render" k (render request)
      (copy_response response.host response.properties w.response)
    ∙ ap (λ old. if "render" == k then some (render request) else old)
        (lookup-copy_response response.host response.properties w.response k)

-- A name that the host's response does not have.
pub last_response_image-none :
    (host : ℕ) (k : String) (properties : Dict Value) (old : Option Property)
    → lookup k properties ≡ none
    → last_response_image host k properties old ≡ old
unfolding lookup
last_response_image-none host k [] old h = refl
last_response_image-none host k ((name, v) ∷ properties) old h = elim (Bool-cases (name == k)) [
  | inl same ↦ cc (rw same at h)
  | inr other ↦ rw other (last_response_image-none host k properties old (rw other at h))
]

last_response_image-some :
    (host : ℕ) (k : String) (properties : Dict Value) (old : Option Property) (p : Property)
    → last_response_image host k properties none ≡ some p
    → last_response_image host k properties old ≡ some p
last_response_image-some host k [] old p h = cc h
last_response_image-some host k ((name, v) ∷ properties) old p h = elim (Bool-cases (name == k)) [
  | inl same ↦ rw same (rw same at h)
  | inr other ↦ rw other (last_response_image-some host k properties old p (rw other at h))
]

-- What the host's response offers, but for `render`, is what the wrapped response has.
pub lookup-wrap-some :
    (request response : HostObject) (w : Wrappers) (k : String) (p : Property)
    → ("render" == k) ≡ false
    → last_response_image response.host k response.properties none ≡ some p
    → lookup k (wrap request response w).response ≡ some p
lookup-wrap-some request response w k p other h =
    lookup-wrap request response w k
    ∙ rw other (last_response_image-some response.host k response.properties _ p h)
