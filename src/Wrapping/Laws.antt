-- ===== src/Wrapping/Laws.antt =====
-- What a callback reads from the wrapped request
-- (core/src/main/resources/com/sandbox/runtime/v2/js/version_3/sandbox-patch.js, `wrapCallback`).
use worker_cli.Prelude.{
  ℕ, String, Bool, true, false, ◌≡◌, ◌≢◌, refl, sym, ap, ◌∙◌, Option, none, some, [], ◌∷◌, Dict,
  lookup, insert, lookup-insert, lookup-insert_self, ◌==◌, eq-false, Bool-cases, inl, inr,
  if◌then◌else◌,
}
use worker_cli.Js.{Value, undefined}
use worker_cli.Wrapping.{
  Property, value, forward_request, Wrapped, is_function, copy_request_property, copy_request,
}

-- The image of a property of the host's request.
abbrev pub image : ℕ → String → Value → Property
image host name v = if is_function v then forward_request host name else value v

-- The last property of the name.
abbrev pub last_image : ℕ → String → Dict Value → Option Property → Option Property
last_image host k [] old = old
last_image host k ((name, v) ∷ properties) old =
    last_image host k properties (if name == k then some (image host name v) else old)

-- Some property is no function.
abbrev pub has_data : Dict Value → Bool
has_data [] = false
has_data ((name, v) ∷ properties) = if is_function v then has_data properties else true

lookup-copy_request_property :
    (host : ℕ) (name : String) (v : Value) (w : Wrapped) (k : String)
    → k ≢ "_validationErrors"
    → lookup k (copy_request_property host name v w)
      ≡ (if name == k then some (image host name v) else lookup k w)
unfolding copy_request_property
lookup-copy_request_property host name v w k h = elim (Bool-cases (is_function v)) [
  | inl f ↦ rw f (lookup-insert name k (forward_request host name) w)
  | inr d ↦ rw d (
      lookup-insert "_validationErrors" k (value undefined) (insert name (value v) w)
      ∙ rw (eq-false (λ e. h (sym e))) (lookup-insert name k (value v) w))
]

-- What the callback reads from the wrapped request under any name but `_validationErrors` is the
-- image of the host's last property of that name, and where the host's request has none, what the
-- name meant before: the wrapped object is shared, so that the properties of earlier requests stay.
pub lookup-copy_request :
    (host : ℕ) (properties : Dict Value) (w : Wrapped) (k : String)
    → k ≢ "_validationErrors"
    → lookup k (copy_request host properties w) ≡ last_image host k properties (lookup k w)
unfolding copy_request
lookup-copy_request host [] w k h = refl
lookup-copy_request host ((name, v) ∷ properties) w k h =
    lookup-copy_request host properties (copy_request_property host name v w) k h
    ∙ ap (last_image host k properties) (lookup-copy_request_property host name v w k h)

-- A name that the host's request does not have.
pub last_image-none :
    (host : ℕ) (k : String) (properties : Dict Value) (old : Option Property)
    → lookup k properties ≡ none
    → last_image host k properties old ≡ old
unfolding lookup
last_image-none host k [] old h = refl
last_image-none host k ((name, v) ∷ properties) old h = elim (Bool-cases (name == k)) [
  | inl same ↦ cc (rw same at h)
  | inr other ↦ rw other (last_image-none host k properties old (rw other at h))
]

-- Where the request has the name, what was there before is of no account.
pub last_image-some :
    (host : ℕ) (k : String) (properties : Dict Value) (old : Option Property) (p : Property)
    → last_image host k properties none ≡ some p
    → last_image host k properties old ≡ some p
last_image-some host k [] old p h = cc h
last_image-some host k ((name, v) ∷ properties) old p h = elim (Bool-cases (name == k)) [
  | inl same ↦ rw same (rw same at h)
  | inr other ↦ rw other (last_image-some host k properties old p (rw other at h))
]

pub lookup-copy_request-some :
    (host : ℕ) (properties : Dict Value) (w : Wrapped) (k : String) (p : Property)
    → k ≢ "_validationErrors"
    → last_image host k properties none ≡ some p
    → lookup k (copy_request host properties w) ≡ some p
lookup-copy_request-some host properties w k p other h =
    lookup-copy_request host properties w k other
    ∙ last_image-some host k properties (lookup k w) p h

-- The wrapped request with its errors cleared.
abbrev pub IsCleared : Wrapped → Type 0
IsCleared w = lookup "_validationErrors" w ≡ some (value undefined)

copy_request_property-IsCleared :
    (host : ℕ) (name : String) (v : Value) (w : Wrapped)
    → is_function v ≡ false
    → IsCleared (copy_request_property host name v w)
unfolding copy_request_property
copy_request_property-IsCleared host name v w plain =
    rw plain (lookup-insert_self "_validationErrors" (value undefined) (insert name (value v) w))

kept_by_function :
    (host : ℕ) (name : String) (v : Value) (w : Wrapped)
    → is_function v ≡ true
    → (name == "_validationErrors") ≡ false
    → lookup "_validationErrors" (copy_request_property host name v w)
      ≡ lookup "_validationErrors" w
unfolding copy_request_property
kept_by_function host name v w f other =
    rw f (lookup-insert name "_validationErrors" (forward_request host name) w ∙ rw other refl)

other_name :
    (name : String) (v : Value) (properties : Dict Value)
    → lookup "_validationErrors" ((name, v) ∷ properties) ≡ none
    → ((name == "_validationErrors") ≡ false) × (lookup "_validationErrors" properties ≡ none)
unfolding lookup
other_name name v properties h = elim (Bool-cases (name == "_validationErrors")) [
  | inl same ↦ cc (rw same at h)
  | inr other ↦ (other, rw other at h)
]

copy_request-of_IsCleared :
    (host : ℕ) (properties : Dict Value) (w : Wrapped)
    → lookup "_validationErrors" properties ≡ none
    → IsCleared w
    → IsCleared (copy_request host properties w)
unfolding copy_request
copy_request-of_IsCleared host [] w none_named h = h
copy_request-of_IsCleared host ((name, v) ∷ properties) w none_named h =
    let (other, rest) = other_name name v properties none_named in
    copy_request-of_IsCleared host properties (copy_request_property host name v w) rest
      (elim (Bool-cases (is_function v)) [
        | inl f ↦ kept_by_function host name v w f other ∙ h
        | inr plain ↦ copy_request_property-IsCleared host name v w plain
      ])

-- A request of which some property is no function, and none is named `_validationErrors`, starts
-- with its errors cleared, whatever an earlier request left on the wrapped object.
pub copy_request-IsCleared :
    (host : ℕ) (properties : Dict Value) (w : Wrapped)
    → has_data properties ≡ true
    → lookup "_validationErrors" properties ≡ none
    → IsCleared (copy_request host properties w)
unfolding copy_request
copy_request-IsCleared host [] w h none_named = cc
copy_request-IsCleared host ((name, v) ∷ properties) w h none_named =
    let (other, rest) = other_name name v properties none_named in
    elim (Bool-cases (is_function v)) [
      | inl f ↦
          copy_request-IsCleared host properties (copy_request_property host name v w) (rw f at h)
            rest
      | inr plain ↦
          copy_request-of_IsCleared host properties (copy_request_property host name v w) rest
            (copy_request_property-IsCleared host name v w plain)
    ]

-- What holds of cleared errors and of those that were there holds of the errors afterwards, where no
-- property of the request is named `_validationErrors`.
pub copy_request-errors :
    (P : Option Property → Type 0)
    → P (some (value undefined))
    → (host : ℕ) (properties : Dict Value) (w : Wrapped)
    → lookup "_validationErrors" properties ≡ none
    → P (lookup "_validationErrors" w)
    → P (lookup "_validationErrors" (copy_request host properties w))
unfolding copy_request
copy_request-errors P cleared host [] w none_named h = h
copy_request-errors P cleared host ((name, v) ∷ properties) w none_named h =
    let (other, rest) = other_name name v properties none_named in
    copy_request-errors P cleared host properties (copy_request_property host name v w) rest
      (elim (Bool-cases (is_function v)) [
        | inl f ↦ rw (kept_by_function host name v w f other) h
        | inr plain ↦ rw (copy_request_property-IsCleared host name v w plain) cleared
      ])
