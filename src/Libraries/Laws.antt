-- ===== src/Libraries/Laws.antt =====
-- When a lazy library is loaded, and what reaches it
-- (core/src/main/resources/com/sandbox/runtime/v2/js/version_3/sandbox-libraries.js).
use worker_cli.Prelude.{
  ℕ, ◌≡◌, refl, sym, ap, Option, none, some, List, [], ◌∷◌, ◌++◌, append-nil, append_assoc,
}
use worker_cli.Js.{Value, array, from_list, Result, ok}
use worker_cli.Libraries.{
  LibraryId, LibraryHost, Lazy, Log, eval_library, get_library_object, Access, use_target, trap,
  traps, Globals, globals_of, Versions, install,
}

-- A proxy whose library has been loaded answers from the target, and loads nothing.
traps_resolved :
    (h : LibraryHost) (id : LibraryId) (target : ℕ) (accesses : List Access) (log : Log)
    → traps h (record { id = id; resolved = some target }) accesses log
      ≡ (record { id = id; resolved = some target }, log)
unfolding traps trap
traps_resolved h id target [] log = refl
traps_resolved h id target (access ∷ accesses) log = traps_resolved h id target accesses log

-- The evaluations that the uses of a proxy cause.
abbrev pub loads : LibraryId → List Access → Log
loads id [] = []
loads id (access ∷ accesses) = id ∷ []

-- A library that defines its object is evaluated at the first use of its proxy and never again: any
-- sequence of uses adds one evaluation, and an empty one none.
pub traps-loads :
    (h : LibraryHost) (id : LibraryId) (target : ℕ) (accesses : List Access) (log : Log)
    → h.eval_library id ≡ ok (some target)
    → (traps h (get_library_object id) accesses log).1 ≡ log ++ loads id accesses
unfolding traps trap eval_library
traps-loads h id target [] log defined = sym (append-nil log)
traps-loads h id target (access ∷ accesses) log defined =
    rw (defined, traps) (rw (traps_resolved h id target accesses (log ++ id ∷ [])))

-- The use of a library's object itself, with no proxy between.
abbrev pub direct : LibraryHost → ℕ → Access → Result Value
direct h target (Access.get property) = h.property target property
direct h target (Access.apply args) = h.call target args
direct h target (Access.construct args) = h.construct target args

-- What the target sees of a use of its proxy.
abbrev pub passed_on : Access → Access
passed_on (Access.get property) = Access.get property
passed_on (Access.apply args) = Access.apply (array (from_list args) ∷ [])
passed_on (Access.construct args) = Access.construct args

use_target-direct :
    (h : LibraryHost) (target : ℕ) (access : Access)
    → use_target h (some target) access ≡ direct h target (passed_on access)
unfolding use_target
use_target-direct h target (Access.get property) = refl
use_target-direct h target (Access.apply args) = refl
use_target-direct h target (Access.construct args) = refl

-- The proxy of a library that defines its object, at any use, first or later: properties and
-- constructions are the object's own, while a call reaches the object with one argument, the array
-- of the arguments of the call.
pub trap-direct :
    (h : LibraryHost) (id : LibraryId) (target : ℕ) (before : List Access) (access : Access)
    (log : Log)
    → h.eval_library id ≡ ok (some target)
    → (lazy : Lazy) × (now : Log) × ((traps h (get_library_object id) before log) ≡ (lazy, now))
      × ((trap h lazy access now).0 ≡ direct h target (passed_on access))
unfolding traps trap eval_library
trap-direct h id target [] access log defined =
    (get_library_object id, log, refl, rw (defined, trap) (use_target-direct h target access))
trap-direct h id target (first ∷ before) access log defined = (
  record { id = id; resolved = some target },
  log ++ id ∷ [],
  rw (defined, traps) (traps_resolved h id target before (log ++ id ∷ [])),
  use_target-direct h target access,
)

-- Setting up evaluates the validator and the schema validator, in this order, and none of the three
-- lazy libraries, whose proxies are made without a target.
pub install-log :
    (h : LibraryHost) (v : Versions) (log : Log) (validator schema_validator : Option ℕ)
    → h.eval_library v.validator ≡ ok validator
    → h.eval_library v.schema_validator ≡ ok schema_validator
    → (g : Globals) × (install h v log ≡ (ok g, log ++ v.validator ∷ v.schema_validator ∷ []))
      × (g.validator ≡ validator)
      × (g.schema_validator ≡ schema_validator)
      × (g.faker.resolved ≡ none)
      × (g.lodash.resolved ≡ none)
      × (g.moment.resolved ≡ none)
unfolding install eval_library
install-log h v log validator schema_validator p q = (
  globals_of v validator schema_validator,
  rw (p, q)
      (ap (λ l. (ok (globals_of v validator schema_validator), l))
        (append_assoc log (v.validator ∷ []) (v.schema_validator ∷ []))),
  refl,
  refl,
  refl,
  refl,
  refl,
)
