-- ===== src/Require/BigStep/Keeps.antt =====
-- Invariants of the store that every `require` keeps
-- (core/src/main/resources/com/sandbox/runtime/v2/js/version_3/sandbox-patch.js, `Require`): it is
-- enough that the steps of the store keep them.
use worker_cli.Prelude.{
  ℕ, suc, ◌≤◌, ◌<◌, String, false, ◌≡◌, refl, Option, none, some, List, [], ◌∷◌, ◌++◌, length,
  length-modify, length-concat, ends_with, arith,
}
use worker_cli.Js.{Result, ok, throw}
use worker_cli.Routes.{Definition}
use worker_cli.Modules.{
  Exports, Module, Store, with_exports, as_loaded, with_child, assign_exports, adopt, fresh_module,
  new_module, mark_loaded, add_route,
}
use worker_cli.Require.{MockCall, definition_of, with_route, Script, Host}
use worker_cli.Require.BigStep.{
  Requires, unknown, cached, json, unreadable, failed, loaded, Runs, ended, raised, assigned,
  required, mocked,
}

-- The module that requires is one of the store's.
abbrev pub HasParent : Option ℕ → Store → Type 0
HasParent none s = Unit
HasParent (some p) s = p < length s.modules

-- The steps of the store keep the invariant; modules are made for JavaScript files only.
pub record Keeps (P : Store → Type 0) : Type 0 where
  pub new :
      (file : String) (parent : Option ℕ) (s : Store)
      → ends_with file ".json" ≡ false
      → HasParent parent s
      → P s
      → P (new_module file parent s)
  pub assign :
      (self : ℕ) (v : Exports) (s : Store)
      → self < length s.modules
      → P s
      → P (assign_exports self v s)
  pub route :
      (call : MockCall) (d : Definition) (s : Store)
      → definition_of call ≡ ok d
      → P s
      → P (add_route d s)
  pub mark : (self : ℕ) (s : Store) → P s → P (mark_loaded self s)

length-adopt :
    (parent : Option ℕ) (c : ℕ) (ms : List Module) → length (adopt parent c ms) ≡ length ms
length-adopt none c ms = refl
length-adopt (some p) c ms = length-modify ms p (with_child c)

pub length-new_module :
    (file : String) (parent : Option ℕ) (s : Store)
    → length (new_module file parent s).modules ≡ suc (length s.modules)
unfolding new_module
length-new_module file parent s = omega (
  arith,
  length-adopt parent (length s.modules) (s.modules ++ fresh_module file parent s.objects ∷ []),
  length-concat s.modules (fresh_module file parent s.objects),
)

pub length-assign_exports :
    (self : ℕ) (v : Exports) (s : Store)
    → length (assign_exports self v s).modules ≡ length s.modules
unfolding assign_exports
length-assign_exports self v s = length-modify s.modules self (with_exports v)

length-mark_loaded : (self : ℕ) (s : Store) → length (mark_loaded self s).modules ≡ length s.modules
length-mark_loaded self s = length-modify s.modules self as_loaded

length-with_route :
    (r : Result Definition) (s : Store) → length (with_route r s).modules ≡ length s.modules
length-with_route (throw e) s = refl
length-with_route (ok d) s = refl

module _ {P : Store → Type 0} (k : Keeps P) where
  -- The invariant holds of the later store, and no module is gone.
  abbrev Kept : Store → Store → Type 0
  Kept s t = P t × (length s.modules ≤ length t.modules)

  with_route-kept :
      (call : MockCall) (s : Store) (r : Result Definition)
      → definition_of call ≡ r
      → P s
      → P (with_route r s)
  with_route-kept call s (throw e) same p = p
  with_route-kept call s (ok d) same p = k.route call d s same p

  mutual
    Requires-Kept :
        {host : Host} {id : String} {parent : Option ℕ} {s t : Store} {x : Result Exports}
        → Requires host id parent s x t
        → HasParent parent s
        → P s
        → Kept s t
    Requires-Kept (unknown named) h p = (p, omega arith)
    Requires-Kept (cached named found) h p = (p, omega arith)
    Requires-Kept (json named missing is_json) h p = (p, omega arith)
    Requires-Kept {parent = parent} {s = s} (unreadable {file = file} named missing code compiled) h
          p =
        (k.new file parent s code h p, omega (arith, length-new_module file parent s))
    Requires-Kept {parent = parent} {s = s} (failed {file = file} named missing code compiled d) h
          p =
        let now = length-new_module file parent s in
        let (q, more) = Runs-Kept d (omega arith) (k.new file parent s code h p) in (q, omega arith)
    Requires-Kept {parent = parent} {s = s}
          (loaded {t = t} {file = file} named missing code compiled d) h p =
        let now = length-new_module file parent s in
        let (q, more) = Runs-Kept d (omega arith) (k.new file parent s code h p) in
        (k.mark (length s.modules) t q, omega (arith, length-mark_loaded (length s.modules) t))

    Runs-Kept :
        {host : Host} {self : ℕ} {script : Script} {s t : Store} {r : Result (Unit {0})}
        → Runs host self script s r t
        → self < length s.modules
        → P s
        → Kept s t
    Runs-Kept ended h p = (p, omega arith)
    Runs-Kept raised h p = (p, omega arith)
    Runs-Kept {self = self} {s = s} (assigned {v = v} d) h p =
        let now = length-assign_exports self v s in
        let (q, more) = Runs-Kept d (omega arith) (k.assign self v s h p) in (q, omega arith)
    Runs-Kept (required d d') h p =
        let (q, more) = Requires-Kept d h p in
        let (r, more') = Runs-Kept d' (omega arith) q in (r, omega arith)
    Runs-Kept {s = s} (mocked {call = call} d) h p =
        let now = length-with_route (definition_of call) s in
        let (q, more) =
          Runs-Kept d (omega arith) (with_route-kept call s (definition_of call) refl p) in
        (q, omega arith)

  pub Requires-keeps :
      {host : Host} {id : String} {parent : Option ℕ} {s t : Store} {x : Result Exports}
      → Requires host id parent s x t
      → HasParent parent s
      → P s
      → P t
  Requires-keeps d h p = (Requires-Kept d h p).0
