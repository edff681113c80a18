-- ===== src/Modules.antt =====
-- The modules that `require` makes, and its cache: `Module` with the setter of `exports`
-- (core/src/main/resources/com/sandbox/runtime/v2/js/version_3/sandbox-patch.js).
-- The modules live in a store, in the order in which they were made, and a module is its index. An
-- object that a module exports is a reference, so that writes to its properties, which the cache
-- shares, need no step of the model.
pub mod Invariant
pub mod Steps
use worker_cli.Prelude.{
  ℕ, suc, String, Bool, true, false, Option, none, some, List, [], ◌∷◌, ◌++◌, length, get_elem?,
  modify, Dict, insert,
}
use worker_cli.Js.{Value, undefined, truthy}
use worker_cli.Routes.{Definition}

-- What a module exports: an object or function with an identity of its own, or another value.
pub data Exports : Type 0 where
  reference : ℕ → Exports
  plain : Value → Exports

abbrev pub is_truthy : Exports → Bool
is_truthy (reference _) = true
is_truthy (plain v) = truthy v

-- `Module`: the fields `id` and `filename` are equal
pub record Module : Type 0 where
  pub filename : String
  pub parent : Option ℕ
  pub children : List ℕ
  pub exports : Exports
  pub loaded : Bool

-- `Require.cache` and the modules; `objects` counts the objects made for `this.exports = {}`, and
-- `routes` are the calls of the host's `__mock.define`, in order.
pub record Store : Type 0 where
  pub cache : Dict Exports
  pub modules : List Module
  pub objects : ℕ
  pub routes : List Definition

abbrev pub initial : Store
initial = record { cache = []; modules = []; objects = 0; routes = [] }

abbrev pub with_exports : Exports → Module → Module
with_exports value m = record m { exports = value }

abbrev pub file_of : Option Module → Option String
file_of none = none
file_of (some m) = some m.filename

abbrev pub exports_of : Option Module → Exports
exports_of none = plain undefined
exports_of (some m) = m.exports

abbrev pub cache_at : Option Module → Exports → Dict Exports → Dict Exports
cache_at none value cache = cache
cache_at (some m) value cache = insert m.filename value cache

-- The setter of `exports`: it writes `Require.cache[this.filename]` too.
unfoldable pub assign_exports : ℕ → Exports → Store → Store
unfolding insert
assign_exports self value s = record s {
  cache = cache_at (get_elem? s.modules self) value s.cache;
  modules = modify s.modules self (with_exports value);
}

abbrev pub with_child : ℕ → Module → Module
with_child child m = record m { children = m.children ++ child ∷ [] }

-- `self.parent.children.push(self)`, if there is a parent
abbrev pub adopt : Option ℕ → ℕ → List Module → List Module
adopt none child ms = ms
adopt (some p) child ms = modify ms p (with_child child)

abbrev pub fresh_module : String → Option ℕ → ℕ → Module
fresh_module file parent object = record {
  filename = file;
  parent = parent;
  children = [];
  exports = reference object;
  loaded = false;
}

-- `new Module(file, parent)`. Its `this.exports = {}` goes by the setter, so a new object is in the
-- cache under the file's name before any of the file's code has run.
unfoldable pub new_module : String → Option ℕ → Store → Store
unfolding insert
new_module file parent s = record {
  cache = insert file (reference s.objects) s.cache;
  modules = adopt parent (length s.modules) (s.modules ++ fresh_module file parent s.objects ∷ []);
  objects = suc s.objects;
  routes = s.routes;
}

abbrev pub as_loaded : Module → Module
as_loaded m = record m { loaded = true }

abbrev pub mark_loaded : ℕ → Store → Store
mark_loaded self s = record s { modules = modify s.modules self as_loaded }

abbrev pub add_route : Definition → Store → Store
add_route d s = record s { routes = s.routes ++ d ∷ [] }
