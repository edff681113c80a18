-- ===== src/Require/Again.antt =====
-- A second `require` of the same file
-- (core/src/main/resources/com/sandbox/runtime/v2/js/version_3/sandbox-patch.js, `Require`).
use mathlib.Core.Option
use worker_cli.Prelude.{
  Bool, ◌∷◌, ◌++◌, ap, ℕ, zero, suc, String, true, false, ◌≡◌, refl, Option, none, some, List, ◌<◌,
  arith, length, get_elem?, lookup, eqb_refl, ends_with, Option-cases, inl, inr,
}
use worker_cli.Js.{JsError, Result, ok, throw}
use worker_cli.Paths.{resolve}
use worker_cli.Modules.{Exports, Module, file_of, reference, Store, new_module, exports_of}
use worker_cli.Modules.Invariant.{entry, entry_at, IsCoherent, entry_at-new_module}
use worker_cli.Require.{
  Host, Requirer, Outcome, return_exports, load_module, require_file, parent_file, require_from,
}
use worker_cli.Require.BigStep.Marks.{marks}
use worker_cli.Require.BigStep.Sound.{Requires-of_require_from}
use worker_cli.Require.BigStep.Grows.{Requires-Grows_thrown}
use worker_cli.Require.Uncached.{IsSound, occurs, uncached}
use worker_cli.Require.Total.{
  SettlesBelow, load-Settles_new, require_from-Settles, resolve-has_file,
}

-- The exports of a module in a well-formed store are what the cache has for its file.
exports_of-cached :
    (t : Store) (self : ℕ) (file : String) (w : Exports)
    → IsCoherent t
    → entry_at t self ≡ some (file, w)
    → lookup file t.cache ≡ some (exports_of (get_elem? t.modules self))
exports_of-cached t self file w c e = elim (Option-cases (get_elem? t.modules self)) [
  | inl missing ↦ cc (rw missing at e)
  | inr (m, found) ↦ rw found (c.cached self file m.exports (rw found (ground (arith, e, found))))
]

-- A file is served from the cache, whatever would run it.
served :
    (host : Host) (req : Requirer) (file : String) (parent : Option ℕ) (t : Store) (v : Exports)
    → IsCoherent t
    → lookup file t.cache ≡ some v
    → require_file host req file parent t ≡ some (ok v, t)
unfolding require_file
served host req file parent t v c found = rw (found, require_file) (rw (c.truthful file v found))

returned :
    (self : ℕ) (r : Result (Unit {0})) (t₀ t : Store) (x : Result Exports)
    → return_exports self r t₀ ≡ some (x, t)
    → (t₀ ≡ t) × ((v : Exports) → x ≡ ok v → exports_of (get_elem? t.modules self) ≡ v)
returned self (ok u) t₀ t x e = (cc, λ v h. cc)
returned self (throw err) t₀ t x e = (cc, λ v h. cc)

-- The file is in the cache, and with the exports that the call gave back if it did.
abbrev IsServed : String → Result Exports → Store → Type 0
IsServed file x t =
    (w : Exports) × (lookup file t.cache ≡ some w) × ((v : Exports) → x ≡ ok v → w ≡ v)

module _ (host : Host) (files : List String) (sound : IsSound host files) (n : ℕ) (req : Requirer)
    (ih : SettlesBelow host files sound n req) (file : String) (parent : Option ℕ) (s : Store)
    (c : IsCoherent s) (listed : occurs file files ≡ true) (h : uncached files s < suc n) where
  load_module-IsServed :
      (x : Result Exports) (t : Store)
      → lookup file s.cache ≡ none
      → load_module host req file parent s ≡ some (x, t)
      → IsServed file x t
  unfolding load_module
  load_module-IsServed x t missing e =
      let a = load-Settles_new host files sound n req ih file parent s c missing listed h in
      let self : ℕ = length s.modules in
      let (same, gave) = returned self a.result a.store t x (rw a.returns at e) in
      let made : entry_at (new_module file parent s) self ≡ some (file, reference s.objects) =
        rw (entry_at-new_module file parent s self, eqb_refl self) in
      let (w, there) = a.extends.named self file (reference s.objects) made in
      let found = exports_of-cached a.store self file w a.coherent there in
      (exports_of (get_elem? t.modules self), rw same at found, gave)

  require_file-IsServed :
      (x : Result Exports) (t : Store)
      → ends_with file ".json" ≡ false
      → require_file host req file parent s ≡ some (x, t)
      → IsServed file x t
  unfolding require_file
  require_file-IsServed x t code e = elim (Option-cases (lookup file s.cache)) [
    | inl missing ↦
        let opened = rw (missing, require_file) at e in
        load_module-IsServed x t missing (rw code at opened)
    | inr (v, found) ↦
        let back : ◌≡◌ {A = Outcome Exports} (some (ok v, s)) (some (x, t)) =
          rw (← served host req file parent s v c found) e in
        let same : s ≡ t = cc back in (v, rw same at found, λ u k. cc (back, k))
  ]

resolved :
    (host : Host) (depth : ℕ) (id : String) (parent : Option ℕ) (s : Store) (file : String)
    → resolve host.has_file id (parent_file parent s) ≡ some file
    → require_from host (suc depth) id parent s
      ≡ require_file host (λ i self. require_from host depth i (some self)) file parent s
unfolding require_from
resolved host depth id parent s file found = rw (found, require_from)

entry_of_file :
    (o : Option Module) (f : String)
    → file_of o ≡ some f
    → (v : Exports) × (Option.map entry o ≡ some (f, v))
entry_of_file none f e = cc
entry_of_file (some m) f e = (m.exports, ap (λ g. some (g, m.exports)) (cc e))

module _ (host : Host) (files : List String) (sound : IsSound host files) where
  required-IsServed :
      (depth : ℕ) (id : String) (parent : Option ℕ) (s : Store) (file : String) (x : Result Exports)
      (t : Store)
      → IsCoherent s
      → uncached files s < depth
      → resolve host.has_file id (parent_file parent s) ≡ some file
      → ends_with file ".json" ≡ false
      → require_from host depth id parent s ≡ some (x, t)
      → IsServed file x t
  required-IsServed zero id parent s file x t c h found code e = absurd (omega arith)
  required-IsServed (suc depth) id parent s file x t c h found code e =
      require_file-IsServed host files sound depth (λ i self. require_from host depth i (some self))
        (λ i self u d k. require_from-Settles host files sound depth i (some self) u d k) file
        parent s c (sound.listed file (resolve-has_file host id (parent_file parent s) file found))
        h x t code (rw (resolved host depth id parent s file found) at e)

  -- The store that a call leaves is well-formed.
  required-IsCoherent :
      (depth : ℕ) (id : String) (parent : Option ℕ) (s : Store) (x : Result Exports) (t : Store)
      → IsCoherent s
      → uncached files s < depth
      → require_from host depth id parent s ≡ some (x, t)
      → IsCoherent t
  required-IsCoherent depth id parent s x t c h e =
      let a = require_from-Settles host files sound depth id parent s c h in
      let back = rw a.returns at e in let same : a.store ≡ t = cc back in rw same at a.coherent

  -- Let the repository have finitely many files and its scripts export truthy values only. Once a
  -- JavaScript file has been required from a well-formed store, with enough depth, and has returned
  -- its exports, every later `require` that resolves to the file, by whatever id and from whatever
  -- module, returns the same exports and leaves the store as it is: no code runs a second time, and
  -- no route is registered again.
  pub require_again :
      (depth later : ℕ) (id id' : String) (parent parent' : Option ℕ) (s t : Store) (file : String)
      (v : Exports)
      → IsCoherent s
      → uncached files s < depth
      → resolve host.has_file id (parent_file parent s) ≡ some file
      → ends_with file ".json" ≡ false
      → require_from host depth id parent s ≡ some (ok v, t)
      → resolve host.has_file id' (parent_file parent' t) ≡ some file
      → require_from host (suc later) id' parent' t ≡ some (ok v, t)
  require_again depth later id id' parent parent' s t file v c h found code e found' =
      let (w, there, gave) = required-IsServed depth id parent s file (ok v) t c h found code e in
      let d = required-IsCoherent depth id parent s (ok v) t c h e in
      rw (resolved host later id' parent' t file found') (
        served host (λ i self. require_from host later i (some self)) file parent' t v d
          (rw (gave v refl) at there))

  -- Let the repository have finitely many files and its scripts export truthy values only. If a
  -- `require` that resolves to a JavaScript file, from a well-formed store and with enough depth,
  -- throws, its module is the first one that was made and is not loaded in the end, with the
  -- modules before it loaded or not as they were, but the file is in the cache: every later
  -- `require` that resolves to it returns what the cache has, without an error, and leaves the
  -- store as it is.
  pub require_after_throw :
      (depth later : ℕ) (id id' : String) (parent parent' : Option ℕ) (s t : Store) (file : String)
      (err : JsError)
      → IsCoherent s
      → uncached files s < depth
      → resolve host.has_file id (parent_file parent s) ≡ some file
      → ends_with file ".json" ≡ false
      → require_from host depth id parent s ≡ some (throw err, t)
      → resolve host.has_file id' (parent_file parent' t) ≡ some file
      → (w : Exports) × (lookup file t.cache ≡ some w)
        × (require_from host (suc later) id' parent' t ≡ some (ok w, t))
        × ((ms : List (String × Bool)) × (marks t ≡ marks s ++ (file, false) ∷ ms))
  require_after_throw depth later id id' parent parent' s t file err c h found code e found' =
      let (w, there, _) = required-IsServed depth id parent s file (throw err) t c h found code e in
      let d = required-IsCoherent depth id parent s (throw err) t c h e in
      (
        w,
        there,
        rw (resolved host later id' parent' t file found') (
            served host (λ i self. require_from host later i (some self)) file parent' t w d there),
        Requires-Grows_thrown file err found code refl
            (Requires-of_require_from host depth id parent s (throw err) t e),
      )

  -- Let the repository have finitely many files and its scripts export truthy values only. A
  -- `require` from a well-formed store and with enough depth, whether it returns or throws, leaves
  -- no file with two modules: a module is made at each run of a file's code, so that no code runs
  -- twice, in a cycle or otherwise.
  pub require_once :
      (depth : ℕ) (id : String) (parent : Option ℕ) (s : Store) (x : Result Exports) (t : Store)
      → IsCoherent s
      → uncached files s < depth
      → require_from host depth id parent s ≡ some (x, t)
      → (i j : ℕ) (file : String) → file_of (get_elem? t.modules i) ≡ some file
      → file_of (get_elem? t.modules j) ≡ some file
      → i ≡ j
  require_once depth id parent s x t c h e i j file at_i at_j =
      let d = required-IsCoherent depth id parent s x t c h e in
      let (v, entry_i) = entry_of_file (get_elem? t.modules i) file at_i in
      let (w, entry_j) = entry_of_file (get_elem? t.modules j) file at_j in
      d.unique i j file v w entry_i entry_j
