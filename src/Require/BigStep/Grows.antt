-- ===== src/Require/BigStep/Grows.antt =====
-- The modules that any `require` leaves, loaded or not
-- (core/src/main/resources/com/sandbox/runtime/v2/js/version_3/sandbox-patch.js, `Require`,
-- `loadModule`, `Module._load`).
use worker_cli.Prelude.{
  ℕ, String, Bool, true, false, ◌≡◌, sym, ap, ◌∙◌, Option, some, List, [], ◌∷◌, ◌++◌, append-nil,
  append_assoc, ends_with,
}
use worker_cli.Js.{JsError, Result, throw}
use worker_cli.Paths.{resolve}
use worker_cli.Modules.{Exports, Store, assign_exports, new_module}
use worker_cli.Require.{Script, definition_of, with_route, Host, parent_file}
use worker_cli.Require.BigStep.{
  Requires, unknown, cached, json, unreadable, failed, loaded, Runs, ended, raised, assigned,
  required, mocked,
}
use worker_cli.Require.BigStep.Marks.{
  marks, marks-assign_exports, marks-new_module, marks-mark_loaded, marks-with_route,
}

-- The modules that were there stay, each loaded or not as it was, and others come behind them.
abbrev pub Grows : Store → Store → Type 0
Grows s t = (ms : List (String × Bool)) × (marks t ≡ marks s ++ ms)

Grows-refl : (s : Store) → Grows s s
Grows-refl s = ([], sym (append-nil (marks s)))

Grows-trans : (s t u : Store) → Grows s t → Grows t u → Grows s u
Grows-trans s t u (ms, a) (ns, b) =
    (ms ++ ns, b ∙ ap (λ xs. xs ++ ns) a ∙ append_assoc (marks s) ms ns)

Grows-same : (s t u : Store) → marks t ≡ marks s → Grows t u → Grows s u
Grows-same s t u same (ms, e) = (ms, e ∙ ap (λ xs. xs ++ ms) same)

-- A new module, behind those that were there, and what came after it
Grows-new_module :
    (file : String) (parent : Option ℕ) (s t : Store)
    → Grows (new_module file parent s) t
    → (ms : List (String × Bool)) × (marks t ≡ marks s ++ (file, false) ∷ ms)
Grows-new_module file parent s t (ms, e) = (
  ms,
  e
      ∙ ap (λ xs. xs ++ ms) (marks-new_module file parent s)
      ∙ append_assoc (marks s) ((file, false) ∷ []) ms,
)

mutual
  unfolding assign_exports

  pub Requires-Grows :
      {host : Host} {id : String} {parent : Option ℕ} {s t : Store} {x : Result Exports}
      → Requires host id parent s x t
      → Grows s t
  Requires-Grows {s = s} (unknown named) = Grows-refl s
  Requires-Grows {s = s} (cached named there) = Grows-refl s
  Requires-Grows {s = s} (json named missing is_json) = Grows-refl s
  Requires-Grows {parent = parent} {s = s} (unreadable {file = file} named missing code compiled) =
      ((file, false) ∷ [], marks-new_module file parent s)
  Requires-Grows {parent = parent} {s = s} {t = t}
        (failed {file = file} named missing code compiled d) =
      let (ms, e) = Grows-new_module file parent s t (Runs-Grows d) in ((file, false) ∷ ms, e)
  Requires-Grows {parent = parent} {s = s}
        (loaded {t = t} {file = file} named missing code compiled d) =
      let (ms, e) = Grows-new_module file parent s t (Runs-Grows d) in
      ((file, true) ∷ ms, marks-mark_loaded s t file false ms e)

  Runs-Grows :
      {host : Host} {self : ℕ} {script : Script} {s t : Store} {r : Result (Unit {0})}
      → Runs host self script s r t
      → Grows s t
  Runs-Grows {s = s} ended = Grows-refl s
  Runs-Grows {s = s} raised = Grows-refl s
  Runs-Grows {self = self} {s = s} {t = t} (assigned {v = v} d) =
      Grows-same s (assign_exports self v s) t (marks-assign_exports self v s) (Runs-Grows d)
  Runs-Grows {s = s} {t = u} (required {t = t} d d') =
      Grows-trans s t u (Requires-Grows d) (Runs-Grows d')
  Runs-Grows {s = s} {t = t} (mocked {call = call} d) =
      Grows-same s (with_route (definition_of call) s) t (marks-with_route (definition_of call) s)
        (Runs-Grows d)

-- Where a JavaScript file throws, its module is the first new one, and is not loaded.
pub Requires-Grows_thrown :
    {host : Host} {id : String} {parent : Option ℕ} {s t : Store} {x : Result Exports}
    (file : String) (e : JsError)
    → resolve host.has_file id (parent_file parent s) ≡ some file
    → ends_with file ".json" ≡ false
    → x ≡ throw e
    → Requires host id parent s x t
    → (ms : List (String × Bool)) × (marks t ≡ marks s ++ (file, false) ∷ ms)
Requires-Grows_thrown file e found code thrown (unknown named) = cc (found, named)
Requires-Grows_thrown file e found code thrown (cached named there) = cc thrown
Requires-Grows_thrown file e found code thrown (json {file = other} named missing is_json) =
    let same : other ≡ file = cc (found, named) in cc (rw same at is_json, code)
Requires-Grows_thrown {parent = parent} {s = s} file e found code thrown
      (unreadable {file = other} named missing is_code compiled) =
    let same : other ≡ file = cc (found, named) in
    ([], rw (← same) (marks-new_module other parent s))
Requires-Grows_thrown {parent = parent} {s = s} {t = t} file e found code thrown
      (failed {file = other} named missing is_code compiled d) =
    let same : other ≡ file = cc (found, named) in
    rw (← same) (Grows-new_module other parent s t (Runs-Grows d))
Requires-Grows_thrown file e found code thrown (loaded named missing is_code compiled d) = cc thrown
