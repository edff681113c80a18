-- ===== src/Require/BigStep/Registers.antt =====
-- The routes that a `require` registers
-- (core/src/main/resources/com/sandbox/runtime/v2/js/version_3/sandbox-patch.js, `Require` and
-- `define`), whatever was registered before.
use worker_cli.Prelude.{
  ℕ, String, ◌≡◌, refl, sym, ap, ◌∙◌, Option, none, some, List, [], ◌∷◌, ◌++◌, append-nil,
  append_assoc,
}
use worker_cli.Js.{Result, ok, throw}
use worker_cli.Routes.{Definition}
use worker_cli.Modules.{Exports, Store, assign_exports, new_module}
use worker_cli.Require.{definition_of, answer, with_route, Script, Host, parent_file}
use worker_cli.Require.BigStep.{
  Requires, unknown, cached, json, unreadable, failed, loaded, Runs, ended, raised, assigned,
  required, mocked, Names,
}

abbrev pub with_routes : List Definition → Store → Store
with_routes routes s = record s { routes = routes }

-- The run from `s` to `t` adds the routes `rs`, and would do the same behind any others.
pub record Adds (Run : Store → Store → Type 0) (s t : Store) : Type 0 where
  pub routes : List Definition
  pub added : t.routes ≡ s.routes ++ routes
  pub anywhere :
      (before : List Definition) → Run (with_routes before s) (with_routes (before ++ routes) t)

Adds-none :
    {Run : Store → Store → Type 0} (s t : Store)
    → t.routes ≡ s.routes
    → ((before : List Definition) → Run (with_routes before s) (with_routes before t))
    → Adds Run s t
Adds-none s t same h = record {
  routes = [];
  added = same ∙ sym (append-nil s.routes);
  anywhere = λ before. rw (append-nil before) (h before);
}

parent_file-with_routes :
    (parent : Option ℕ) (s : Store) (before : List Definition)
    → parent_file parent (with_routes before s) ≡ parent_file parent s
parent_file-with_routes none s before = refl
parent_file-with_routes (some p) s before = refl

Names-with_routes :
    (host : Host) (id : String) (parent : Option ℕ) (s : Store) (file : Option String)
    (before : List Definition)
    → Names host id parent s file
    → Names host id parent (with_routes before s) file
Names-with_routes host id parent s file before h = rw (parent_file-with_routes parent s before) h

abbrev RunsTo : Host → ℕ → Script → Result (Unit {0}) → Store → Store → Type 0
RunsTo host self script r s t = Runs host self script s r t

abbrev RequiresTo : Host → String → Option ℕ → Result Exports → Store → Store → Type 0
RequiresTo host id parent x s t = Requires host id parent s x t

-- A call of the mock, after which the run adds routes.
module _ (host : Host) (self : ℕ) (rest : Result (Unit {0}) → Script) (s t : Store)
    (r : Result (Unit {0})) where
  answered :
      (d : Result Definition)
      → Adds (RunsTo host self (rest (answer host d)) r) (with_route d s) t
      → (rs : List Definition) × (t.routes ≡ s.routes ++ rs)
        × ((before : List Definition)
            → Runs host self
                (rest (answer host d))
                (with_route d (with_routes before s))
                r
                (with_routes (before ++ rs) t))
  answered (throw e) a = (a.routes, a.added, a.anywhere)
  answered (ok d) a = (
    d ∷ a.routes,
    a.added ∙ append_assoc s.routes (d ∷ []) a.routes,
    λ before. rw (← append_assoc before (d ∷ []) a.routes) (a.anywhere (before ++ d ∷ [])),
  )

mutual
  unfolding new_module assign_exports

  pub Requires-Adds :
      {host : Host} {id : String} {parent : Option ℕ} {s t : Store} {x : Result Exports}
      → Requires host id parent s x t
      → Adds (RequiresTo host id parent x) s t
  Requires-Adds {host} {id} {parent} {s} (unknown named) =
      Adds-none s s refl λ before. unknown (Names-with_routes host id parent s none before named)
  Requires-Adds {host} {id} {parent} {s} (cached {file = file} named found) =
      Adds-none s s refl
        λ before. cached (Names-with_routes host id parent s (some file) before named) found
  Requires-Adds {host} {id} {parent} {s} (json {file = file} named missing is_json) =
      Adds-none s s refl
        λ before. json (Names-with_routes host id parent s (some file) before named) missing is_json
  Requires-Adds {host} {id} {parent} {s} (unreadable {file = file} named missing code compiled) =
      Adds-none s (new_module file parent s) refl λ before.
        unreadable (Names-with_routes host id parent s (some file) before named) missing code
          compiled
  Requires-Adds {host} {id} {parent} {s} (failed {file = file} named missing code compiled d) =
      let a = Runs-Adds d in
      record {
        routes = a.routes;
        added = a.added;
        anywhere = λ before.
            failed (Names-with_routes host id parent s (some file) before named) missing code
              compiled (a.anywhere before);
      }
  Requires-Adds {host} {id} {parent} {s} (loaded {file = file} named missing code compiled d) =
      let a = Runs-Adds d in
      record {
        routes = a.routes;
        added = a.added;
        anywhere = λ before.
            loaded (Names-with_routes host id parent s (some file) before named) missing code
              compiled (a.anywhere before);
      }

  Runs-Adds :
      {host : Host} {self : ℕ} {script : Script} {s t : Store} {r : Result (Unit {0})}
      → Runs host self script s r t
      → Adds (RunsTo host self script r) s t
  Runs-Adds {s = s} ended = Adds-none s s refl λ before. ended
  Runs-Adds {s = s} raised = Adds-none s s refl λ before. raised
  Runs-Adds (assigned d) =
      let a = Runs-Adds d in
      record {
        routes = a.routes;
        added = a.added;
        anywhere = λ before. assigned (a.anywhere before);
      }
  Runs-Adds {s = s} {t = u} (required {t = t} d d') =
      let a = Requires-Adds d in
      let b = Runs-Adds d' in
      record {
        routes = a.routes ++ b.routes;
        added =
            b.added ∙ ap (λ rs. rs ++ b.routes) a.added ∙ append_assoc s.routes a.routes b.routes;
        anywhere = λ before.
            rw (← append_assoc before a.routes b.routes)
              (required (a.anywhere before) (b.anywhere (before ++ a.routes)));
      }
  Runs-Adds {host = host} {self = self} {s = s} {t = t} {r = r}
        (mocked {call = call} {rest = rest} d) =
      let (rs, added, anywhere) =
        answered host self rest s t r (definition_of call) (Runs-Adds d) in
      record { routes = rs; added = added; anywhere = λ before. mocked (anywhere before) }

-- A `require` that ends adds routes behind those that were registered before it, and removes none; its
-- result, the modules and the routes that it adds are the same whatever was registered before.
pub Requires-frame :
    (host : Host) (id : String) (parent : Option ℕ) (s : Store) (x : Result Exports) (t : Store)
    → Requires host id parent s x t
    → (routes : List Definition) × (t.routes ≡ s.routes ++ routes)
      × ((before : List Definition)
          → Requires host id parent (with_routes before s) x (with_routes (before ++ routes) t))
Requires-frame host id parent s x t d = let a = Requires-Adds d in (a.routes, a.added, a.anywhere)
