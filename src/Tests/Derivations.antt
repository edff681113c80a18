-- ===== src/Tests/Derivations.antt =====
-- Derivations of `require` on the files of Loader, with a JSON file beside them
-- (core/src/main/resources/com/sandbox/runtime/v2/js/version_3/sandbox-patch.js).
use worker_cli.Prelude.{ℕ, Bool, ◌≡◌, ◌↔◌, ◌≤◌, none, some, [], ◌∷◌, ◌==◌, if◌then◌else◌}
use worker_cli.Js.{string, obj, ok}
use worker_cli.Modules.{plain, Store, initial}
use worker_cli.Require.{Host, require_from}
use worker_cli.Require.BigStep.{Requires}
use worker_cli.Require.BigStep.Sound.{Requires-of_require_from}
use worker_cli.Require.BigStep.Complete.{Requires-iff}
use worker_cli.Require.BigStep.Tree.{IsTree, initial-IsTree, Requires-IsTree}
use worker_cli.Tests.Loader.{repository, required_main, required_main-eq, store_after, listed}

abbrev main_store : Store
main_store = store_after required_main

main-Requires : Requires repository "main" none initial (ok (plain (string "main"))) main_store
main-Requires =
    Requires-of_require_from repository 4 "main" none initial (ok (plain (string "main")))
      main_store required_main-eq

Requires-iff_example :
    Requires repository "main" none initial (ok (plain (string "main"))) main_store ↔ (
      (n : ℕ) × ((depth : ℕ)
        → n ≤ depth
        → require_from repository depth "main" none initial
          ≡ some (ok (plain (string "main")), main_store)))
Requires-iff_example =
    Requires-iff repository "main" none initial (ok (plain (string "main"))) main_store

Requires-IsTree_example : IsTree main_store
Requires-IsTree_example =
    Requires-IsTree repository "main" none initial (ok (plain (string "main"))) main_store
      main-Requires tt initial-IsTree

-- The repository after a JSON file was put beside the others.
abbrev with_json : Host
with_json = record repository {
  has_file = λ f. if f == "a.json" then Bool.true else listed f;
  read_file = λ f. some f;
  parse_json = λ contents. ok (obj (("a", string contents) ∷ []));
}
