-- ===== src/Require/BigStep/Json.antt =====
-- JSON files (core/src/main/resources/com/sandbox/runtime/v2/js/version_3/sandbox-patch.js, `Require`
-- and `Require.cache`).
use worker_cli.Prelude.{ℕ, String, false, ◌≡◌, some, lookup, ends_with}
use worker_cli.Modules.{Exports, Store, initial}
use worker_cli.Modules.Invariant.{entry_at}
use worker_cli.Require.BigStep.Keeps.{Keeps}

-- No module and no entry of the cache is a JSON file's.
pub record HasNoJson (s : Store) : Type 0 where
  pub modules_are_code :
      (i : ℕ) (f : String) (v : Exports) → entry_at s i ≡ some (f, v) → ends_with f ".json" ≡ false
  pub cache_is_code :
      (f : String) (v : Exports) → lookup f s.cache ≡ some v → ends_with f ".json" ≡ false

pub initial-HasNoJson : HasNoJson initial
unfolding lookup
initial-HasNoJson = record { modules_are_code = λ i f v h. cc; cache_is_code = λ f v h. cc }
