-- ===== src/Tests/Loader.antt =====
-- The module loader on a repository of three files: two that require each other, and one that throws
-- (core/src/main/resources/com/sandbox/runtime/v2/js/version_3/sandbox-patch.js).
use worker_cli.Prelude.{
  ℕ, map, get_elem?, String, Bool, false, ◌≡◌, refl, Option, none, some, List, [], ◌∷◌, ◌==◌, ◌<◌,
  arith, if◌then◌else◌, Bool-cases, inl, inr, ends_with, lookup,
}
use worker_cli.Js.{boolean, string, text, JsError, error, syntax_error, Result, ok, throw}
use worker_cli.Paths.{resolve}
use worker_cli.Modules.{file_of, Exports, plain, Store, initial}
use worker_cli.Modules.Invariant.{initial-IsCoherent}
use worker_cli.Require.{Script, done, raise, set_exports, require, Host, require_from}
use worker_cli.Require.Uncached.{occurs, ExportsTruthy, IsSound, uncached}
use worker_cli.Require.Total.{Settles, require_from-Settles}
use worker_cli.Require.BigStep.Marks.{marks}
use worker_cli.Require.Again.{require_once, require_again, require_after_throw}
use worker_cli.Require.Bound.{falsy_cycle}

abbrev main_script : Script
main_script = require "./lib" (λ r. set_exports (plain (string "main")) done)

abbrev lib_script : Script
lib_script = require "./main" (λ r. set_exports (plain (string "lib")) done)

abbrev bad : JsError
bad = error (text "bad" ∷ [])

abbrev file_names : List String
file_names = "main.js" ∷ "lib.js" ∷ "bad.js" ∷ []

abbrev pub listed : String → Bool
listed f = occurs f file_names

abbrev pub compiled : String → Result Script
compiled contents =
    if contents == "main.js"
    then ok main_script
    else if contents == "lib.js"
    then ok lib_script
    else if contents == "bad.js"
    then ok (raise bad)
    else throw syntax_error

-- The text of each file is its own name.
abbrev pub repository : Host
repository = record {
  has_file = listed;
  read_file = λ f. if listed f then some f else none;
  compile = λ name contents. compiled contents;
  parse_json = λ contents. throw syntax_error;
  mock_define = λ d. ok tt;
}

compiled-ExportsTruthy :
    (contents : String) (script : Script) → compiled contents ≡ ok script → ExportsTruthy script
compiled-ExportsTruthy contents script h = elim (Bool-cases (contents == "main.js")) [
  | inl a ↦ let same : main_script ≡ script = cc (rw a at h) in rw (← same) (λ r. (refl, tt))
  | inr not_a ↦
      let h₁ = rw not_a at h in
      elim (Bool-cases (contents == "lib.js")) [
        | inl b ↦ let same : lib_script ≡ script = cc (rw b at h₁) in rw (← same) (λ r. (refl, tt))
        | inr not_b ↦
            let h₂ = rw not_b at h₁ in
            elim (Bool-cases (contents == "bad.js")) [
              | inl c ↦ let same : raise bad ≡ script = cc (rw c at h₂) in rw (← same) tt
              | inr not_c ↦ cc (rw not_c at h₂)
            ]
      ]
]

repository-IsSound : IsSound repository file_names
repository-IsSound = record {
  listed = λ f h. h;
  truthy_scripts = λ name contents script h. compiled-ExportsTruthy contents script h;
}

abbrev pub required_main : Option (Result Exports × Store)
required_main = require_from repository 4 "main" none initial

all_uncached : uncached file_names initial ≡ 3
unfolding lookup
all_uncached = refl

below_four : uncached file_names initial < 4
below_four = rw all_uncached (omega arith)

require_from-Settles_example : Settles (require_from repository 4 "./main" none initial) initial
require_from-Settles_example =
    require_from-Settles repository file_names repository-IsSound 4 "./main" none initial
      initial-IsCoherent below_four

abbrev pub store_after : Option (Result Exports × Store) → Store
store_after none = initial
store_after (some p) = p.1

-- The cycle ends, and `main.js` has what it assigned last.
pub required_main-eq : required_main ≡ some (ok (plain (string "main")), store_after required_main)
unfolding require_from
required_main-eq = refl

require_again_example :
    require_from repository 1 "/lib/../main.js" none (store_after required_main)
    ≡ some (ok (plain (string "main")), store_after required_main)
require_again_example =
    require_again repository file_names repository-IsSound 4 0 "main" "/lib/../main.js" none none
      initial (store_after required_main) "main.js" (plain (string "main")) initial-IsCoherent
      below_four (unfold resolve in refl) (unfold ends_with in refl) required_main-eq
      (unfold resolve in refl)

-- `bad.js` throws at its first `require`, and is served at its second.
abbrev required_bad : Option (Result Exports × Store)
required_bad = require_from repository 4 "bad" none initial

required_bad-eq : required_bad ≡ some (throw bad, store_after required_bad)
unfolding require_from
required_bad-eq = refl

require_after_throw_example :
    (w : Exports) × (lookup "bad.js" (store_after required_bad).cache ≡ some w)
    × (require_from repository 1 "bad" none (store_after required_bad)
        ≡ some (ok w, store_after required_bad))
    × ((ms : List (String × Bool)) × (marks (store_after required_bad) ≡ ("bad.js", false) ∷ ms))
require_after_throw_example =
    require_after_throw repository file_names repository-IsSound 4 0 "bad" "bad" none none initial
      (store_after required_bad) "bad.js" bad initial-IsCoherent below_four (unfold resolve in refl)
      (unfold ends_with in refl) required_bad-eq (unfold resolve in refl)

-- A file that exports false and requires itself.
abbrev loop_script : Script
loop_script = set_exports (plain (boolean false)) (require "./loop" (λ r. done))

abbrev falsy_repository : Host
falsy_repository = record {
  has_file = λ f. f == "loop.js";
  read_file = λ f. some f;
  compile = λ name contents. ok loop_script;
  parse_json = λ contents. throw syntax_error;
  mock_define = λ d. ok tt;
}

falsy_cycle_example : require_from falsy_repository 9 "loop" none initial ≡ none
falsy_cycle_example =
    falsy_cycle falsy_repository "loop.js" "./loop" "loop.js" (plain (boolean false)) (λ r. done)
      refl (unfold ends_with in refl) refl refl (unfold resolve in refl) 9 none initial
      (unfold lookup in refl) "loop" (unfold resolve in refl)

-- The names of the files of the modules that were made, in order.
made_once : map (λ m. m.filename) (store_after required_main).modules ≡ "main.js" ∷ "lib.js" ∷ []
unfolding require_from
made_once = refl

-- The second module is the only one of its file.
second_module : file_of (get_elem? (store_after required_main).modules 1) ≡ some "lib.js"
unfolding require_from
second_module = refl

require_once_example : ◌≡◌ {A = ℕ} 1 1
require_once_example =
    require_once repository file_names repository-IsSound 4 "main" none initial
      (ok (plain (string "main"))) (store_after required_main) initial-IsCoherent below_four
      required_main-eq 1 1 "lib.js" second_module second_module
