-- ===== src/Tests/Loading.antt =====
-- A repository of two files that both require the second one
-- (core/src/main/resources/com/sandbox/runtime/v2/js/version_3/sandbox-patch.js).
use mathlib.Core.Option
use worker_cli.Prelude.{
  String, true, ◌≡◌, refl, none, some, List, [], ◌∷◌, ◌⊎◌, inl, inr, ◌==◌, eq_iff, Bool-cases,
  arith, ends_with, lookup,
}
use worker_cli.Js.{string, function, ok, throw, syntax_error}
use worker_cli.Paths.{resolve}
use worker_cli.Routes.{define}
use worker_cli.Modules.{Exports, plain, Store, initial}
use worker_cli.Modules.Invariant.{initial-IsCoherent}
use worker_cli.Require.{
  read_file, Script, done, set_exports, require, call_mock, define_call, Host, require_from,
}
use worker_cli.Require.Uncached.{occurs, IsSound}
use worker_cli.Require.BigStep.Marks.{marks}
use worker_cli.Require.BigStep.Loading.{IsReady, Loads, require_from-Loads}

abbrev file_names : List String
file_names = "main.js" ∷ "lib.js" ∷ []

-- It requires `lib`, defines a route and exports a value.
abbrev code : Script
code = require "lib" λ r.
    call_mock (define_call (string "/users" ∷ function 1 ∷ []))
      λ q. set_exports (plain (string "done")) done

abbrev two_files : Host
two_files = record {
  has_file = λ f. occurs f file_names;
  read_file = λ f. some f;
  compile = λ name contents. ok code;
  parse_json = λ contents. throw syntax_error;
  mock_define = λ d. ok tt;
}

two_files-IsSound : IsSound two_files file_names
two_files-IsSound = record {
  listed = λ f h. h;
  truthy_scripts =
      λ name contents script h. let same : code ≡ script = cc h in rw (← same) (λ r q. (refl, tt));
}

one_of_two :
    (file : String) → occurs file file_names ≡ true → ("main.js" ≡ file) ⊎ ("lib.js" ≡ file)
one_of_two file h = elim (Bool-cases ("main.js" == file)) [
  | inl first ↦ inl ((eq_iff "main.js" file).0 first)
  | inr other ↦ elim (Bool-cases ("lib.js" == file)) [
    | inl second ↦ inr ((eq_iff "lib.js" file).0 second)
    | inr neither ↦ cc (rw (other, neither) at h)
  ]
]

lib_at_main : resolve two_files.has_file "lib" (some "main.js") ≡ some "lib.js"
unfolding resolve
lib_at_main = refl

lib_at_lib : resolve two_files.has_file "lib" (some "lib.js") ≡ some "lib.js"
unfolding resolve
lib_at_lib = refl

main_at_top : resolve two_files.has_file "main" none ≡ some "main.js"
unfolding resolve
main_at_top = refl

lib_found :
    (file : String)
    → occurs file file_names ≡ true
    → resolve two_files.has_file "lib" (some file) ≡ some "lib.js"
lib_found file h = elim (one_of_two file h) [
  | inl main ↦ rw (← main) lib_at_main
  | inr lib ↦ rw (← lib) lib_at_lib
]

two_files-IsReady : IsReady two_files
unfolding ends_with define read_file
two_files-IsReady file has_it code_file =
    (code, refl, (("lib.js", lib_found file has_it, λ h. cc), λ v. (refl, tt)))

require_from-Loads_example :
    (v : Exports) × (t : Store) × (require_from two_files 3 "main" none initial ≡ some (ok v, t))
    × Loads initial t
require_from-Loads_example =
    require_from-Loads two_files file_names 3 "main" none initial two_files-IsSound
      two_files-IsReady ("main.js", main_at_top, λ h. unfold ends_with in cc h) initial-IsCoherent
      (unfold lookup in omega arith)

-- What the theorem says of it, written out
two_loaded :
    Option.map (λ p. marks p.1) (require_from two_files 3 "main" none initial)
    ≡ some (("main.js", true) ∷ ("lib.js", true) ∷ [])
unfolding require_from
two_loaded = refl
