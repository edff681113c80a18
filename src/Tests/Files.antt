-- ===== src/Tests/Files.antt =====
-- Paths of files: ids that climb, and names with and without an extension
-- (core/src/main/resources/com/sandbox/runtime/v2/js/version_3/sandbox-patch.js).
use worker_cli.Prelude.{
  String, Bool, true, ◌≡◌, refl, none, some, List, [], ◌∷◌, ◌==◌, ◌||◌, All, join, starts_with,
}
use worker_cli.Paths.{
  normalize_name, path_parts, canonical_path, find_root, resolve_as_file, resolve,
}
use worker_cli.Paths.Safety.{IsSegment, resolve_as_file-IsSegment}
use worker_cli.Paths.Canonical.{resolve-resolve}
use worker_cli.Paths.Relative.{canonical_path-find_root}

abbrev stored : String → Bool
stored f = f == "lib/a.js" || f == "lib.v2"

-- Above the root there is nothing to climb to, so the parts that follow count from the root.
climbs_past_root : canonical_path "lib/../../../etc/passwd" ≡ "etc/passwd.js"
unfolding canonical_path
climbs_past_root = refl

-- Parts that begin with two dots climb too, and those that begin with one are dropped.
dotted_parts : path_parts "a/b/..c/.d/e" ≡ "a" ∷ "e" ∷ []
unfolding path_parts
dotted_parts = refl

resolve_as_file-IsSegment_example :
    (parts : List String) × All IsSegment parts
    × ("lib/a.js" ≡ normalize_name (join "/" parts))
    × (stored "lib/a.js" ≡ true)
resolve_as_file-IsSegment_example =
    resolve_as_file-IsSegment stored "../../lib/./a" "x" "lib/a.js" (unfold resolve_as_file in refl)

resolve-resolve_example : resolve stored "lib/a.js" none ≡ some "lib/a.js"
resolve-resolve_example =
    resolve-resolve stored "../lib/a" (some "x/y.js") "lib/a.js" (unfold resolve in refl)

a-IsSegment : IsSegment "a"
a-IsSegment = (refl, unfold starts_with in refl, (refl, tt))

b-IsSegment : IsSegment "b"
b-IsSegment = (refl, unfold starts_with in refl, (refl, tt))

canonical_path-find_root_example : canonical_path "a/b/../../../a/b" ≡ normalize_name "a/b"
unfolding find_root join
canonical_path-find_root_example =
    canonical_path-find_root ("a" ∷ "b" ∷ []) "a" 3 "a" ("b" ∷ []) (a-IsSegment, (b-IsSegment, tt))
      a-IsSegment (a-IsSegment, (b-IsSegment, tt))
