-- ===== src/Paths.antt =====
-- How `require` turns an id into a file of the repository
-- (core/src/main/resources/com/sandbox/runtime/v2/js/version_3/sandbox-patch.js, `findRoot`,
-- `resolveAsFile` and `normalizeName`). `hasFile` of the host is a parameter.
pub mod Segments
pub mod Safety
pub mod Canonical
pub mod Relative
use worker_cli.Prelude.{
  String, Bool, Option, none, some, List, [], ◌∷◌, ◌++◌, nonempty, ◌⧺◌, ◌&&◌, ◌||◌, not, code,
  drop_last, split, join, starts_with, ends_with, if◌then◌else◌,
}

-- `normalizeName`
unfoldable pub normalize_name : String → String
unfolding ends_with
normalize_name file_name =
    if ends_with file_name ".js" || ends_with file_name ".json"
    then file_name
    else file_name ⧺ ".js"

-- One round of the `forEach` over the parts. `pop` of no parts is skipped, and so is the part.
unfoldable pub visit : List String → String → List String
unfolding starts_with
visit path_parts part =
    if starts_with part ".."
    then drop_last path_parts
    else if not (starts_with part ".") && nonempty part
    then path_parts ++ part ∷ []
    else path_parts

unfoldable pub visit_all : List String → List String → List String
unfolding visit
visit_all path_parts [] = path_parts
visit_all path_parts (part ∷ parts) = visit_all (visit path_parts part) parts

-- The parts that are left of `filePath`.
unfoldable pub path_parts : String → List String
unfolding visit_all split
path_parts file_path = visit_all [] (split b'/' file_path)

-- `canonicalFilePath`
unfoldable pub canonical_path : String → String
unfolding path_parts normalize_name join
canonical_path file_path = normalize_name (join "/" (path_parts file_path))

-- `resolveAsFile`; `none` is its `false`
unfoldable pub resolve_as_file : (String → Bool) → String → String → Option String
unfolding canonical_path
resolve_as_file has_file id root =
    let file = canonical_path (root ⧺ ("/" ⧺ id)) in if has_file file then some file else none

-- `findRoot`; the argument is the id of the parent module, if there is one
unfoldable pub find_root : Option String → String
unfolding split join
find_root none = "/"
find_root (some id) = if nonempty id then join "/" (drop_last (split b'/' id)) else "/"

-- `Require.resolve`
unfoldable pub resolve : (String → Bool) → String → Option String → Option String
unfolding resolve_as_file find_root
resolve has_file id parent = resolve_as_file has_file id (find_root parent)
