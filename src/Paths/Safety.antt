-- ===== src/Paths/Safety.antt =====
-- The parts of a resolved path
-- (core/src/main/resources/com/sandbox/runtime/v2/js/version_3/sandbox-patch.js, `resolveAsFile`).
use Prim.Native.String.{[], ◌∷◌}
use worker_cli.Prelude.{
  String, Bool, true, false, ◌≡◌, refl, some, List, [], ◌∷◌, ◌++◌, nonempty, ◌⧺◌, arith, All,
  All-append, All-drop_last, split, join, starts_with, Bool-cases, inl, inr, sym, append-nil,
  append_assoc,
}
use worker_cli.Paths.{normalize_name, visit, visit_all, path_parts, canonical_path, resolve_as_file}
use worker_cli.Paths.Segments.{Avoids, split-Avoids}

-- A part that names an entry of the directory it stands in: it is not empty, holds no slash, and
-- does not begin with a dot, so that it is neither "." nor "..".
abbrev pub IsSegment : String → Type 0
IsSegment part = (nonempty part ≡ true) × (starts_with part "." ≡ false) × Avoids b'/' part

pub no_dots : (part : String) → starts_with part "." ≡ false → starts_with part ".." ≡ false
unfolding starts_with
no_dots [] h = refl
no_dots (c ∷ s) h = ground arith

visit-IsSegment :
    (parts : List String) (part : String)
    → All IsSegment parts
    → Avoids b'/' part
    → All IsSegment (visit parts part)
unfolding visit
visit-IsSegment parts part h k = elim (Bool-cases (starts_with part "..")) [
  | inl up ↦ rw up (All-drop_last IsSegment parts h)
  | inr stay ↦ elim (Bool-cases (starts_with part ".")) [
    | inl dot ↦ rw (stay, dot) h
    | inr plain ↦ elim (Bool-cases (nonempty part)) [
      | inl full ↦
          rw (stay, plain, full) (All-append IsSegment parts (part ∷ []) h ((full, plain, k), tt))
      | inr empty ↦ rw (stay, plain, empty) h
    ]
  ]
]

visit_all-IsSegment :
    (kept parts : List String)
    → All IsSegment kept
    → All (Avoids b'/') parts
    → All IsSegment (visit_all kept parts)
unfolding visit_all
visit_all-IsSegment kept [] h k = h
visit_all-IsSegment kept (part ∷ parts) h (k, ks) =
    visit_all-IsSegment (visit kept part) parts (visit-IsSegment kept part h k) ks

pub path_parts-IsSegment : (file_path : String) → All IsSegment (path_parts file_path)
unfolding path_parts
path_parts-IsSegment file_path =
    visit_all-IsSegment [] (split b'/' file_path) tt (split-Avoids b'/' file_path)

pub visit_of_IsSegment :
    (kept : List String) (part : String) → IsSegment part → visit kept part ≡ kept ++ part ∷ []
unfolding visit
visit_of_IsSegment kept part (full, plain, _) = rw (no_dots part plain, plain, full)

-- Proper parts are kept as they are.
pub visit_all_of_IsSegment :
    (kept parts : List String) → All IsSegment parts → visit_all kept parts ≡ kept ++ parts
unfolding visit_all
visit_all_of_IsSegment kept [] h = sym (append-nil kept)
visit_all_of_IsSegment kept (part ∷ parts) (p, h) =
    rw (visit_of_IsSegment kept part p, visit_all_of_IsSegment (kept ++ part ∷ []) parts h)
      (append_assoc kept (part ∷ []) parts)

-- Whatever the id and the directory of the parent, the file that `require` resolves to is a chain of
-- proper names under the root of the repository, with ".js" behind it if it had no extension, and
-- the repository has that file.
pub resolve_as_file-IsSegment :
    (has_file : String → Bool) (id root : String) (file : String)
    → resolve_as_file has_file id root ≡ some file
    → (parts : List String) × All IsSegment parts
      × (file ≡ normalize_name (join "/" parts))
      × (has_file file ≡ true)
unfolding resolve_as_file canonical_path
resolve_as_file-IsSegment has_file id root file h =
    let parts = path_parts (root ⧺ ("/" ⧺ id)) in
    (parts, path_parts-IsSegment (root ⧺ ("/" ⧺ id)), ground arith, ground arith)
