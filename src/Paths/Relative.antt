-- ===== src/Paths/Relative.antt =====
-- Relative ids, and the directory of the parent module
-- (core/src/main/resources/com/sandbox/runtime/v2/js/version_3/sandbox-patch.js, `findRoot` and
-- `resolveAsFile`).
use Prim.Native.String.{[], ◌∷◌}
use text.Mathlib.TextLemmas.{cons-append}
use worker_cli.Prelude.{
  ℕ, zero, suc, String, true, false≢true, ◌≡◌, refl, some, List, [], ◌∷◌, ◌++◌, ◌⧺◌, nonempty, All,
  All-append, split, join, drop_last, drop_last-concat,
}
use worker_cli.Paths.{normalize_name, visit_all, path_parts, canonical_path, find_root}
use worker_cli.Paths.Segments.{Avoids, split-join}
use worker_cli.Paths.Safety.{IsSegment, visit_all_of_IsSegment}
use worker_cli.Paths.Canonical.{path_parts-append, path_parts-join, All-Avoids}

-- Leaves `n` directories; at the root there is nothing to leave.
abbrev pub climb : ℕ → List String → List String
climb zero dirs = dirs
climb (suc n) dirs = climb n (drop_last dirs)

-- `n` times "..", and then the rest
abbrev pub ups : ℕ → List String → List String
ups zero rest = rest
ups (suc n) rest = ".." ∷ ups n rest

visit_all-ups :
    (n : ℕ) (kept rest : List String)
    → All IsSegment rest
    → visit_all kept (ups n rest) ≡ climb n kept ++ rest
unfolding visit_all
visit_all-ups zero kept rest h = visit_all_of_IsSegment kept rest h
visit_all-ups (suc n) kept rest h = visit_all-ups n (drop_last kept) rest h

nonempty-append : (s t : String) → nonempty s ≡ true → nonempty (s ⧺ t) ≡ true
nonempty-append [] t h = absurd (false≢true h)
nonempty-append (c ∷ s) t h = rw cons-append

nonempty-join :
    (p : String) (ps : List String) → nonempty p ≡ true → nonempty (join "/" (p ∷ ps)) ≡ true
unfolding join
nonempty-join p [] h = h
nonempty-join p (q ∷ ps) h = nonempty-append p ("/" ⧺ join "/" (q ∷ ps)) h

find_root-cons :
    (d : String) (ds : List String)
    → All IsSegment (d ∷ ds)
    → find_root (some (join "/" (d ∷ ds))) ≡ join "/" (drop_last (d ∷ ds))
unfolding find_root
find_root-cons d ds h = rw (nonempty-join d ds h.0.0, split-join "/" d ds (All-Avoids (d ∷ ds) h))

-- The root of a module is the directory that its file stands in.
pub find_root-join :
    (dirs : List String) (name : String)
    → All IsSegment dirs
    → IsSegment name
    → find_root (some (join "/" (dirs ++ name ∷ []))) ≡ join "/" dirs
find_root-join [] name h k = find_root-cons name [] (k, tt)
find_root-join (d ∷ ds) name (h, hs) k =
    rw (find_root-cons d (ds ++ name ∷ []) (h, All-append IsSegment ds (name ∷ []) hs (k, tt)))
      (rw (drop_last-concat (d ∷ ds) name))

Avoids-ups : (n : ℕ) (rest : List String) → All IsSegment rest → All (Avoids b'/') (ups n rest)
Avoids-ups zero rest h = All-Avoids rest h
Avoids-ups (suc n) rest h = ((refl, (refl, tt)), Avoids-ups n rest h)

split-ups :
    (n : ℕ) (r : String) (rel : List String)
    → All IsSegment (r ∷ rel)
    → split b'/' (join "/" (ups n (r ∷ rel))) ≡ ups n (r ∷ rel)
split-ups zero r rel h = split-join "/" r rel (All-Avoids (r ∷ rel) h)
split-ups (suc n) r rel h =
    split-join "/" ".." (ups n (r ∷ rel)) (((refl, (refl, tt))), Avoids-ups n (r ∷ rel) h)

path_parts-join-All : (dirs : List String) → All IsSegment dirs → path_parts (join "/" dirs) ≡ dirs
path_parts-join-All [] h = unfold path_parts join in refl
path_parts-join-All (d ∷ ds) h = path_parts-join d ds h

-- Where all parts are proper names, an id that climbs `n` times and then names `r/rel…`, required
-- by the module `dirs…/name`, is the file under `dirs` less its last `n` directories; climbing
-- above the root stays at the root.
pub canonical_path-find_root :
    (dirs : List String) (name : String) (n : ℕ) (r : String) (rel : List String)
    → All IsSegment dirs
    → IsSegment name
    → All IsSegment (r ∷ rel)
    → canonical_path
        (find_root (some (join "/" (dirs ++ name ∷ []))) ⧺ ("/" ⧺ join "/" (ups n (r ∷ rel))))
      ≡ normalize_name (join "/" (climb n dirs ++ r ∷ rel))
unfolding canonical_path
canonical_path-find_root dirs name n r rel h k l = rw (
  find_root-join dirs name h k,
  path_parts-append,
  path_parts-join-All dirs h,
  split-ups n r rel l,
  visit_all-ups n dirs (r ∷ rel) l,
)
