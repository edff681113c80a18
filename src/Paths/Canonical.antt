-- ===== src/Paths/Canonical.antt =====
-- Names of files with their extension, and files that were resolved
-- (core/src/main/resources/com/sandbox/runtime/v2/js/version_3/sandbox-patch.js, `normalizeName` and
-- `Require.resolve`).
use Prim.Native.String.{[], ◌∷◌}
use text.Mathlib.TextLemmas.{nil-append, cons-append, append_assoc as text_assoc}
use worker_cli.Prelude.{
  String, Bool, true, false≢true, ◌≡◌, refl, sym, ap, ◌∙◌, Option, some, none, List, [], ◌∷◌, ◌++◌,
  ◌⧺◌, arith, eq_refl, ◌||◌, All, split, join, starts_with, ends_with, Bool-cases, inl, inr, ◌≡⟨◌⟩◌,
  ◌∎,
}
use worker_cli.Paths.{
  normalize_name, visit, visit_all, path_parts, canonical_path, resolve_as_file, find_root, resolve,
}
use worker_cli.Paths.Segments.{Avoids, Avoids-append, split-append, split-join}
use worker_cli.Paths.Safety.{IsSegment, visit_all_of_IsSegment, resolve_as_file-IsSegment}

ends_with-append : (s t : String) → ends_with (s ⧺ t) t ≡ true
unfolding ends_with
ends_with-append [] [] = refl
ends_with-append [] (c ∷ t) = rw nil-append (rw (eq_refl (c ∷ t)))
ends_with-append (c ∷ s) t = rw cons-append (ground (arith, ends_with-append s t))

-- A name that has been given its extension keeps it.
pub normalize_name_idempotent : (f : String) → normalize_name (normalize_name f) ≡ normalize_name f
unfolding normalize_name
normalize_name_idempotent f = elim (Bool-cases (ends_with f ".js" || ends_with f ".json")) [
  | inl has ↦ rw (has, has)
  | inr lacks ↦ rw (lacks, ends_with-append f ".js")
]

extend_last : String → List String → List String
extend_last e [] = e ∷ []
extend_last e (p ∷ []) = (p ⧺ e) ∷ []
extend_last e (p ∷ q ∷ ps) = p ∷ extend_last e (q ∷ ps)

join-extend_last :
    (e p : String) (ps : List String) → join "/" (extend_last e (p ∷ ps)) ≡ join "/" (p ∷ ps) ⧺ e
unfolding join extend_last
join-extend_last e p [] = refl
join-extend_last e p (q ∷ []) = rw (text_assoc, text_assoc)
join-extend_last e p (q ∷ r ∷ ps) = rw (join-extend_last e q (r ∷ ps)) (
    ap (λ z. p ⧺ z) (sym (text_assoc "/" (join "/" (q ∷ r ∷ ps)) e))
    ∙ sym (text_assoc p ("/" ⧺ join "/" (q ∷ r ∷ ps)) e))

IsSegment-append_js : (p : String) → IsSegment p → IsSegment (p ⧺ ".js")
unfolding starts_with
IsSegment-append_js [] h = absurd (false≢true h.0)
IsSegment-append_js (c ∷ s) (full, plain, avoids) =
    rw cons-append
      (refl, plain, (avoids.0, Avoids-append b'/' s ".js" avoids.1 (refl, (refl, (refl, tt)))))

IsSegment-extend_last :
    (p : String) (ps : List String)
    → All IsSegment (p ∷ ps)
    → All IsSegment (extend_last ".js" (p ∷ ps))
unfolding extend_last
IsSegment-extend_last p [] (h, _) = (IsSegment-append_js p h, tt)
IsSegment-extend_last p (q ∷ ps) (h, hs) = (h, IsSegment-extend_last q ps hs)

visit_all-append :
    (kept xs ys : List String) → visit_all kept (xs ++ ys) ≡ visit_all (visit_all kept xs) ys
unfolding visit_all
visit_all-append kept [] ys = refl
visit_all-append kept (x ∷ xs) ys = visit_all-append (visit kept x) xs ys

-- The parts below a root are visited after those of the root.
pub path_parts-append :
    (s t : String) → path_parts (s ⧺ ("/" ⧺ t)) ≡ visit_all (path_parts s) (split b'/' t)
unfolding path_parts
path_parts-append s t =
    rw (split-append "/" s t) (visit_all-append [] (split b'/' s) (split b'/' t))

split-slash : (s : String) → split b'/' ("/" ⧺ s) ≡ "" ∷ split b'/' s
unfolding split
split-slash s = rw (cons-append, nil-append)

path_parts_absolute : (s : String) → path_parts ("/" ⧺ ("/" ⧺ s)) ≡ path_parts s
unfolding path_parts
path_parts_absolute s = rw (split-slash, split-slash)

pub All-Avoids : (parts : List String) → All IsSegment parts → All (Avoids b'/') parts
All-Avoids [] h = tt
All-Avoids (p ∷ ps) (h, hs) = (h.2, All-Avoids ps hs)

pub path_parts-join :
    (p : String) (ps : List String)
    → All IsSegment (p ∷ ps)
    → path_parts (join "/" (p ∷ ps)) ≡ p ∷ ps
unfolding path_parts
path_parts-join p ps h =
    rw (split-join "/" p ps (All-Avoids (p ∷ ps) h)) (visit_all_of_IsSegment [] (p ∷ ps) h)

canonical_path_absolute : (s : String) → canonical_path ("/" ⧺ ("/" ⧺ s)) ≡ canonical_path s
unfolding canonical_path
canonical_path_absolute s = rw path_parts_absolute

-- Proper parts are their own canonical path.
canonical_path-join :
    (p : String) (ps : List String)
    → All IsSegment (p ∷ ps)
    → canonical_path (join "/" (p ∷ ps)) ≡ normalize_name (join "/" (p ∷ ps))
unfolding canonical_path
canonical_path-join p ps h = rw (path_parts-join p ps h)

extend_last_is_cons :
    (e p : String) (ps : List String)
    → (q : String) × (qs : List String) × (extend_last e (p ∷ ps) ≡ q ∷ qs)
unfolding extend_last
extend_last_is_cons e p [] = (p ⧺ e, [], refl)
extend_last_is_cons e p (q ∷ ps) = (p, extend_last e (q ∷ ps), refl)

-- The name with the extension that it was given is a chain of proper parts too.
normalize_name-join :
    (p : String) (ps : List String)
    → All IsSegment (p ∷ ps)
    → (q : String) × (qs : List String) × All IsSegment (q ∷ qs)
      × (normalize_name (join "/" (p ∷ ps)) ≡ join "/" (q ∷ qs))
unfolding normalize_name
normalize_name-join p ps h =
    elim (Bool-cases
      (ends_with (join "/" (p ∷ ps)) ".js" || ends_with (join "/" (p ∷ ps)) ".json")) [
        | inl has ↦ (p, ps, h, rw has)
        | inr lacks ↦
            let (q, qs, e) = extend_last_is_cons ".js" p ps in
            (
              q,
              qs,
              rw e at (IsSegment-extend_last p ps h),
              rw lacks (sym (join-extend_last ".js" p ps) ∙ ap (join "/") e),
            )
      ]

canonical_path_idempotent :
    (parts : List String)
    → All IsSegment parts
    → canonical_path (normalize_name (join "/" parts)) ≡ normalize_name (join "/" parts)
canonical_path_idempotent [] h = unfold canonical_path in refl
canonical_path_idempotent (p ∷ ps) h =
    let (q, qs, k, e) = normalize_name-join p ps h in
    canonical_path (normalize_name (join "/" (p ∷ ps)))
    ≡⟨ ap canonical_path e ⟩ canonical_path (join "/" (q ∷ qs))
    ≡⟨ canonical_path-join q qs k ⟩ normalize_name (join "/" (q ∷ qs))
    ≡⟨ ap normalize_name (sym e) ⟩ normalize_name (normalize_name (join "/" (p ∷ ps)))
    ≡⟨ normalize_name_idempotent _ ⟩ normalize_name (join "/" (p ∷ ps)) ∎

-- A file that `require` resolved to, given as an id at the top, resolves to itself: a canonical path
-- is stable, whatever id and parent it came from.
pub resolve-resolve :
    (has_file : String → Bool) (id : String) (parent : Option String) (file : String)
    → resolve has_file id parent ≡ some file
    → resolve has_file file none ≡ some file
resolve-resolve has_file id parent file h =
    let (parts, segments, same, has) =
      resolve_as_file-IsSegment has_file id (find_root parent) file (unfold resolve in h) in
    let stable : canonical_path ("/" ⧺ ("/" ⧺ file)) ≡ file =
      rw same (canonical_path_absolute _ ∙ canonical_path_idempotent parts segments) in
    unfold resolve resolve_as_file find_root in rw (stable, has)
