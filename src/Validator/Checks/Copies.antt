-- ===== src/Validator/Checks/Copies.antt =====
-- The one error of a check, in copies behind the errors of a request
-- (core/src/main/resources/com/sandbox/runtime/v2/js/version_3/sandbox-validator.js, `errorHandler`).
use Prim.Native.Nat.add
use native.Mathlib.Nat.{add-zero}
use worker_cli.Prelude.{
  ℕ, zero, suc, ◌≡◌, sym, ap, ◌∙◌, Option, some, List, [], ◌∷◌, ◌++◌, append_assoc, ◌+◌,
}
use worker_cli.Validator.{Fault, Options, recorded}
use worker_cli.Validator.Checks.{Check, message}

-- The one error that the methods of a check record.
abbrev pub fault : Options → Check → Fault
fault o c = o.error_formatter c.param (message c.fail_msg) c.value

abbrev pub copies {ℓ} : {A : Type ℓ} → ℕ → A → List A
copies zero f = []
copies (suc n) f = f ∷ copies n f

pub copies-add {ℓ} : {A : Type ℓ} (m n : ℕ) (f : A) → copies (m + n) f ≡ copies m f ++ copies n f
copies-add zero n f = rw (add.zero n)
copies-add (suc m) n f = rw (add.suc m n) (ap (λ r. f ∷ r) (copies-add m n f))

-- Copies behind copies.
pub copies_after {ℓ} :
    {A : Type ℓ} (m n : ℕ) (f : A) (es fs gs : List A)
    → gs ≡ fs ++ copies n f
    → fs ≡ es ++ copies m f
    → gs ≡ es ++ copies (m + n) f
copies_after m n f es fs gs p q =
    p
    ∙ ap (λ hs. hs ++ copies n f) q
    ∙ append_assoc es (copies m f) (copies n f)
    ∙ ap (λ hs. es ++ hs) (sym (copies-add m n f))

-- The errors of a request after some copies of one error.
abbrev pub errors_after : ℕ → Fault → Option (List Fault) → Option (List Fault)
errors_after zero f old = old
errors_after (suc n) f old = some (recorded old ++ copies (suc n) f)

pub errors_after-add :
    (m n : ℕ) (f : Fault) (old : Option (List Fault))
    → errors_after n f (errors_after m f old) ≡ errors_after (m + n) f old
errors_after-add zero n f old = rw (add.zero n)
errors_after-add (suc m) zero f old = rw (add-zero (suc m))
errors_after-add (suc m) (suc n) f old = rw (add.suc m (suc n)) (
    ap some (
      append_assoc (recorded old) (copies (suc m) f) (copies (suc n) f)
      ∙ ap (λ hs. recorded old ++ (f ∷ hs)) (sym (copies-add m (suc n) f))))
