-- ===== src/Exporter/Errors.antt =====
-- How a metric collector ends: with a value, with an error, or with a panic, which ends the whole
-- program, since the workers recover from none.
use mathlib.Core.Path.{subst}
use qnapexporter.Base.{Text, Option, none, some, Bool, true, false, ◌≡◌}

pub data Errno : Type 0 where
  econnreset epipe other_errno : Errno

-- Go's errors, as far as the source tells them apart: `wrapped` is `fmt.Errorf("… %w", err)`.
pub data Error : Type 0 where
  message : Text → Error
  not_exist : Text → Error
  syscall_error : Errno → Error
  wrapped : Text → Error → Error

-- `errors.As(err, &syscallErr)`
abbrev pub as_syscall : Error → Option Errno
as_syscall (message s) = none
as_syscall (not_exist s) = none
as_syscall (syscall_error n) = some n
as_syscall (wrapped s e) = as_syscall e

-- `os.IsNotExist(err)`, which does not look through wrapping.
abbrev pub is_not_exist : Error → Bool
is_not_exist (not_exist s) = true
is_not_exist _ = false

pub data Fetch {ℓ} (A : Type ℓ) : Type ℓ where
  ok : A → Fetch A
  err : Error → Fetch A
  panic : Fetch A

infixl 5 ◌>>=◌
abbrev pub ◌>>=◌ {ℓ κ} : {A : Type ℓ} {B : Type κ} → Fetch A → (A → Fetch B) → Fetch B
ok a >>= f = f a
err e >>= f = err e
panic >>= f = panic

-- An index out of range, or a value that is not there, is a panic.
abbrev pub or_panic {ℓ} : {A : Type ℓ} → Option A → Fetch A
or_panic none = panic
or_panic (some a) = ok a

abbrev pub or_error {ℓ} : {A : Type ℓ} → Error → Option A → Fetch A
or_error e none = err e
or_error e (some a) = ok a

-- The value has the property, where there is one.
abbrev pub Yields {ℓ κ} : {A : Type ℓ} → (A → Type κ) → Fetch A → Type κ
Yields P (ok a) = P a
Yields P (err e) = Unit
Yields P panic = Unit

pub Yields-bind {ℓ κ ℓ' κ'} :
    {A : Type ℓ} {B : Type κ} (Q : A → Type ℓ') (P : B → Type κ') (x : Fetch A) (f : A → Fetch B)
    → Yields Q x
    → ((a : A) → Q a → Yields P (f a))
    → Yields P (x >>= f)
Yields-bind Q P (ok a) f q h = h a q
Yields-bind Q P (err e) f q h = tt
Yields-bind Q P panic f q h = tt

pub Yields-ok {ℓ κ} :
    {A : Type ℓ} (P : A → Type κ) (x : Fetch A) (a : A) → Yields P x → x ≡ ok a → P a
Yields-ok P (ok b) a h q = let same : b ≡ a = cc in subst P same h
Yields-ok P (err e) a h q = absurd (cc)
Yields-ok P panic a h q = absurd (cc)
