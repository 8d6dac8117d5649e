-- ===== src/Base/Result.antt =====
-- A call that returns -1 with `errno` set is `err`; 0, with what the call wrote, is `ok`.
use mathlib.Core.Path.{◌≡◌, refl, ap, subst}
use mathlib.Core.Logic.{◌≢◌}

pub data Errno : Type 0 where
  einval enospc eoverflow enomem enoent e2big eproto enobufs enametoolong ebadf eio : Errno

pub data Result {ℓ} (A : Type ℓ) : Type ℓ where
  err : Errno → Result A
  ok : A → Result A

infixl 5 ◌>>=◌
-- The rest of a function that returns -1 as soon as one of its calls does.
abbrev pub ◌>>=◌ {κ ℓ} :
    {Value : Type κ} {Rest : Type ℓ} → Result Value → (Value → Result Rest) → Result Rest
err errno >>= continue = err errno
ok value >>= continue = continue value

pub bind_assoc {ℓ κ ι} :
    {A : Type ℓ} {B : Type κ} {C : Type ι} (m : Result A) (f : A → Result B) (g : B → Result C)
    → (m >>= λ a. f a >>= g) ≡ ((m >>= f) >>= g)
bind_assoc (ok a) f g = refl
bind_assoc (err e) f g = refl

-- The value of a call, where it has one.
abbrev pub value_or {ℓ} : {A : Type ℓ} → A → Result A → A
value_or d (err e) = d
value_or d (ok a) = a

pub ok_injective {ℓ} : {A : Type ℓ} {a b : A} → ok a ≡ ok b → a ≡ b
ok_injective {a} e = ap (value_or a) e

abbrev Succeeds {ℓ} : {A : Type ℓ} → Result A → Type 0
Succeeds (err e) = ⊥
Succeeds (ok a) = Unit

pub err-ok_ne {ℓ} : {A : Type ℓ} {e : Errno} {a : A} → err e ≢ ok a
err-ok_ne h = subst (λ r. Succeeds r → ⊥) h (λ e. e) tt
