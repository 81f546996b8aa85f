-- ===== src/Error.antt =====
-- mcr/error.h: a call returns, throws an `Error`, of which the model keeps the code of errno.h, or dereferences a null
-- pointer, which the program does not survive; or it is still waiting when the rounds that the model
-- gives it are used up.
use libmacro.Prelude.{◌≡◌, [], Option, none, some}
use libmacro.Text.{Text}

pub data Errno : Type 0 where
  efault einval enomem ebusy erange : Errno

-- `Error`: the code and the message, which is empty if none is given.
pub record Error : Type 0 where
  pub code : Errno
  pub what : Text

abbrev pub new_error : Errno → Option Text → Error
new_error code none = record { code = code; what = [] }
new_error code (some message) = record { code = code; what = message }

pub data Result {ℓ} (A : Type ℓ) : Type ℓ where
  ok : A → Result A
  throw : Errno → Result A
  crash : Result A
  blocked : Result A

infixl 5 ◌>>=◌
abbrev pub ◌>>=◌ {ℓ κ} : {A : Type ℓ} {B : Type κ} → Result A → (A → Result B) → Result B
ok a >>= f = f a
throw e >>= f = throw e
crash >>= f = crash
blocked >>= f = blocked

-- The value of a call that has returned.
pub ok_inj {ℓ} : {A : Type ℓ} {a b : A} → ok a ≡ ok b → a ≡ b
ok_inj h = cc
