-- ===== src/Errors.antt =====
-- The exceptions of include/common/common.h, file.h and regexcommon.h, each with its message, and
-- code that may throw one.
use gazon.Base.{Text}

pub data Exception : Type 0 where
  command_exception filesystem_exception networking_exception config_exception regex_exception :
      Text → Exception
  -- `std::bad_cast` of a variant that holds another type
  bad_cast : Exception
  -- `std::out_of_range`, of `substr` or `at`
  out_of_range : Exception
  -- `exit(0)`: the process ends
  exits : Exception

pub data Result {ℓ} (A : Type ℓ) : Type ℓ where
  ok : A → Result A
  throw : Exception → Result A

infixl 5 ◌>>=◌ ◌>>◌
abbrev pub ◌>>=◌ {ℓ κ} : {A : Type ℓ} {B : Type κ} → Result A → (A → Result B) → Result B
ok a >>= f = f a
throw e >>= f = throw e

abbrev pub ◌>>◌ {ℓ κ} : {A : Type ℓ} {B : Type κ} → Result A → Result B → Result B
m >> n = m >>= λ _. n
