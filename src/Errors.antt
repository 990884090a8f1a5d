-- ===== src/Errors.antt =====
-- backend/app/utils/exceptions.py: the exception that the handlers of backend/app/main.py turn into an
-- HTTP answer, and what a service call returns.
use my_frist_reop.Prelude.{ℕ, String}

-- `AppException` and `APIError`, with their default `code = status_code` written out where it is used.
pub record AppError : Type 0 where
  pub status_code : ℕ
  pub message : String
  pub code : ℕ

pub data Result {ℓ} (A : Type ℓ) : Type ℓ where
  ok : A → Result A
  err : AppError → Result A

infixl 5 ◌>>=◌
abbrev pub ◌>>=◌ {ℓ κ} : {A : Type ℓ} {B : Type κ} → Result A → (A → Result B) → Result B
ok a >>= f = f a
err e >>= f = err e

-- `AppException(status_code, message)`
abbrev pub app_error : ℕ → String → AppError
app_error status message = record { status_code = status; message = message; code = status }
