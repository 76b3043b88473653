-- ===== src/Runtime/Monad.antt =====
-- Exceptions, and actions that change a state and may raise. What was written before a raise stays.
use nsi_aggregator_proxy.Common.{if◌then◌else◌, ℕ, String, Bool, true, false, Option, none, some}

-- `error` is any exception but those named; the last is the model's own, for a loop out of fuel.
pub data Exception : Type 0 where
  http_exception : (status_code : ℕ) (detail : String) → Exception
  error : (description : String) → Exception
  cancelled_error out_of_fuel : Exception

-- What `except Exception` catches: not a CancelledError.
abbrev pub is_exception : Exception → Bool
is_exception (http_exception _ _) = true
is_exception (error _) = true
is_exception _ = false

pub data Result {ℓ} (A : Type ℓ) : Type ℓ where
  ok : A → Result A
  err : Exception → Result A

abbrev pub Act : Type 0 → Type 0 → Type 0
Act S A = S → Result A × S

module _ {S A : Type 0} where
  unfoldable pub pure : A → Act S A
  pure a s = (ok a, s)

  unfoldable pub raise : Exception → Act S A
  raise x s = (err x, s)

  unfoldable pub lift : Result A → Act S A
  lift r s = (r, s)

  -- The result of an action, raised or not.
  unfoldable pub capture : Act S A → Act S (Result A)
  capture m s = let (r, s') = m s in (ok r, s')

module _ {S A B : Type 0} where
  abbrev pub continue : Result A → (A → Act S B) → Act S B
  continue (ok a) f s = f a s
  continue (err x) f s = (err x, s)

  infixl 10 ◌>>=◌ ◌>>◌
  unfoldable pub ◌>>=◌ : Act S A → (A → Act S B) → Act S B
  unfolding pure raise lift capture
  ◌>>=◌ m f s = let (r, s') = m s in continue r f s'

  abbrev pub ◌>>◌ : Act S A → Act S B → Act S B
  m >> n = m >>= λ _. n

-- An exception that `except Exception` catches counts as no value.
abbrev pub settled : {A : Type 0} → Result A → Result (Option A)
settled (ok a) = ok (some a)
settled (err x) = if is_exception x then ok none else err x

module _ {S A : Type 0} where
  abbrev pub handle : Result A → (Exception → Act S A) → Act S A
  handle (ok a) h s = (ok a, s)
  handle (err x) h s = if is_exception x then h x s else (err x, s)

  -- `try: m` with `except Exception as x: h x`
  unfoldable pub attempt : Act S A → (Exception → Act S A) → Act S A
  attempt m h s = let (r, s') = m s in handle r h s'

  -- `try: m` with `except Exception`, where the handler goes on without a value.
  unfoldable pub try_some : Act S A → Act S (Option A)
  try_some m s = let (r, s') = m s in (settled r, s')

  -- `try: m` with `finally: n`, where `n` raises nothing.
  unfoldable pub ensure : Act S A → (S → S) → Act S A
  ensure m n s = let (r, s') = m s in (r, n s')
