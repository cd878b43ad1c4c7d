-- ===== src/Answers.antt =====
-- webdav/webdav.go, webdav/file.go: the results of the functions that answer with a status, a pair of
-- a status and an error in the source.
pub mod Keeps
use webdav_serverless.Base.{ℕ}
use webdav_serverless.Errors.{Error, Result, ok, err, Effect}

-- Go on with a value, where the error is nil, or answer with a status and an error.
pub data Answer {ℓ} (A : Type ℓ) : Type ℓ where
  proceed : A → Answer A
  answer : ℕ → Answer A

-- A function of that kind, on a state. What was done before an error stays done.
abbrev pub Serve {ℓ κ} : Type ℓ → Type κ → Type (ℓ ⊔ κ)
Serve S A = S → Answer A × S

module _ {ℓ κ} {S : Type ℓ} {A : Type κ} where
  abbrev pub or_status : (Error → ℕ) → Result A × S → Answer A × S
  or_status status (ok a, t) = (proceed a, t)
  or_status status (err e, t) = (answer (status e), t)

  -- A value that was computed without the state.
  unfoldable pub lift : Answer A → Serve S A
  lift a s = (a, s)

  unfoldable pub pure : A → Serve S A
  pure a s = (proceed a, s)

  unfoldable pub refuse : ℕ → Serve S A
  refuse status s = (answer status, s)

  -- A call whose result, an error or not, the rest looks at.
  unfoldable pub attempt : Effect S A → Serve S (Result A)
  attempt m s = let (r, t) = m s in (proceed r, t)

  -- A call whose error is answered with the status that a function gives.
  unfoldable pub check : (Error → ℕ) → Effect S A → Serve S A
  check status m s = or_status status (m s)

  -- The same for a result that is there already.
  unfoldable pub settle : (Error → ℕ) → Result A → Serve S A
  settle status r s = or_status status (r, s)

-- A deferred call.
unfoldable pub deferred {ℓ κ} : {S : Type ℓ} {R : Type κ} → (S → S) → (S → R × S) → S → R × S
deferred last m s = let (r, t) = m s in (r, last t)

module _ {ℓ κ μ} {S : Type ℓ} {A : Type κ} {B : Type μ} where
  abbrev pub continue : Answer A → (A → Serve S B) → Serve S B
  continue (proceed a) f s = f a s
  continue (answer status) f s = (answer status, s)

  infixl 5 ◌>>=◌
  unfoldable pub ◌>>=◌ : Serve S A → (A → Serve S B) → Serve S B
  ◌>>=◌ m f s = let (r, t) = m s in continue r f t

infixl 5 ◌>>◌
abbrev pub ◌>>◌ {ℓ κ} : {S : Type ℓ} {B : Type κ} → Serve S (Unit {0}) → Serve S B → Serve S B
m >> k = m >>= λ _. k
