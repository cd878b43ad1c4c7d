-- ===== src/Errors.antt =====
-- The errors that the packages awsfs and webdav return, and effects that may fail.
use webdav_serverless.Base.{◌≡◌, refl, Bool, true, false, Option, none, some}

pub data Error : Type 0 where
  -- os.ErrExist, os.ErrNotExist, os.ErrInvalid, os.ErrPermission
  exist not_exist invalid permission : Error
  -- awsfs: ErrNoSuchReference, ErrNoSuchEntry, ErrNotSupported
  no_such_reference no_such_entry not_supported : Error
  -- webdav: errNotADirectory, errDirectoryNotEmpty, errInvalidResponse, filepath.SkipDir and io.EOF
  not_a_directory directory_not_empty invalid_response skip_dir eof : Error
  -- an os.PathError with the error in it
  path_error : Error → Error
  -- an error of a service or a library that the program only passes on
  service : Error

-- os.IsNotExist, which looks into an os.PathError.
unfoldable pub is_not_exist : Error → Bool
is_not_exist not_exist = true
is_not_exist (path_error not_exist) = true
is_not_exist _ = false

pub data Result {ℓ} (A : Type ℓ) : Type ℓ where
  ok : A → Result A
  err : Error → Result A

-- A call that reads and changes a state of type `S`, and may fail. What was done before a failure
-- stays done.
abbrev pub Effect {ℓ κ} : Type ℓ → Type κ → Type (ℓ ⊔ κ)
Effect S A = S → Result A × S

module _ {ℓ κ} {S : Type ℓ} {A : Type κ} where
  abbrev pub pure : A → Effect S A
  pure a s = (ok a, s)

  abbrev pub fail : Error → Effect S A
  fail e s = (err e, s)

  -- A value that must be there.
  abbrev pub need : Error → Option A → Effect S A
  need e none = fail e
  need e (some a) = pure a

module _ {ℓ κ μ} {S : Type ℓ} {A : Type κ} {B : Type μ} where
  abbrev pub continue : Result A → (A → Effect S B) → Effect S B
  continue (ok a) f s = f a s
  continue (err e) f s = (err e, s)

  infixl 5 ◌>>=◌
  abbrev pub ◌>>=◌ : Effect S A → (A → Effect S B) → Effect S B
  ◌>>=◌ m f s = let (r, s') = m s in continue r f s'

infixl 5 ◌>>◌
abbrev pub ◌>>◌ {ℓ κ} : {S : Type ℓ} {B : Type κ} → Effect S (Unit {0}) → Effect S B → Effect S B
m >> k = m >>= λ _. k

abbrev pub Post {ℓ κ μ} :
    {S : Type ℓ} {A : Type κ} → (Result A → S → Type μ) → Result A × S → Type μ
Post Q (r, s) = Q r s

module _ {ℓ κ μ ν} {S : Type ℓ} {A : Type κ} {B : Type μ} where
  -- What the two outcomes of a call give of the rest.
  pub bind-cases :
      (Q : Result B → S → Type ν) (m : Effect S A) (f : A → Effect S B) (s : S)
      → ((e : Error) (t : S) → m s ≡ (err e, t) → Q (err e) t)
      → ((a : A) (t : S) → m s ≡ (ok a, t) → Post Q (f a t))
      → Post Q ((m >>= f) s)
  bind-cases Q m f s failed done = go (m s) refl
    where
      go : (o : Result A × S) → m s ≡ o → Post Q (continue o.0 f o.1)
      go (ok a, t) e = done a t e
      go (err x, t) e = failed x t e

module _ {ℓ κ ν} {S : Type ℓ} {A : Type κ} where
  -- A fact about an outcome, from the two forms that it can have.
  pub outcome-cases :
      (Q : Result A → S → Type ν) (o : Result A × S)
      → ((e : Error) (t : S) → o ≡ (err e, t) → Q (err e) t)
      → ((a : A) (t : S) → o ≡ (ok a, t) → Q (ok a) t)
      → Post Q o
  outcome-cases Q (ok a, t) failed done = done a t refl
  outcome-cases Q (err e, t) failed done = failed e t refl

module _ {ℓ κ μ} {S : Type ℓ} {A : Type κ} {B : Type μ} where
  -- A chain that succeeds has a first part that does.
  pub bind-ok :
      (m : Effect S A) (f : A → Effect S B) (s u : S) (b : B)
      → (m >>= f) s ≡ (ok b, u)
      → (a : A) × (t : S) × (m s ≡ (ok a, t)) × (f a t ≡ (ok b, u))
  bind-ok m f s u b h = go (m s) refl h
    where
      go :
          (o : Result A × S)
          → m s ≡ o
          → continue o.0 f o.1 ≡ (ok b, u)
          → (a : A) × (t : S) × (m s ≡ (ok a, t)) × (f a t ≡ (ok b, u))
      go (ok a, t) e k = (a, t, e, k)
      go (err x, t) e k = cc

module _ {ℓ κ} {S : Type ℓ} {A : Type κ} where
  pub need-ok :
      (e : Error) (o : Option A) (s t : S) (a : A) → need e o s ≡ (ok a, t) → (o ≡ some a) × (s ≡ t)
  need-ok e none s t a h = cc
  need-ok e (some b) s t a h = (cc, cc)
