-- ===== src/Answers/Keeps.antt =====
-- Functions that answer with a status, and calls that may fail, which leave a view of the state as it
-- was: a rule for each way to build one.
use webdav_serverless.Base.{ℕ, Bool, true, false, if◌then◌else◌, ◌≡◌, refl, ◌∙◌}
use webdav_serverless.Errors.{Error, Result, ok, err, Effect}
use webdav_serverless.Errors as Errors
use webdav_serverless.Answers.{
  Answer, proceed, answer, Serve, attempt, check, lift, pure, refuse, settle, deferred, or_status,
  continue, ◌>>=◌,
}

-- `m` leaves the view as it was, on every outcome.
pub record Keeps {S R L : Type 0} (view : S → L) (m : S → R × S) : Type 0 where
  pub at : (s : S) → view (m s).1 ≡ view s

module _ {S L : Type 0} (view : S → L) where
  pub Keeps-value : {R : Type 0} (r : R) → Keeps view (λ s. (r, s))
  Keeps-value r = record { at = λ s. refl }

  pub Keeps-pure : {A : Type 0} (a : A) → Keeps view (pure a)
  unfolding pure
  Keeps-pure a = Keeps-value (proceed a)

  pub Keeps-refuse : {A : Type 0} (status : ℕ) → Keeps view (refuse {A = A} status)
  unfolding refuse
  Keeps-refuse status = Keeps-value (answer status)

  pub Keeps-lift : {A : Type 0} (a : Answer A) → Keeps view (lift a)
  unfolding lift
  Keeps-lift a = Keeps-value a

  pub Keeps-if :
      {R : Type 0} (b : Bool) (m n : S → R × S)
      → Keeps view m
      → Keeps view n
      → Keeps view (if b then m else n)
  Keeps-if true m n k l = k
  Keeps-if false m n k l = l

  pub Keeps-deferred :
      {R : Type 0} (last : S → S) (m : S → R × S)
      → ((s : S) → view (last s) ≡ view s)
      → Keeps view m
      → Keeps view (deferred last m)
  unfolding deferred
  Keeps-deferred last m l k = record { at = λ s. l (m s).1 ∙ k.at s }

module _ {S L A : Type 0} (view : S → L) where
  or_status-state : (status : Error → ℕ) (o : Result A × S) → view (or_status status o).1 ≡ view o.1
  or_status-state status (ok a, t) = refl
  or_status-state status (err e, t) = refl

  pub Keeps-check :
      (status : Error → ℕ) (m : Effect S A) → Keeps view m → Keeps view (check status m)
  unfolding check
  Keeps-check status m k = record { at = λ s. or_status-state status (m s) ∙ k.at s }

  pub Keeps-settle : (status : Error → ℕ) (r : Result A) → Keeps view (settle status r)
  unfolding settle
  Keeps-settle status r = record { at = λ s. or_status-state status (r, s) }

  pub Keeps-attempt : (m : Effect S A) → Keeps view m → Keeps view (attempt m)
  unfolding attempt
  Keeps-attempt m k = record { at = λ s. k.at s }

module _ {S L A B : Type 0} (view : S → L) where
  Keeps-continue :
      (r : Answer A) (f : A → Serve S B) → ((a : A) → Keeps view (f a)) → Keeps view (continue r f)
  Keeps-continue (proceed a) f l = l a
  Keeps-continue (answer status) f l = record { at = λ s. refl }

  pub Keeps-bind :
      (m : Serve S A) (f : A → Serve S B)
      → Keeps view m
      → ((a : A) → Keeps view (f a))
      → Keeps view (m >>= f)
  unfolding ◌>>=◌
  Keeps-bind m f k l = record { at = λ s. (Keeps-continue (m s).0 f l).at (m s).1 ∙ k.at s }

  Keeps-go_on :
      (r : Result A) (f : A → Effect S B)
      → ((a : A) → Keeps view (f a))
      → Keeps view (Errors.continue r f)
  Keeps-go_on (ok a) f l = l a
  Keeps-go_on (err e) f l = record { at = λ s. refl }

  pub Keeps-then :
      (m : Effect S A) (f : A → Effect S B)
      → Keeps view m
      → ((a : A) → Keeps view (f a))
      → Keeps view (Errors.◌>>=◌ m f)
  Keeps-then m f k l = record { at = λ s. (Keeps-go_on (m s).0 f l).at (m s).1 ∙ k.at s }

pub ruleset keeps_rules = (
  Keeps-pure, Keeps-refuse, Keeps-lift, Keeps-if, Keeps-check, Keeps-settle, Keeps-attempt,
  Keeps-bind, Keeps-deferred,
)
