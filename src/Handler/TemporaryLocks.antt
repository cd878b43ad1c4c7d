-- ===== src/Handler/TemporaryLocks.antt =====
-- webdav/webdav.go: the temporary locks of a request without an If header.
use webdav_serverless.Base.{ℕ, ◌≤◌, Option, [], ◌∷◌, ◌≡◌, ◌≢◌, refl, Bytes, bytes_eq}
use webdav_serverless.Answers.{Answer, proceed, answer, Serve}
use webdav_serverless.Answers.Keeps.{Keeps}
use webdav_serverless.Lock.{LockError, locked, LockDetails, LockResult, granted, refused}
use webdav_serverless.Handler.{
  LockSystem, Handler, Request, lock, lock_named, unlock_token, hold_dst, hold_src, locked_answer,
  temporary, temporary_locks, confirm_locks, held, with_release,
}

-- What the handler relies on, up to the time `end`, of a view of the state that shows the locks: a lock
-- that is refused changes none, a lock that is granted has a token, and unlocking the last lock that
-- was granted takes back that lock and no more. A refused Refresh changes no lock.
pub record LockLaws {S L : Type 0} (ls : LockSystem S) (end : ℕ) (locks : S → L) : Type 0 where
  pub refused_lock :
      (now : ℕ) (d : LockDetails) (e : LockError) (s t : S)
      → now ≤ end
      → ls.create now d s ≡ (refused e, t)
      → locks t ≡ locks s
  pub token :
      (now : ℕ) (d : LockDetails) (x : Bytes) (s t : S)
      → ls.create now d s ≡ (granted x, t)
      → x ≢ []
  pub last_lock :
      (now : ℕ) (d : LockDetails) (x : Bytes) (s t u : S)
      → now ≤ end
      → ls.create now d s ≡ (granted x, t)
      → locks u ≡ locks t
      → locks (ls.unlock now x u).1 ≡ locks s
  pub refused_refresh :
      (now : ℕ) (x : Bytes) (d : Option ℕ) (e : LockError) (s t : S)
      → now ≤ end
      → ls.refresh now x d s ≡ (refused e, t)
      → locks t ≡ locks s

module _ {S F L : Type 0} (h : Handler S F) (locks : S → L) (end : ℕ)
    (early : (s : S) → h.now s ≤ end) (laws : LockLaws h.lock_system end locks) where
  -- The state that lock leaves: `s` again, or `s` once the token is unlocked.
  Held : ℕ → S → Answer Bytes × S → Type 0
  Held now s (answer n, t) = locks t ≡ locks s
  Held now s (proceed x, t) = (u : S) → locks u ≡ locks t → locks (unlock_token h now x u) ≡ locks s

  Undone : S → Answer (S → S) × S → Type 0
  Undone s (answer n, t) = locks t ≡ locks s
  Undone s (proceed release, t) = (u : S) → locks u ≡ locks t → locks (release u) ≡ locks s

  locked_answer-Held :
      (now : ℕ)
      → now ≤ end
      → (d : LockDetails) (s : S) (r : LockResult Bytes × S) → h.lock_system.create now d s ≡ r
      → Held now s (locked_answer h r)
  unfolding Held unlock_token
  locked_answer-Held now le d s (granted [], t) e = absurd (laws.token now d [] s t e refl)
  locked_answer-Held now le d s (granted (c ∷ x), t) e =
      λ u k. laws.last_lock now d (c ∷ x) s t u le e k
  locked_answer-Held now le d s (refused locked, t) e = laws.refused_lock now d locked s t le e
  locked_answer-Held now le d s (refused x, t) e = laws.refused_lock now d x s t le e

  lock_named-Held :
      (now : ℕ) → now ≤ end → (name : Bytes) (s : S) → Held now s (lock_named h now name s)
  unfolding Held lock_named lock unlock_token
  lock_named-Held now le [] s = λ u k. k
  lock_named-Held now le (c ∷ name) s = locked_answer-Held now le (temporary (c ∷ name)) s _ refl

  hold_dst-Undone :
      (now : ℕ) (s t : S) (x : Bytes) (r : Answer Bytes × S)
      → Held now s (proceed x, t)
      → Held now t r
      → Undone s (hold_dst h now x r)
  unfolding Held Undone
  hold_dst-Undone now s t x (answer n, v) src dst = src v dst
  hold_dst-Undone now s t x (proceed y, v) src dst = λ u k. src _ (dst u k)

  hold_src-Undone :
      (now : ℕ)
      → now ≤ end
      → (dst : Bytes) (s : S) (r : Answer Bytes × S) → Held now s r
      → Undone s (hold_src h now dst r)
  unfolding Held Undone
  hold_src-Undone now le dst s (answer n, t) k = k
  hold_src-Undone now le dst s (proceed x, t) k =
      hold_dst-Undone now s t x _ k (lock_named-Held now le dst t)

  temporary_locks-Undone : (src dst : Bytes) (s : S) → Undone s (temporary_locks h src dst s)
  unfolding temporary_locks
  temporary_locks-Undone src dst s =
      hold_src-Undone (h.now s) (early s) dst s _ (lock_named-Held (h.now s) (early s) src s)

  without_if :
      (r : Request) (src dst : Bytes) (s : S)
      → r.if_header ≡ []
      → Undone s (confirm_locks h r src dst s)
  unfolding confirm_locks bytes_eq temporary_locks
  without_if r src dst s e = rw e (temporary_locks-Undone src dst s)

  held-locks :
      {A : Type 0} (work : Serve S A) (s : S) (r : Answer (S → S) × S)
      → Keeps locks work
      → Undone s r
      → locks (held r work).1 ≡ locks s
  unfolding Undone
  held-locks work s (answer n, t) kept k = k
  held-locks work s (proceed release, t) kept k = k _ (kept.at t)

  -- The work of a request without an If header, under its temporary locks.
  pub with_release-Keeps :
      {A : Type 0} (r : Request) (src dst : Bytes) (work : Serve S A)
      → r.if_header ≡ []
      → Keeps locks work
      → Keeps locks (with_release (confirm_locks h r src dst) work)
  unfolding with_release
  with_release-Keeps r src dst work e kept = record {
    at = λ s. held-locks work s _ kept (without_if r src dst s e);
  }
