-- ===== src/Handler/Methods/Locking/Failed.antt =====
-- webdav/webdav.go: the locks after a LOCK request that is answered with an error.
use webdav_serverless.Base.{ℕ, ◌≤◌, Option, none, some, [], ◌≡◌, refl, Bytes, arith}
use webdav_serverless.Errors.{Result, ok, err}
use webdav_serverless.Answers.{Answer, proceed, answer, Serve, lift, ◌>>=◌}
use webdav_serverless.Answers.Keeps.{Keeps, keeps_rules}
use webdav_serverless.Lock.{locked, no_such_lock, LockResult, granted, refused, LockDetails}
use webdav_serverless.Lock.Timeout.{parse_timeout}
use webdav_serverless.IfHeader.{parse_if_header}
use webdav_serverless.Files.{Info, text}
use webdav_serverless.FileTree.Kept.{FileLaws}
use webdav_serverless.Requests.{LockInfo, Decoded, read_lock_info}
use webdav_serverless.Handler.{Handler, Request, strip_prefix}
use webdav_serverless.Handler.TemporaryLocks.{LockLaws}
use webdav_serverless.Handler.Methods.{Reply, copy_depth}
use webdav_serverless.Handler.Methods.Locking.{
  refresh_token, refreshed, refresh_lock, created_lock, create_missing, unlock_failed,
  create_resource, new_lock, new_details, lock_resource, lock_or_refresh, handle_lock, duration_of,
  depth_answer,
}

module _ {S L : Type 0} (locks : S → L) where
  -- An outcome with an error, in a state with the locks of `s`; or an outcome without one.
  abbrev OnError : {A : Type 0} → S → Answer A × S → Type 0
  OnError s (answer n, t) = locks t ≡ locks s
  OnError s (proceed a, t) = Unit

  lift-OnError :
      {A B : Type 0} (a : Answer A) (f : A → Serve S B) (s : S)
      → ((b : A) → OnError s (f b s))
      → OnError s ((lift a >>= f) s)
  unfolding lift ◌>>=◌
  lift-OnError (proceed b) f s k = k b
  lift-OnError (answer n) f s k = refl

  on_error :
      {A : Type 0} (o : Answer A × S) (s t : S) (n : ℕ)
      → OnError s o
      → o ≡ (answer n, t)
      → locks t ≡ locks s
  on_error (answer m, u) s t n k e = ground arith
  on_error (proceed a, u) s t n k e = cc

module _ {S F L : Type 0} (h : Handler S F) (decode : Bytes → Decoded LockInfo)
    (escape_text : Bytes → Bytes) (locks : S → L) (end : ℕ) (early : (s : S) → h.now s ≤ end)
    (laws : LockLaws h.lock_system end locks) (files : FileLaws h.file_system locks) where
  refreshed-OnError :
      (now : ℕ)
      → now ≤ end
      → (token : Bytes) (d : Option ℕ) (s : S) (o : LockResult LockDetails × S)
      → h.lock_system.refresh now token d s ≡ o
      → OnError locks s (refreshed h decode escape_text token o)
  refreshed-OnError now le token d s (granted ld, t) e = tt
  refreshed-OnError now le token d s (refused no_such_lock, t) e =
      laws.refused_refresh now token d no_such_lock s t le e
  refreshed-OnError now le token d s (refused x, t) e = laws.refused_refresh now token d x s t le e

  create_missing-Keeps :
      (path : Bytes) (r : Result Info) → Keeps locks (create_missing h decode escape_text path r)
  create_missing-Keeps path (ok i) = search keeps_rules
  create_missing-Keeps path (err e) = search (keeps_rules, files.create_keeps path 438 (text []))

  create_resource-Keeps :
      (ld : LockDetails) (token : Bytes)
      → Keeps locks (create_resource h decode escape_text ld token)
  create_resource-Keeps ld token =
      search (keeps_rules, files.stat_keeps ld.lock_root, create_missing-Keeps ld.lock_root)

  -- After an error the lock that was created is the last one, and is unlocked.
  unlock_failed-OnError :
      (now : ℕ)
      → now ≤ end
      → (ld : LockDetails) (token : Bytes) (s t : S) (o : Answer (Reply F) × S)
      → h.lock_system.create now ld s ≡ (granted token, t)
      → locks o.1 ≡ locks t
      → OnError locks s (unlock_failed h decode escape_text now token o)
  unlock_failed-OnError now le ld token s t (answer n, u) e k =
      laws.last_lock now ld token s t u le e k
  unlock_failed-OnError now le ld token s t (proceed reply, u) e k = tt

  new_lock-OnError :
      (now : ℕ)
      → now ≤ end
      → (ld : LockDetails) (s : S) → OnError locks s (new_lock h decode escape_text now ld s)
  unfolding new_lock ◌>>=◌
  new_lock-OnError now le ld s = go (h.lock_system.create now ld s) refl
    where
      go :
          (o : LockResult Bytes × S)
          → h.lock_system.create now ld s ≡ o
          → OnError locks s (
              ((λ _. created_lock h decode escape_text o) >>= λ token u.
              unlock_failed h decode escape_text now token
                (create_resource h decode escape_text ld token u))
                s)
      go (granted token, t) e =
          unlock_failed-OnError now le ld token s t _ e ((create_resource-Keeps ld token).at t)
      go (refused locked, t) e = laws.refused_lock now ld locked s t le e
      go (refused x, t) e = laws.refused_lock now ld x s t le e

  refresh_lock-OnError :
      (r : Request) (d : Option ℕ) (s : S)
      → OnError locks s (refresh_lock h decode escape_text r d s)
  unfolding refresh_lock
  refresh_lock-OnError r d s =
      lift-OnError locks (refresh_token (parse_if_header r.if_header)) _ s
        λ token. refreshed-OnError (h.now s) (early s) token d s _ refl

  lock_resource-OnError :
      (r : Request) (d : Option ℕ) (li : LockInfo) (s : S)
      → OnError locks s (lock_resource h decode escape_text r d li s)
  unfolding lock_resource
  lock_resource-OnError r d li s =
      lift-OnError locks (depth_answer (copy_depth r.depth)) _ s λ deep.
        lift-OnError locks (strip_prefix h.prefix r.url_path) _ s λ path.
          new_lock-OnError (h.now s) (early s) (new_details h decode escape_text path d li deep) s

  lock_or_refresh-OnError :
      (r : Request) (d : Option ℕ) (li : Option LockInfo) (s : S)
      → OnError locks s (lock_or_refresh h decode escape_text r d li s)
  lock_or_refresh-OnError r d none s = refresh_lock-OnError r d s
  lock_or_refresh-OnError r d (some li) s = lock_resource-OnError r d li s

  handle_lock-OnError :
      (r : Request) (s : S) → OnError locks s (handle_lock h decode escape_text r s)
  unfolding handle_lock
  handle_lock-OnError r s = lift-OnError locks (duration_of (parse_timeout r.timeout)) _ s λ d.
      lift-OnError locks (read_lock_info decode r.body) _ s λ li. lock_or_refresh-OnError r d li s

  -- A LOCK request that is answered with an error leaves the locks as they were before it: a lock that
  -- was created for it is unlocked if the resource cannot be created. The lock system is supposed to
  -- take back the lock it granted last, and to change no lock when it refuses one, up to a time that no
  -- request reads a later one than; the file system to change no lock.
  pub handle_lock-keeps_locks :
      (r : Request) (s t : S) (status : ℕ)
      → handle_lock h decode escape_text r s ≡ (answer status, t)
      → locks t ≡ locks s
  handle_lock-keeps_locks r s t status e = on_error locks _ s t status (handle_lock-OnError r s) e
