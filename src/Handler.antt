-- ===== src/Handler.antt =====
-- webdav/webdav.go: the handler of the requests, and the locks that a request takes.
pub mod TemporaryLocks
pub mod Prefix
pub mod IfLists
pub mod Methods
use webdav_serverless.Base.{
  ℕ, ◌-◌, Bool, true, false, ◌&&◌, ◌||◌, not, Option, none, some, List, [], ◌∷◌, ◌≡◌, refl, Bytes,
  codes, bytes_eq, beq, if◌then◌else◌, length, ltb, ◌==◌, trim_prefix,
}
use mathlib.Core.List.{reverse}
use webdav_serverless.Errors.{Error, Result, ok, err, Effect, is_not_exist}
use webdav_serverless.Answers.{Answer, proceed, answer, Serve, lift, ◌>>=◌}
use webdav_serverless.Files.{FileSystem}
use webdav_serverless.FileTree.Walk.{Depth, zero_depth, one_depth, infinite, invalid}
use webdav_serverless.IfHeader.{
  Condition, IfList, IfHeader, Parsed, accept, reject, out_of_fuel, parse_if_header,
}
use webdav_serverless.Lock.{
  LockError, confirmation_failed, forbidden, locked, no_such_lock, LockResult, granted, refused,
  LockDetails,
}

-- The interface LockSystem (webdav/lock.go), on a state `S`. What Confirm grants
-- is its `release`; Unlock returns its error, or none.
pub record LockSystem (S : Type 0) : Type 0 where
  pub confirm : ℕ → Bytes → Bytes → List Condition → S → LockResult (S → S) × S
  pub create : ℕ → LockDetails → S → LockResult Bytes × S
  pub refresh : ℕ → Bytes → Option ℕ → S → LockResult LockDetails × S
  pub unlock : ℕ → Bytes → S → Option LockError × S

-- A Handler, with what it uses of Go's library: time.Now, which reads the state, and url.Parse,
-- which gives the host and the path. The logger is left out, and with it the error of a handler.
pub record Handler (S F : Type 0) : Type 0 where
  pub prefix : Bytes
  pub file_system : FileSystem S F
  pub lock_system : LockSystem S
  pub now : S → ℕ
  pub parse_url : Bytes → Option (Bytes × Bytes)

-- The parts of a http.Request that the handlers read, with a header that is not there as an empty
-- text; a content length of -1 is 0 here.
pub record Request : Type 0 where
  pub method : Bytes
  pub url_path : Bytes
  pub host : Bytes
  pub if_header : Bytes
  pub lock_token : Bytes
  pub destination : Bytes
  pub depth : Bytes
  pub overwrite : Bytes
  pub timeout : Bytes
  pub content_length : ℕ
  pub body : Bytes

unfoldable pub strip_prefix : Bytes → Bytes → Answer Bytes
strip_prefix [] p = proceed p
strip_prefix (c ∷ prefix) p =
    let r = trim_prefix p (c ∷ prefix) in
    if ltb (length r) (length p) then proceed r else answer 404

unfoldable pub parse_depth : Bytes → Depth
parse_depth s =
    if beq s (codes "0")
    then zero_depth
    else if beq s (codes "1")
    then one_depth
    else if beq s (codes "infinity")
    then infinite
    else invalid

abbrev pub temporary : Bytes → LockDetails
temporary root = record { lock_root = root; duration = none; owner_xml = []; zero_depth = true }

-- The argument is http.StatusText.
unfoldable pub status_text : (ℕ → Bytes) → ℕ → Bytes
status_text http code =
    if code == 207
    then codes "Multi-Status"
    else if code == 422
    then codes "Unprocessable Entity"
    else if code == 423
    then codes "Locked"
    else if code == 424
    then codes "Failed Dependency"
    else if code == 507
    then codes "Insufficient Storage"
    else http code

module _ {S F : Type 0} (h : Handler S F) where
  abbrev pub locked_answer : LockResult Bytes × S → Answer Bytes × S
  locked_answer (granted t, s) = (proceed t, s)
  locked_answer (refused locked, s) = (answer 423, s)
  locked_answer (refused _, s) = (answer 500, s)

  unfoldable pub lock : ℕ → Bytes → S → Answer Bytes × S
  lock now root s = locked_answer (h.lock_system.create now (temporary root) s)

  -- The tests `src != ""` and `srcToken != ""`.
  unfoldable pub lock_named : ℕ → Bytes → S → Answer Bytes × S
  lock_named now [] s = (proceed [], s)
  lock_named now (c ∷ name) s = lock now (c ∷ name) s

  unfoldable pub unlock_token : ℕ → Bytes → S → S
  unlock_token now [] s = s
  unlock_token now (c ∷ token) s = (h.lock_system.unlock now (c ∷ token) s).1

  abbrev pub hold_dst : ℕ → Bytes → Answer Bytes × S → Answer (S → S) × S
  hold_dst now src_token (answer n, s) = (answer n, unlock_token now src_token s)
  hold_dst now src_token (proceed dst_token, s) =
      (proceed (λ u. unlock_token now src_token (unlock_token now dst_token u)), s)

  abbrev pub hold_src : ℕ → Bytes → Answer Bytes × S → Answer (S → S) × S
  hold_src now dst (answer n, s) = (answer n, s)
  hold_src now dst (proceed src_token, s) = hold_dst now src_token (lock_named now dst s)

  -- The locks of a request without an If header.
  unfoldable pub temporary_locks : Bytes → Bytes → S → Answer (S → S) × S
  temporary_locks src dst s = hold_src (h.now s) dst (lock_named (h.now s) src s)

  -- The resource that a list is about; none for the next list.
  unfoldable pub tagged_path : Bytes → Option (Bytes × Bytes) → Option (Answer Bytes)
  tagged_path host none = none
  tagged_path host (some (url_host, path)) =
      if beq url_host host then some (strip_prefix h.prefix path) else none

  unfoldable pub resource : Bytes → Bytes → Bytes → Option (Answer Bytes)
  resource host src [] = some (proceed src)
  resource host src (c ∷ tag) = tagged_path host (h.parse_url (c ∷ tag))

  abbrev pub confirmed : LockResult (S → S) × S → (S → Answer (S → S) × S) → Answer (S → S) × S
  confirmed (granted release, s) next = (proceed release, s)
  confirmed (refused confirmation_failed, s) next = next s
  confirmed (refused _, s) next = (answer 500, s)

  abbrev pub confirm_list :
      Bytes
      → List Condition
      → Option (Answer Bytes)
      → S
      → (S → Answer (S → S) × S)
      → Answer (S → S) × S
  confirm_list dst conditions none s next = next s
  confirm_list dst conditions (some (answer n)) s next = (answer n, s)
  confirm_list dst conditions (some (proceed name)) s next =
      confirmed (h.lock_system.confirm (h.now s) name dst conditions s) next

  unfoldable pub confirm_lists : Bytes → Bytes → Bytes → List IfList → S → Answer (S → S) × S
  confirm_lists host src dst [] s = (answer 412, s)
  confirm_lists host src dst (l ∷ ls) s =
      confirm_list dst l.conditions (resource host src l.resource_tag) s
        (λ t. confirm_lists host src dst ls t)

  abbrev pub confirm_parsed : Bytes → Bytes → Bytes → Parsed IfHeader → S → Answer (S → S) × S
  confirm_parsed host src dst (accept lists) s = confirm_lists host src dst lists s
  confirm_parsed host src dst _ s = (answer 400, s)

  unfoldable pub confirm_locks : Request → Bytes → Bytes → S → Answer (S → S) × S
  confirm_locks r src dst s =
      if beq r.if_header []
      then temporary_locks src dst s
      else confirm_parsed r.host src dst (parse_if_header r.if_header) s

  -- The path of the request, which the prefix is taken off.
  abbrev pub with_path : {A : Type 0} → Request → (Bytes → Serve S A) → Serve S A
  with_path r work = lift (strip_prefix h.prefix r.url_path) >>= work

abbrev pub held : {S A : Type 0} → Answer (S → S) × S → Serve S A → Answer A × S
held (answer n, s) work = (answer n, s)
held (proceed release, s) work = let (r, t) = work s in (r, release t)

-- A handler's work between confirmLocks and the deferred release.
unfoldable pub with_release : {S A : Type 0} → Serve S (S → S) → Serve S A → Serve S A
with_release locks work s = held (locks s) work
