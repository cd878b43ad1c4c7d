-- ===== src/Handler/Methods.antt =====
-- webdav/webdav.go: the handlers of the methods, but for LOCK and PROPFIND.
pub mod Locking
pub mod KeptLocks
pub mod Multistatus
pub mod Dispatch
use webdav_serverless.Base.{
  ℕ, Bool, true, false, ◌&&◌, ◌||◌, not, Option, none, some, List, [], ◌∷◌, Bytes, codes, bytes_eq,
  beq, if◌then◌else◌, ltb, ◌==◌,
}
use mathlib.Core.List.{reverse}
use webdav_serverless.Errors.{Error, Result, ok, err, is_not_exist}
use webdav_serverless.Answers.{
  Answer, proceed, answer, Serve, pure, refuse, attempt, check, lift, deferred, settle, ◌>>=◌, ◌>>◌,
}
use webdav_serverless.Lock.{
  LockError, confirmation_failed, forbidden, locked, no_such_lock, LockDetails,
}
use webdav_serverless.Files.{Info, text}
use webdav_serverless.LiveProps.{find_etag}
use webdav_serverless.Responses.{Response}
use webdav_serverless.FileTree.{move_files, copy_files, missing_or}
use webdav_serverless.FileTree.Walk.{Depth, zero_depth, infinite}
use webdav_serverless.Handler.{
  Handler, Request, strip_prefix, parse_depth, confirm_locks, with_path, with_release,
}

-- What a handler leaves to be sent: the status that it returns, 0 where it has written a response,
-- and the headers and the body that it sets. ServeContent sends the contents of a file; a text has the
-- status that the handler writes itself, 200 where it calls no WriteHeader; a multistatus has been
-- written by the encoder.
pub data Body (F : Type 0) : Type 0 where
  no_body multistatus : Body F
  contents : Bytes → Info → F → Body F
  xml : ℕ → Bytes → Body F

pub record Reply (F : Type 0) : Type 0 where
  pub status : ℕ
  pub headers : List (Bytes × Bytes)
  pub body : Body F

abbrev pub plain : {F : Type 0} → ℕ → Reply F
plain status = record { status = status; headers = []; body = no_body }

-- The methods that handleOptions allows, by what Stat gives.
abbrev pub allow : Result Info → Bytes
allow (ok i) =
    if i.is_dir
    then codes "OPTIONS, LOCK, DELETE, PROPPATCH, COPY, MOVE, UNLOCK, PROPFIND"
    else codes
        "OPTIONS, LOCK, GET, HEAD, POST, DELETE, PROPPATCH, COPY, MOVE, UNLOCK, PROPFIND, PUT"
allow (err e) = codes "OPTIONS, LOCK, PUT, MKCOL"

abbrev pub options_headers : Result Info → List (Bytes × Bytes)
options_headers found =
    (codes "Allow", allow found)
    ∷ (codes "DAV", codes "1, 2")
    ∷ (codes "MS-Author-Via", codes "DAV")
    ∷ []

-- The token between the angle brackets of a Coded-URL.
abbrev pub until_bracket : Bytes → Option Bytes
until_bracket [] = none
until_bracket (c ∷ t) = if c == b'>' then some (reverse t) else none

abbrev pub coded_url : Bytes → Option Bytes
coded_url [] = none
coded_url (c ∷ t) = if c == b'<' then until_bracket (reverse t) else none

-- The Depth header of a COPY, where there must be "0" or "infinity" if there is one; whether it is
-- infinite.
abbrev infinite_or_zero : Depth → Option Bool
infinite_or_zero infinite = some true
infinite_or_zero zero_depth = some false
infinite_or_zero _ = none

unfoldable pub copy_depth : Bytes → Option Bool
unfolding parse_depth
copy_depth [] = some true
copy_depth (c ∷ s) = infinite_or_zero (parse_depth (c ∷ s))

module _ {S F : Type 0} (h : Handler S F) where
  unfoldable pub handle_options : Request → Serve S (Reply F)
  handle_options r = with_path h r λ path. do
    found ← attempt (h.file_system.stat path)
    pure (record { status = 0; headers = options_headers found; body = no_body })

  abbrev pub served : Bytes → Info → F → Serve S (Reply F)
  served path i f = if i.is_dir then pure (plain 405) else (do
    etag ← check (λ e. 500) (find_etag i)
    pure (record { status = 0; headers = (codes "ETag", etag) ∷ []; body = contents path i f }))

  unfoldable pub handle_get_head_post : Request → Serve S (Reply F)
  handle_get_head_post r = with_path h r λ path. do
    f ← check (λ e. 404) (h.file_system.open_file path false)
    deferred (h.file_system.close f)
        (do i ← check (λ e. 404) (h.file_system.file_stat f); served path i f)

  unfoldable pub handle_delete : Request → Serve S (Reply F)
  handle_delete r = with_path h r λ path. with_release (confirm_locks h r path []) (do
    i ← check (missing_or 404 405) (h.file_system.stat path)
    check (λ e. 405) (h.file_system.remove_all path)
    pure (plain 204))

  unfoldable pub handle_put : Request → Serve S (Reply F)
  handle_put r = with_path h r λ path. with_release (confirm_locks h r path []) (do
    i ← check (λ e. 409) (h.file_system.create path 438 (text r.body))
    etag ← check (λ e. 500) (find_etag i)
    pure (record { status = 201; headers = (codes "ETag", etag) ∷ []; body = no_body }))

  unfoldable pub handle_mkcol : Request → Serve S (Reply F)
  handle_mkcol r = with_path h r λ path. with_release (confirm_locks h r path []) (
      if ltb 0 r.content_length
      then pure (plain 415)
      else (do check (missing_or 409 405) (h.file_system.mkdir path 511); pure (plain 201)))

  -- The path of the Destination header, on this host or without a host.
  unfoldable pub destination_path : Request → Option (Bytes × Bytes) → Answer Bytes
  destination_path r none = answer 400
  destination_path r (some (host, path)) =
      if not (beq host []) && not (beq host r.host) then answer 502 else proceed path

  unfoldable pub destination : Request → Answer Bytes
  unfolding destination_path
  destination r =
      if beq r.destination [] then answer 400 else destination_path r (h.parse_url r.destination)

  abbrev pub copy_to : Request → Bytes → Bytes → Option Bool → Serve S ℕ
  copy_to r src dst none = refuse 400
  copy_to r src dst (some deep) =
      copy_files h.file_system 1000 src dst (not (beq r.overwrite (codes "F"))) deep

  -- A MOVE has no Depth header or "infinity".
  abbrev pub move_to : Request → Bytes → Bytes → Option Bool → Serve S ℕ
  move_to r src dst (some true) = move_files h.file_system src dst (beq r.overwrite (codes "T"))
  move_to r src dst _ = refuse 400

  abbrev pub copy_or_move : Request → Bytes → Bytes → Serve S ℕ
  copy_or_move r src dst =
      if beq r.method (codes "COPY")
      then with_release (confirm_locks h r [] dst) (copy_to r src dst (copy_depth r.depth))
      else with_release (confirm_locks h r src dst) (move_to r src dst (copy_depth r.depth))

  unfoldable pub handle_copy_move : Request → Serve S (Reply F)
  unfolding copy_depth
  handle_copy_move r = do
    target ← lift (destination r)
    src ← lift (strip_prefix h.prefix r.url_path)
    dst ← lift (strip_prefix h.prefix target)
    status ←
        (if beq dst []
          then refuse 502
          else if beq dst src
          then refuse 403
          else copy_or_move r src dst)
    pure (plain status)

  abbrev pub unlocked : Option LockError × S → Answer (Reply F) × S
  unlocked (none, s) = (proceed (plain 204), s)
  unlocked (some forbidden, s) = (answer 403, s)
  unlocked (some locked, s) = (answer 423, s)
  unlocked (some no_such_lock, s) = (answer 409, s)
  unlocked (some confirmation_failed, s) = (answer 500, s)

  abbrev pub unlock_coded : Option Bytes → Serve S (Reply F)
  unlock_coded none = refuse 400
  unlock_coded (some token) = λ s. unlocked (h.lock_system.unlock (h.now s) token s)

  unfoldable pub handle_unlock : Request → Serve S (Reply F)
  handle_unlock r = unlock_coded (coded_url r.lock_token)
