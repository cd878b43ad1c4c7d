-- ===== src/Handler/Methods/Locking.antt =====
-- webdav/webdav.go: handleLock.
pub mod Failed
use webdav_serverless.Base.{
  ℕ, Bool, true, false, ◌&&◌, ◌||◌, not, Option, none, some, List, [], ◌∷◌, ◌++◌, Bytes, codes,
  bytes_eq, beq, if◌then◌else◌,
}
use webdav_serverless.Errors.{Error, Result, ok, err}
use webdav_serverless.Answers.{
  Answer, proceed, answer, Serve, pure, refuse, attempt, check, lift, deferred, settle, ◌>>=◌, ◌>>◌,
}
use webdav_serverless.IfHeader.{
  Condition, IfList, IfHeader, Parsed, accept, reject, out_of_fuel, parse_if_header,
}
use webdav_serverless.Lock.{
  LockError, confirmation_failed, forbidden, locked, no_such_lock, LockResult, granted, refused,
  LockDetails,
}
use webdav_serverless.Lock.Timeout.{Timeout, lasts, invalid_timeout, parse_timeout}
use webdav_serverless.Files.{Info, text}
use webdav_serverless.Requests.{LockInfo, Decoded, read_lock_info}
use webdav_serverless.Responses.{lock_info_text}
use webdav_serverless.Handler.{Handler, Request, strip_prefix}
use webdav_serverless.Handler.Methods.{Reply, Body, xml, copy_depth}

-- The token of an If header with one list of one condition.
abbrev pub only_token : IfHeader → Bytes
only_token [] = []
only_token (l ∷ []) = elim l.conditions [ [] ↦ [] | c ∷ [] ↦ c.token | _ ∷ _ ∷ _ ↦ [] ]
only_token (l ∷ _ ∷ _) = []

abbrev pub refresh_token : Parsed IfHeader → Answer Bytes
refresh_token (accept lists) =
    let token = only_token lists in if beq token [] then answer 400 else proceed token
refresh_token _ = answer 400

abbrev pub duration_of : Timeout → Answer (Option ℕ)
duration_of (lasts d) = proceed d
duration_of invalid_timeout = answer 400

abbrev pub depth_answer : Option Bool → Answer Bool
depth_answer none = answer 400
depth_answer (some deep) = proceed deep

module _ {S F : Type 0} (h : Handler S F) (decode : Bytes → Decoded LockInfo)
    (escape_text : Bytes → Bytes) where
  abbrev pub xml_type : Bytes × Bytes
  xml_type = (codes "Content-Type", codes "application/xml; charset=utf-8")

  abbrev pub refreshed : Bytes → LockResult LockDetails × S → Answer (Reply F) × S
  refreshed token (granted ld, s) = (
    proceed (record {
      status = 0;
      headers = xml_type ∷ [];
      body = xml 200 (lock_info_text escape_text token ld);
    }),
    s,
  )
  refreshed token (refused no_such_lock, s) = (answer 412, s)
  refreshed token (refused _, s) = (answer 500, s)

  unfoldable pub refresh_lock : Request → Option ℕ → Serve S (Reply F)
  refresh_lock r duration = do
    token ← lift (refresh_token (parse_if_header r.if_header))
    λ s. refreshed token (h.lock_system.refresh (h.now s) token duration s)

  abbrev pub created_lock : LockResult Bytes × S → Answer Bytes × S
  created_lock (granted token, s) = (proceed token, s)
  created_lock (refused locked, s) = (answer 423, s)
  created_lock (refused _, s) = (answer 500, s)

  -- Whether a resource is created.
  abbrev pub create_missing : Bytes → Result Info → Serve S Bool
  create_missing path (ok i) = pure false
  create_missing path (err e) = do
    made ← check (λ e. 500) (h.file_system.create path 438 (text []))
    pure true

  -- The deferred Unlock, where the handler returns an error.
  abbrev pub unlock_failed : ℕ → Bytes → Answer (Reply F) × S → Answer (Reply F) × S
  unlock_failed now token (answer n, s) = (answer n, (h.lock_system.unlock now token s).1)
  unlock_failed now token (proceed reply, s) = (proceed reply, s)

  abbrev pub create_resource : LockDetails → Bytes → Serve S (Reply F)
  create_resource ld token = do
    found ← attempt (h.file_system.stat ld.lock_root)
    created ← create_missing ld.lock_root found
    pure (record {
      status = 0;
      headers = (codes "Lock-Token", codes "<" ++ (token ++ codes ">")) ∷ xml_type ∷ [];
      body = xml (if created then 201 else 200) (lock_info_text escape_text token ld);
    })

  abbrev pub new_details : Bytes → Option ℕ → LockInfo → Bool → LockDetails
  new_details path duration li deep = record {
    lock_root = path;
    duration = duration;
    owner_xml = li.owner_xml;
    zero_depth = not deep;
  }

  unfoldable pub new_lock : ℕ → LockDetails → Serve S (Reply F)
  new_lock now ld = do
    token ← λ s. created_lock (h.lock_system.create now ld s)
    λ s. unlock_failed now token (create_resource ld token s)

  unfoldable pub lock_resource : Request → Option ℕ → LockInfo → Serve S (Reply F)
  unfolding new_lock
  lock_resource r duration li = do
    deep ← lift (depth_answer (copy_depth r.depth))
    path ← lift (strip_prefix h.prefix r.url_path)
    λ s. new_lock (h.now s) (new_details path duration li deep) s

  abbrev pub lock_or_refresh : Request → Option ℕ → Option LockInfo → Serve S (Reply F)
  lock_or_refresh r duration none = refresh_lock r duration
  lock_or_refresh r duration (some li) = lock_resource r duration li

  unfoldable pub handle_lock : Request → Serve S (Reply F)
  unfolding lock_resource refresh_lock
  handle_lock r = do
    duration ← lift (duration_of (parse_timeout r.timeout))
    info ← lift (read_lock_info decode r.body)
    lock_or_refresh r duration info
