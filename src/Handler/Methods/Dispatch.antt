-- ===== src/Handler/Methods/Dispatch.antt =====
-- webdav/webdav.go: ServeHTTP.
use webdav_serverless.Base.{
  ℕ, ◌||◌, Option, none, some, List, [], Bytes, codes, bytes_eq, beq, if◌then◌else◌, ◌==◌,
}
use webdav_serverless.Answers.{Answer, proceed, answer, Serve, pure, refuse, ◌>>=◌}
use webdav_serverless.LiveProps.{Library}
use webdav_serverless.Requests.{LockInfo, Decoded}
use webdav_serverless.Handler.{Handler, Request, status_text}
use webdav_serverless.Handler.Methods.{
  Reply, handle_options, handle_get_head_post, handle_delete, handle_put, handle_mkcol,
  handle_copy_move, handle_unlock,
}
use webdav_serverless.Handler.Methods.Locking.{handle_lock}
use webdav_serverless.Handler.Methods.Multistatus.{Xml, handle_propfind, handle_proppatch}

-- What is sent at the end: a handler's own response, a status with its text, or a status alone.
pub data Sent (F : Type 0) : Type 0 where
  own : Reply F → Sent F
  with_text : ℕ → List (Bytes × Bytes) → Bytes → Sent F
  without_text : List (Bytes × Bytes) → Sent F

module _ {S F : Type 0} (h : Handler S F) (lib : Library) (x : Xml S)
    (decode_lock : Bytes → Decoded LockInfo) where
  abbrev pub some_reply : Serve S (Reply F) → Serve S (Option (Reply F))
  some_reply m = m >>= λ reply. pure (some reply)

  -- The handler has a file system and a lock system.
  unfoldable pub dispatch : ℕ → Request → Serve S (Option (Reply F))
  dispatch fuel r =
      if beq r.method (codes "OPTIONS")
      then some_reply (handle_options h r)
      else if beq r.method (codes "GET")
          || beq r.method (codes "HEAD")
          || beq r.method (codes "POST")
      then some_reply (handle_get_head_post h r)
      else if beq r.method (codes "DELETE")
      then some_reply (handle_delete h r)
      else if beq r.method (codes "PUT")
      then some_reply (handle_put h r)
      else if beq r.method (codes "MKCOL")
      then some_reply (handle_mkcol h r)
      else if beq r.method (codes "COPY") || beq r.method (codes "MOVE")
      then some_reply (handle_copy_move h r)
      else if beq r.method (codes "LOCK")
      then some_reply (handle_lock h decode_lock lib.escape_text r)
      else if beq r.method (codes "UNLOCK")
      then some_reply (handle_unlock h r)
      else if beq r.method (codes "PROPFIND")
      then handle_propfind h lib x fuel r
      else if beq r.method (codes "PROPPATCH")
      then some_reply (handle_proppatch h lib x r)
      else refuse 400

  abbrev pub status_sent : ℕ → List (Bytes × Bytes) → Sent F
  status_sent status headers =
      if status == 204
      then without_text headers
      else with_text status headers (status_text x.status_name status)

  abbrev pub sent : Answer (Option (Reply F)) → Option (Sent F)
  sent (answer status) = some (status_sent status [])
  sent (proceed none) = none
  sent (proceed (some reply)) =
      some (if reply.status == 0 then own reply else status_sent reply.status reply.headers)

  -- `none` where the walk of a PROPFIND runs out of fuel.
  unfoldable pub serve_http : ℕ → Request → S → Option (Sent F) × S
  unfolding dispatch
  serve_http fuel r s = let (a, t) = dispatch fuel r s in (sent a, t)
