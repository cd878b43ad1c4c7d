-- ===== src/Handler/Methods/KeptLocks.antt =====
-- webdav/webdav.go: the locks after DELETE, PUT, MKCOL, COPY and MOVE requests without an If header.
use webdav_serverless.Base.{
  ℕ, ◌≤◌, Bool, true, false, Option, none, some, [], ◌≡◌, Bytes, codes, if◌then◌else◌, ltb, beq,
  bytes_eq,
}
use webdav_serverless.Errors.{ok, err, pure}
use webdav_serverless.Answers.{Serve, refuse}
use webdav_serverless.Answers.Keeps.{
  Keeps, keeps_rules, Keeps-pure, Keeps-refuse, Keeps-lift, Keeps-if, Keeps-bind, Keeps-value,
}
use webdav_serverless.Files.{Info, text, Optional}
use webdav_serverless.LiveProps.{optional, find_etag}
use webdav_serverless.FileTree.Kept.{FileLaws, move_files-Keeps, copy_files-Keeps}
use webdav_serverless.Handler.{Handler, Request, with_path, with_release, confirm_locks}
use webdav_serverless.Handler.TemporaryLocks.{LockLaws, with_release-Keeps}
use webdav_serverless.Handler.Methods.{
  handle_delete, handle_put, handle_mkcol, handle_copy_move, copy_to, move_to, copy_or_move,
}

optional-Keeps :
    {S L : Type 0} (view : S → L) (o : Option Optional) (b : Bytes)
    → Keeps view (optional {S = S} o (pure b))
optional-Keeps view none b = Keeps-value view (ok b)
optional-Keeps view (some (ok none)) b = Keeps-value view (ok b)
optional-Keeps view (some (ok (some t))) b = Keeps-value view (ok t)
optional-Keeps view (some (err e)) b = Keeps-value view (err e)

find_etag-Keeps : {S L : Type 0} (view : S → L) (i : Info) → Keeps view (find_etag {S = S} i)
unfolding find_etag
find_etag-Keeps view i = optional-Keeps view i.e_tag _

module _ {S F L : Type 0} (h : Handler S F) (locks : S → L) (end : ℕ)
    (early : (s : S) → h.now s ≤ end) (laws : LockLaws h.lock_system end locks)
    (files : FileLaws h.file_system locks) (r : Request) (no_if : r.if_header ≡ []) where
  copy_to-Keeps : (src dst : Bytes) (deep : Option Bool) → Keeps locks (copy_to h r src dst deep)
  copy_to-Keeps src dst none = search keeps_rules
  copy_to-Keeps src dst (some deep) = copy_files-Keeps files 1000 src dst _ deep

  move_to-Keeps : (src dst : Bytes) (deep : Option Bool) → Keeps locks (move_to h r src dst deep)
  move_to-Keeps src dst none = search keeps_rules
  move_to-Keeps src dst (some false) = search keeps_rules
  move_to-Keeps src dst (some true) = move_files-Keeps files src dst _

  -- The work on the path of a request, under its locks.
  at_path-Keeps :
      {A : Type 0} (work : Bytes → Serve S A)
      → ((path : Bytes) → Keeps locks (work path))
      → Keeps locks (with_path h r λ path. with_release (confirm_locks h r path []) (work path))
  at_path-Keeps work kept =
      Keeps-bind locks _ _ (Keeps-lift locks _)
        λ path. with_release-Keeps h locks end early laws r path [] (work path) no_if (kept path)

  handle_delete-Keeps : Keeps locks (handle_delete h r)
  unfolding handle_delete
  handle_delete-Keeps =
      at_path-Keeps _
        λ path. search (keeps_rules, files.stat_keeps path, files.remove_all_keeps path)

  handle_put-Keeps : Keeps locks (handle_put h r)
  unfolding handle_put
  handle_put-Keeps = at_path-Keeps _ λ path.
      Keeps-bind locks _ _ (search (keeps_rules, files.create_keeps path 438 (text r.body))) λ i.
        Keeps-bind locks _ _ (search (keeps_rules, find_etag-Keeps locks i))
          λ etag. Keeps-pure locks _

  handle_mkcol-Keeps : Keeps locks (handle_mkcol h r)
  unfolding handle_mkcol
  handle_mkcol-Keeps = at_path-Keeps _ λ path.
      Keeps-if locks (ltb 0 r.content_length) _ _ (Keeps-pure locks _)
        (search (keeps_rules, files.mkdir_keeps path 511))

  copy_or_move-Keeps : (src dst : Bytes) → Keeps locks (copy_or_move h r src dst)
  copy_or_move-Keeps src dst =
      Keeps-if locks (beq r.method (codes "COPY")) _ _
        (with_release-Keeps h locks end early laws r [] dst _ no_if (copy_to-Keeps src dst _))
        (with_release-Keeps h locks end early laws r src dst _ no_if (move_to-Keeps src dst _))

  to_target-Keeps :
      (src dst : Bytes)
      → Keeps locks (
          if beq dst []
          then refuse 502
          else if beq dst src
          then refuse 403
          else copy_or_move h r src dst)
  to_target-Keeps src dst =
      Keeps-if locks (beq dst []) _ _ (Keeps-refuse locks 502)
        (Keeps-if locks (beq dst src) _ _ (Keeps-refuse locks 403) (copy_or_move-Keeps src dst))

  handle_copy_move-Keeps : Keeps locks (handle_copy_move h r)
  unfolding handle_copy_move
  handle_copy_move-Keeps = Keeps-bind locks _ _ (Keeps-lift locks _) λ target.
      Keeps-bind locks _ _ (Keeps-lift locks _) λ src.
        Keeps-bind locks _ _ (Keeps-lift locks _)
          λ dst. Keeps-bind locks _ _ (to_target-Keeps src dst) λ status. Keeps-pure locks _

  -- A DELETE, PUT, MKCOL, COPY or MOVE request without an If header leaves the locks as they were
  -- before it, on every branch, errors included: its temporary locks are taken back. The lock system is
  -- supposed to take back the lock it granted last, up to a time that no request reads a later one
  -- than, and the file system to change no lock.
  pub handlers-keep_locks :
      (s : S)
      → (locks (handle_delete h r s).1 ≡ locks s)
        × (locks (handle_put h r s).1 ≡ locks s)
        × (locks (handle_mkcol h r s).1 ≡ locks s)
        × (locks (handle_copy_move h r s).1 ≡ locks s)
  handlers-keep_locks s = (
    handle_delete-Keeps.at s,
    handle_put-Keeps.at s,
    handle_mkcol-Keeps.at s,
    handle_copy_move-Keeps.at s,
  )
