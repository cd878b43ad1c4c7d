-- ===== src/Handler/Methods/Multistatus.antt =====
-- webdav/webdav.go: handlePropfind and handleProppatch.
pub mod Included
use webdav_serverless.Base.{
  ℕ, Bool, true, false, ◌&&◌, ◌||◌, not, Option, none, some, List, [], ◌∷◌, ◌++◌, Bytes, codes,
  bytes_eq, beq, if◌then◌else◌, map,
}
use webdav_serverless.Errors.{
  Error, permission, path_error, skip_dir, Result, ok, err, Effect, Post,
}
use webdav_serverless.Errors as Errors
use webdav_serverless.Answers.{
  Answer, proceed, answer, Serve, pure, refuse, attempt, check, lift, deferred, settle, ◌>>=◌, ◌>>◌,
}
use webdav_serverless.Path.{root}
use webdav_serverless.Path.Join.{join}
use webdav_serverless.Property.{Name, Propstat, Proppatch}
use webdav_serverless.Files.{Info}
use webdav_serverless.LiveProps.{Library}
use webdav_serverless.Props.{bare, propstat_of, propnames, props, allprop, patch}
use webdav_serverless.Requests.{Propfind, SetRemove, Decoded, read_propfind, read_proppatch}
use webdav_serverless.Responses.{Encoder, write, close, make_propstat_response}
use webdav_serverless.FileTree.{missing_or}
use webdav_serverless.FileTree.Walk.{
  Depth, infinite, invalid, Walked, finished, stopped, out_of_fuel, walk_fs,
}
use webdav_serverless.Handler.{
  Handler, Request, parse_depth, status_text, confirm_locks, with_path, with_release,
}
use webdav_serverless.Handler.Methods.{Reply, multistatus}

-- errors.Is(err, os.ErrPermission), or an os.PathError.
abbrev pub is_skipped : Error → Bool
is_skipped permission = true
is_skipped (path_error e) = true
is_skipped _ = false

abbrev pub skip_response : Option Info → Option Error
skip_response none = none
skip_response (some i) = if i.is_dir then some skip_dir else none

-- handlePropfindError
unfoldable pub propfind_error : Error → Option Info → Option Error
propfind_error e i = if is_skipped e then skip_response i else some e

abbrev pub find_depth : Bytes → Answer Depth
find_depth [] = proceed infinite
find_depth (c ∷ s) = elim (parse_depth (c ∷ s)) [ invalid ↦ answer 400 | d ↦ proceed d ]

-- A parameter of the handlers: the XML package's decoder and encoder, http.StatusText, EscapedPath, and
-- the order of a range over liveProps.
pub record Xml (S : Type 0) : Type 0 where
  pub encoder : Encoder S
  pub decode_propfind : Bytes → Decoded Propfind
  pub decode_proppatch : Bytes → Decoded (List SetRemove)
  pub status_name : ℕ → Bytes
  pub escaped_path : Bytes → Bytes
  pub live_names : List Name

abbrev pub name_stats : List Name → List Propstat
name_stats ns = propstat_of 200 (map bare ns) ∷ []

module _ {S F : Type 0} (h : Handler S F) (lib : Library) (x : Xml S) where
  abbrev pub find_stats : Propfind → Bytes → Effect S (List Propstat)
  find_stats pf name =
      if pf.propname
      then Errors.◌>>=◌ (propnames h.file_system x.live_names name)
          (λ ns. Errors.pure (name_stats ns))
      else if pf.allprop
      then allprop h.file_system lib x.live_names name pf.prop
      else props h.file_system lib name pf.prop

  abbrev pub is_dir_info : Option Info → Bool
  is_dir_info none = false
  is_dir_info (some i) = i.is_dir

  abbrev pub href : Bytes → Option Info → Bytes
  href name i =
      let p = join h.prefix name in if not (beq p root) && is_dir_info i then p ++ codes "/" else p

  abbrev pub written : Result (Unit {0}) × S → Option Error × S
  written (ok _, s) = (none, s)
  written (err e, s) = (some e, s)

  abbrev pub write_stats : Bytes → Option Info → Result (List Propstat) × S → Option Error × S
  write_stats name i (err e, s) = (propfind_error e i, s)
  write_stats name i (ok stats, s) = written (
      write x.encoder
        (make_propstat_response (status_text x.status_name) x.escaped_path (href name i) stats) s)

  -- walkFn
  unfoldable pub visit : Propfind → Bytes → Option Info → Option Error → S → Option Error × S
  unfolding propfind_error
  visit pf name i (some e) s = (propfind_error e i, s)
  visit pf name i none s = write_stats name i (find_stats pf name s)

  -- The errors of the walk and of close. `none` is a walk that ran out of fuel.
  abbrev pub closed : Walked → Result (Unit {0}) × S → Answer (Option (Reply F)) × S
  closed out_of_fuel (_, s) = (proceed none, s)
  closed (stopped e) (_, s) = (answer 500, s)
  closed finished (err e, s) = (answer 500, s)
  closed finished (ok _, s) =
      (proceed (some (record { status = 0; headers = []; body = multistatus })), s)

  unfoldable pub find_all : ℕ → Propfind → Depth → Bytes → Info → Serve S (Option (Reply F))
  unfolding visit
  find_all fuel pf depth name i s =
      let (w, t) = walk_fs h.file_system (visit pf) fuel depth name i (x.encoder.reset s) in
      closed w (close x.encoder t)

  unfoldable pub handle_propfind : ℕ → Request → Serve S (Option (Reply F))
  unfolding find_all
  handle_propfind fuel r = with_path h r λ path. do
    i ← check (missing_or 404 405) (h.file_system.stat path)
    depth ← lift (find_depth r.depth)
    pf ← lift (read_propfind x.decode_propfind r.body)
    find_all fuel pf depth path i

  abbrev pub write_patched : Bytes → List Propstat → Serve S (Reply F)
  write_patched path stats = do
    wrote ← attempt (λ s.
        write x.encoder
          (make_propstat_response (status_text x.status_name) x.escaped_path path stats)
          (x.encoder.reset s))
    ended ← attempt (close x.encoder)
    settle (λ e. 500) wrote
    settle (λ e. 500) ended
    pure (record { status = 0; headers = []; body = multistatus })

  unfoldable pub handle_proppatch : Request → Serve S (Reply F)
  handle_proppatch r = with_path h r λ path. with_release (confirm_locks h r path []) (do
    i ← check (missing_or 404 405) (h.file_system.stat path)
    patches ← lift (read_proppatch x.decode_proppatch r.body)
    stats ← check (λ e. 500) (patch h.file_system path patches)
    write_patched r.url_path stats)
