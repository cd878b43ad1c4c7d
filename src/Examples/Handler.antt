-- ===== src/Examples/Handler.antt =====
-- The handler over memLS, and over a lock system that keeps the names of its locks, with one file for
-- every path.
use webdav_serverless.Base.{
  Bool, true, false, none, List, [], ◌∷◌, ◌++◌, ◌≡◌, ◌↔◌, refl, ap, Bytes, codes, bytes_eq, beq,
  contains, bytes_dec, arith, if◌then◌else◌, trim_prefix,
}
use webdav_serverless.Errors.{ok, err, not_exist, permission}
use webdav_serverless.Lock.{can_create}
use webdav_serverless.Answers.{answer, proceed, lift, check, attempt, ◌>>=◌}
use webdav_serverless.Lock.{locked, no_such_lock, confirmation_failed, LockResult, granted, refused}
use webdav_serverless.Lock.Timeout.{parse_timeout}
use webdav_serverless.IfHeader.{IfList}
use webdav_serverless.Property.{name_eq}
use webdav_serverless.Files.{Info, FileSystem}
use webdav_serverless.FileTree.Kept.{FileLaws}
use webdav_serverless.Requests.{LockInfo, Decoded, decoded, read_lock_info}
use webdav_serverless.Handler.{
  LockSystem, Handler, Request, strip_prefix, confirm_lists, resource, tagged_path,
}
use webdav_serverless.Handler.Prefix.{strip_prefix-rest}
use webdav_serverless.Handler.IfLists.{IsConfirmed, confirm_lists-IsConfirmed}
use webdav_serverless.Lock.Ops.{create, collect_expired_nodes, next_token}
use webdav_serverless.Lock.Decimal.{format_uint}
use webdav_serverless.Path.{slash_clean}
use webdav_serverless.Base.Dict.{lookup, insert}
use webdav_serverless.Examples.Lock.{one_locked_state, one_locked_names, one_locked-IsSound}
use webdav_serverless.Examples.LockSystem.{SoundLs, mem_ls, locks_to, mem_ls-LockLaws}
use webdav_serverless.Handler.Methods.{
  handle_delete, handle_put, handle_mkcol, handle_copy_move, copy_depth,
}
use webdav_serverless.Handler.Methods.KeptLocks.{handlers-keep_locks}
use webdav_serverless.Handler.Methods.Locking.{handle_lock}
use webdav_serverless.Handler.Methods.Locking.Failed.{handle_lock-keeps_locks}

abbrev pub Names : Type 0
Names = List Bytes

abbrev pub take_name : Bytes → Names → Bool → LockResult Bytes × Names
take_name name s true = (refused locked, s)
take_name name s false = (granted (1 ∷ name), name ∷ s)

abbrev pub drop_name : Bytes → Names → Names
drop_name t [] = []
drop_name t (x ∷ s) = let rest = drop_name t s in if beq t (1 ∷ x) then s else x ∷ rest

abbrev pub names : LockSystem Names
names = record {
  confirm = λ now src dst conditions s. (refused confirmation_failed, s);
  create = λ now d s. take_name d.lock_root s (contains s d.lock_root);
  refresh = λ now t d s. (refused no_such_lock, s);
  unlock = λ now t s. (none, drop_name t s);
}

abbrev pub an_info : Info
an_info = record {
  name = codes "a";
  size = 3;
  is_dir = false;
  perm = 438;
  mod_time = 16;
  e_tag = none;
  content_type = none;
}

-- One file for every path, without properties and without children.
abbrev pub no_files : {S : Type 0} → FileSystem S (Unit {0})
no_files = record {
  mkdir = λ p perm s. (ok tt, s);
  open_file = λ p writable s. (ok tt, s);
  create = λ p perm c s. (ok an_info, s);
  remove_all = λ p s. (ok tt, s);
  rename = λ p q s. (ok tt, s);
  stat = λ p s. (ok an_info, s);
  file_stat = λ f s. (ok an_info, s);
  readdir = λ f s. (ok [], s);
  close = λ f s. s;
  read_full = λ f n s. (ok [], s);
  rewind = λ f s. (ok tt, s);
  is_holder = λ f. false;
  dead_props = λ f s. (ok [], s);
  patch = λ f patches s. (ok [], s);
}

abbrev pub handler : Handler Names (Unit {0})
handler = record {
  prefix = codes "/dav";
  file_system = no_files;
  lock_system = names;
  now = λ s. 0;
  parse_url = λ u. none;
}

-- A handler whose lock system confirms everything.
abbrev trusting : Handler Names (Unit {0})
trusting = record handler {
  lock_system = record names { confirm = λ now src dst conditions s. (granted (λ u. u), s) };
}

-- A list whose tag is no URL, which is skipped, and one without a tag.
abbrev lists : List IfList
lists =
    record { resource_tag = codes "x"; conditions = [] }
    ∷ record { resource_tag = []; conditions = [] }
    ∷ []

confirm_lists-IsConfirmed_example :
    IsConfirmed trusting
      (codes "h")
      (codes "/a")
      []
      lists
      (codes "/b" ∷ [])
      (λ u. u)
      (codes "/b" ∷ [])
unfolding confirm_lists resource tagged_path
confirm_lists-IsConfirmed_example =
    confirm_lists-IsConfirmed trusting (codes "h") (codes "/a") [] lists (codes "/b" ∷ [])
      (codes "/b" ∷ []) (λ u. u) refl

no_files-FileLaws : {S L : Type 0} (locks : S → L) → FileLaws no_files locks
no_files-FileLaws locks = record {
  mkdir_keeps = λ p perm. record { at = λ s. refl };
  open_keeps = λ p writable. record { at = λ s. refl };
  create_keeps = λ p perm c. record { at = λ s. refl };
  remove_all_keeps = λ p. record { at = λ s. refl };
  rename_keeps = λ p q. record { at = λ s. refl };
  stat_keeps = λ p. record { at = λ s. refl };
  file_stat_keeps = λ f. record { at = λ s. refl };
  readdir_keeps = λ f. record { at = λ s. refl };
  close_keeps = λ f s. refl;
}

abbrev pub request : Request
request = record {
  method = codes "MOVE";
  url_path = codes "/dav/a";
  host = codes "h";
  if_header = [];
  lock_token = [];
  destination = [];
  depth = [];
  overwrite = [];
  timeout = [];
  content_length = 0;
  body = [];
}

abbrev pub others : Names
others = codes "/b" ∷ []

abbrev one_locked : SoundLs
one_locked = record {
  memory = one_locked_state;
  names = one_locked_names;
  sound = one_locked-IsSound;
}

-- The handler over memLS, with a lock of "/a", at the time 0.
abbrev locking : Handler SoundLs (Unit {0})
locking = record {
  prefix = codes "/dav";
  file_system = no_files;
  lock_system = mem_ls;
  now = λ s. 0;
  parse_url = λ u. none;
}

handlers-keep_locks_example :
    (locks_to 9 (handle_delete locking request one_locked).1 ≡ locks_to 9 one_locked)
    × (locks_to 9 (handle_put locking request one_locked).1 ≡ locks_to 9 one_locked)
    × (locks_to 9 (handle_mkcol locking request one_locked).1 ≡ locks_to 9 one_locked)
    × (locks_to 9 (handle_copy_move locking request one_locked).1 ≡ locks_to 9 one_locked)
handlers-keep_locks_example =
    handlers-keep_locks locking (locks_to 9) 9 (λ s. omega arith) (mem_ls-LockLaws 9)
      (no_files-FileLaws (locks_to 9)) request refl one_locked

strip_prefix-rest_example :
    (strip_prefix (codes "/dav") (codes "/dav/a") ≡ proceed (codes "/a"))
    ↔ (codes "/dav/a" ≡ codes "/dav" ++ codes "/a")
strip_prefix-rest_example = strip_prefix-rest (codes "/dav") (codes "/dav/a") (codes "/a")

-- A LOCK request for a path that is locked already.
abbrev pub decode_lock : Bytes → Decoded LockInfo
decode_lock b = decoded (record { exclusive = true; shared = false; write = true; owner_xml = [] })

-- There is no file, and none can be created.
abbrev failing : Handler SoundLs (Unit {0})
failing = record locking {
  file_system = record no_files {
    stat = λ p s. (err not_exist, s);
    create = λ p perm c s. (err permission, s);
  };
}

failing-FileLaws : FileLaws failing.file_system (locks_to 9)
failing-FileLaws = record {
  mkdir_keeps = λ p perm. record { at = λ s. refl };
  open_keeps = λ p writable. record { at = λ s. refl };
  create_keeps = λ p perm c. record { at = λ s. refl };
  remove_all_keeps = λ p. record { at = λ s. refl };
  rename_keeps = λ p q. record { at = λ s. refl };
  stat_keeps = λ p. record { at = λ s. refl };
  file_stat_keeps = λ f. record { at = λ s. refl };
  readdir_keeps = λ f. record { at = λ s. refl };
  close_keeps = λ f s. refl;
}

-- The lock is created, and taken back.
abbrev lock_b : Request
lock_b = record request { url_path = codes "/dav/b" }

lock_b-answer : (handle_lock failing decode_lock (λ s. s) lock_b one_locked).0 ≡ answer 500
unfolding handle_lock parse_timeout strip_prefix read_lock_info contains trim_prefix bytes_eq ◌>>=◌
    lift copy_depth check attempt create lookup collect_expired_nodes next_token format_uint
    bytes_dec slash_clean insert can_create
lock_b-answer = refl

handle_lock-keeps_locks_example :
    locks_to 9 (handle_lock failing decode_lock (λ s. s) lock_b one_locked).1
    ≡ locks_to 9 one_locked
handle_lock-keeps_locks_example =
    handle_lock-keeps_locks failing decode_lock (λ s. s) (locks_to 9) 9 (λ s. omega arith)
      (mem_ls-LockLaws 9) failing-FileLaws lock_b one_locked
      (handle_lock failing decode_lock (λ s. s) lock_b one_locked).1 500
      (ap (λ a. (a, (handle_lock failing decode_lock (λ s. s) lock_b one_locked).1)) lock_b-answer)
