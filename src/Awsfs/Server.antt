-- ===== src/Awsfs/Server.antt =====
-- awsfs: the methods of Server, which the handler calls as its FileSystem.
pub mod Cases
pub mod Mkdir
pub mod OpenFile
pub mod Stat
pub mod Bucket
pub mod Create
pub mod Rename
pub mod RemoveAll
pub mod Known
use mathlib.Core.List.{foldl}
use webdav_serverless.Base.{
  ℕ, zero, suc, ◌+◌, Bool, true, false, ◌||◌, Option, none, some, List, [], ◌∷◌, ◌++◌, ◌≡◌, refl,
  Bytes, codes, bytes_eq, beq, has_prefix, if◌then◌else◌, length, drop, not,
}
use webdav_serverless.Base.Dict.{Dict, insert, lookup, erase}
use webdav_serverless.Errors.{
  Error, exist, not_exist, invalid, not_supported, service, Result, ok, err, Effect, pure, fail,
  need, ◌>>=◌, ◌>>◌,
}
use webdav_serverless.Path.{root, slash, slash_clean, filepath_dir, filepath_base}
use webdav_serverless.Awsfs.{
  Entries, Reference, Entry, EntryType, file, dir, reference_id, is_dir, is_dir_type,
}
use webdav_serverless.Awsfs.Dynamo.{Dynamo}
use webdav_serverless.Awsfs.Metadata.{
  get_reference, get_entry, get_entries_by_parent_id, add_entry, update_entry, update_entry_name,
  delete_entries,
}
use webdav_serverless.Awsfs.Tree.{remove_below, rename_entries}
use webdav_serverless.Awsfs.Objects.{Objects, Reader, read_sized, put_object_large, get_object}

pub record FileInfo : Type 0 where
  pub name : Bytes
  pub size : ℕ
  pub mod_time : ℕ
  pub info_is_dir : Bool

unfoldable pub file_info : Entry → FileInfo
unfolding is_dir
file_info e = record { name = e.name; size = e.size; mod_time = e.modify; info_is_dir = is_dir e }

-- A file of the temporary directory: what it holds, and the offset of its next read.
pub record TempFile : Type 0 where
  pub content : Bytes
  pub offset : ℕ

pub record FileReader : Type 0 where
  pub temp_file : Option TempFile
  pub entry : Entry

-- `os.ErrExist` and the like, unless the test fails.
abbrev pub unless {ℓ} : {S A : Type ℓ} → Bool → Error → Effect S A → Effect S A
unless true e m = fail e
unless false e m = m

abbrev pub is_present : Option Bytes → Bool
is_present none = false
is_present (some i) = true

-- The `Entry` literals of Mkdir and Create.
abbrev pub new_entry : Bytes → Bytes → Bytes → EntryType → ℕ → ℕ → Entry
new_entry id parent_id name type size now = record {
  id = id;
  parent_id = parent_id;
  name = name;
  type = type;
  size = size;
  modify = now;
  dead_props = [];
  version = 1;
}

module _ (D : Dynamo) (P : Objects) where
  pub record World : Type 0 where
    pub db : D.State
    pub objects : P.State

  abbrev pub on_db : {A : Type 0} → Effect D.State A → Effect World A
  on_db m w = let (r, s) = m w.db in (r, record w { db = s })

  abbrev pub on_objects : {A : Type 0} → Effect P.State A → Effect World A
  on_objects m w = let (r, s) = m w.objects in (r, record w { objects = s })

  -- Mkdir, with the values of `uuid.New()` and `time.Now()`.
  unfoldable pub mkdir : Bytes → ℕ → Bytes → Effect World (Unit {0})
  mkdir new_id now name =
      let path = slash_clean name in
      unless (beq path root) exist (do
        ref ← on_db (get_reference D reference_id)
        unless (is_present (lookup path ref.entries)) exist (do
          parent_id ← need not_exist (lookup (filepath_dir path) ref.entries)
          on_db (add_entry D (new_entry new_id parent_id (filepath_base path) dir 0 now) path)))

  unfoldable pub remove_all : Bytes → Effect World (Unit {0})
  remove_all name =
      let path = slash_clean name in
      unless (beq path root) invalid (do
        ref ← on_db (get_reference D reference_id)
        id ← need not_exist (lookup path ref.entries)
        let (kept, ids) = remove_below path ref.entries
        on_db (delete_entries D ids (record ref { entries = kept })))

  -- Rename, with the order in which the runtime gives the keys of a map.
  unfoldable pub rename : (Entries → List Bytes) → Bytes → Bytes → Effect World (Unit {0})
  rename order old_name new_name =
      let old = slash_clean old_name in
      let new = slash_clean new_name in
      unless (beq old root) invalid (
        unless (beq new root) invalid (do
          ref ← on_db (get_reference D reference_id)
          id ← need not_exist (lookup old ref.entries)
          parent_id ← need not_exist (lookup (filepath_dir new) ref.entries)
          entry ← on_db (get_entry D id)
          on_db (
              update_entry_name D (record entry { name = filepath_base new; parent_id = parent_id })
                (record ref { entries = rename_entries order entry.type id old new ref.entries }))))

  unfoldable pub stat : Bytes → Effect World FileInfo
  stat name = do
    ref ← on_db (get_reference D reference_id)
    id ← need not_exist (lookup (slash_clean name) ref.entries)
    entry ← on_db (get_entry D id)
    pure (file_info entry)

  -- The two ways on from the upload in Create: an entry is there, or one is added.
  create_update : Bytes → ℕ → ℕ → Effect World FileInfo
  create_update id size now = do
    entry ← on_db (get_entry D id)
    let changed = record entry { size = size; modify = now }
    on_db (update_entry D changed)
    pure (record { name = entry.name; size = size; mod_time = now; info_is_dir = false })

  create_new : Bytes → Bytes → ℕ → ℕ → Entries → Effect World FileInfo
  create_new path id size now entries = do
    parent_id ← need not_exist (lookup (filepath_dir path) entries)
    on_db (add_entry D (new_entry id parent_id (filepath_base path) file size now) path)
    pure (record { name = filepath_base path; size = size; mod_time = now; info_is_dir = false })

  create_at : Bytes → Bytes → ℕ → Reader → Entries → Option Bytes → Effect World FileInfo
  create_at path new_id now r entries (some id) = do
    on_objects (put_object_large P id (read_sized r).1)
    create_update id (read_sized r).0 now
  create_at path new_id now r entries none = do
    on_objects (put_object_large P new_id (read_sized r).1)
    create_new path new_id (read_sized r).0 now entries

  -- Create, with the values of `uuid.New()` and `time.Now()`.
  unfoldable pub create : Bytes → ℕ → Bytes → Reader → Effect World FileInfo
  unfolding create_at create_update create_new
  create new_id now name r =
      let path = slash_clean name in
      unless (beq path []) invalid (do
        ref ← on_db (get_reference D reference_id)
        create_at path new_id now r ref.entries (lookup path ref.entries))

  -- OpenFile. `copy` is os.CreateTemp and io.Copy into the new file, which may fail.
  open_entry : (Bytes → Result Bytes) → Entry → Bytes → EntryType → Effect World FileReader
  open_entry copy entry id dir = pure (record { temp_file = none; entry = entry })
  open_entry copy entry id file = do
    body ← on_objects (get_object P id)
    content ← λ w. (copy body, w)
    pure (record {
      temp_file = some (record { content = content; offset = length content });
      entry = entry;
    })

  unfoldable pub open_file : (Bytes → Result Bytes) → Bytes → Effect World FileReader
  unfolding open_entry
  open_file copy name =
      let path = slash_clean name in
      unless (beq path []) invalid (do
        ref ← on_db (get_reference D reference_id)
        id ← need not_exist (lookup path ref.entries)
        entry ← on_db (get_entry D id)
        open_entry copy entry id entry.type)
