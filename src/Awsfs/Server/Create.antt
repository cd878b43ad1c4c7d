-- ===== src/Awsfs/Server/Create.antt =====
-- Server.Create on each of its branches (awsfs/create.go).
pub mod Branches
use webdav_serverless.Base.{
  ℕ, Bool, true, false, Option, none, some, List, [], ◌≡◌, ◌≢◌, ◌⊎◌, inl, inr, refl, sym, ap, ◌∙◌,
  subst, Bytes, bytes_eq, beq, beq_refl, beq→eq, if◌then◌else◌, Option-cases, length,
}
use webdav_serverless.Base.Dict.{lookup, insert}
use webdav_serverless.Errors.{Error, not_exist, service, Result, ok, err, Post}
use webdav_serverless.Path.{root, slash_clean, filepath_dir, filepath_base, IsClean}
use webdav_serverless.Path.Clean.{slash_clean-IsClean, slash_clean-ne-nil}
use webdav_serverless.Awsfs.{Reference, Entry, file}
use webdav_serverless.Awsfs.Dynamo.{Dynamo, Tables, Attributes, apply_all, apply_attributes}
use webdav_serverless.Awsfs.Dynamo
use webdav_serverless.Awsfs.Objects.{Objects, Reader, read_sized}
use webdav_serverless.Awsfs.Objects
use webdav_serverless.Awsfs.Metadata.Effects.{add_writes}
use webdav_serverless.Awsfs.Server.{
  World, FileInfo, create, create_at, create_update, create_new, new_entry,
}
use webdav_serverless.Awsfs.Server.Cases.{need-cases, unless-cases}
use webdav_serverless.Awsfs.Server.Known.{reference-cases, entry-cases, add-cases, update-cases}
use webdav_serverless.Awsfs.Server.Bucket.{upload-cases}
use webdav_serverless.Awsfs.View.{
  view, IsTree, HasTree, IsFresh, put_at, view-listed, view-unlisted,
}
use webdav_serverless.Awsfs.View.Writes.{view-add, add-IsTree, next}
use webdav_serverless.Awsfs.View.Update.{updated_entry, view-update, update-IsTree}

-- The objects with a body under a key.
abbrev pub put_body : Bytes → Bytes → (Bytes → Option Bytes) → Bytes → Option Bytes
put_body key body c j = if beq j key then some body else c j

abbrev pub sized : ℕ → ℕ → Entry → Attributes
sized size now x = record { size = size; modify = now; dead_props = x.dead_props }

module _ (D : Dynamo) (P : Objects) where
  -- The path had an entry: its size and its time have changed, and its object is the body.
  pub record Updates (path : Bytes) (now : ℕ) (body : Bytes) (w : World D P) (info : FileInfo)
      (v : World D P) : Type 0 where
    pub old : Entry
    pub found : view (D.tables w.db) path ≡ some old
    pub changes :
        (k : Bytes)
        → view (D.tables v.db) k
          ≡ put_at path (updated_entry (sized (length body) now old) old) (view (D.tables w.db)) k
    pub stores : P.contents v.objects ≡ put_body old.id body (P.contents w.objects)
    pub informs :
        info ≡ record { name = old.name; size = length body; mod_time = now; info_is_dir = false }

  -- The path had no entry: there is one for the body, in the directory that the path names.
  pub record Adds (new_id path : Bytes) (now : ℕ) (body : Bytes) (w : World D P) (info : FileInfo)
      (v : World D P) : Type 0 where
    pub parent : Entry
    pub not_found : view (D.tables w.db) path ≡ none
    pub in_parent : view (D.tables w.db) (filepath_dir path) ≡ some parent
    pub changes :
        (k : Bytes)
        → view (D.tables v.db) k
          ≡ put_at path
              (new_entry new_id parent.id (filepath_base path) file (length body) now)
              (view (D.tables w.db))
              k
    pub stores : P.contents v.objects ≡ put_body new_id body (P.contents w.objects)
    pub informs : info ≡ record {
      name = filepath_base path;
      size = length body;
      mod_time = now;
      info_is_dir = false;
    }

  -- Why Create fails, and what it has done to the objects before that.
  pub data CreateFails (new_id path body : Bytes) (T : Tables) (before after : Bytes → Option Bytes)
      : Error → Type 0 where
    no_parent :
        view T path ≡ none
        → view T (filepath_dir path) ≡ none
        → after ≡ put_body new_id body before
        → CreateFails new_id path body T before after not_exist
    not_stored : after ≡ before → CreateFails new_id path body T before after service
    stored_new :
        view T path ≡ none
        → after ≡ put_body new_id body before
        → CreateFails new_id path body T before after service
    stored_over :
        (x : Entry)
        → view T path ≡ some x
        → after ≡ put_body x.id body before
        → CreateFails new_id path body T before after service

  -- The outcome of Create on a tree.
  pub CreatePost : Bytes → Bytes → ℕ → Bytes → World D P → Result FileInfo → World D P → Type 0
  CreatePost new_id path now body w (ok info) v =
      (Updates path now body w info v ⊎ Adds new_id path now body w info v)
      × HasTree (D.tables v.db)
  CreatePost new_id path now body w (err e) v =
      CreateFails new_id path body (D.tables w.db) (P.contents w.objects) (P.contents v.objects) e
      × (D.tables v.db ≡ D.tables w.db)
