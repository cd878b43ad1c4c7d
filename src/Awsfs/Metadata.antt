-- ===== src/Awsfs/Metadata.antt =====
-- awsfs/metadata.go: MetadataStore over a DynamoDB client.
pub mod Versions
pub mod Effects
use webdav_serverless.Base.{
  ℕ, ◌+◌, Bool, true, false, Option, none, some, List, [], ◌∷◌, ◌++◌, ◌≡◌, refl, Bytes, codes,
  bytes_eq, map,
}
use webdav_serverless.Base.Dict.{Dict, insert, lookup}
use webdav_serverless.Errors.{
  Error, no_such_reference, no_such_entry, service, Result, ok, err, Effect, pure, fail, need,
  ◌>>=◌, ◌>>◌,
}
use webdav_serverless.Path.{root}
use webdav_serverless.Awsfs.{Entries, Reference, Entry, dir, reference_id}
use webdav_serverless.Awsfs.Dynamo.{
  Dynamo, Write, put_entry, put_reference, set_entries, set_name, delete_entry, Attributes,
}

-- The root entry, and the reference that lists it alone.
unfoldable pub root_entry : Bytes → ℕ → Entry
root_entry entry_id now = record {
  id = entry_id;
  parent_id = codes "root";
  name = codes "/";
  type = dir;
  size = 0;
  modify = now;
  dead_props = [];
  version = 1;
}

unfoldable pub root_reference : Bytes → Reference
root_reference entry_id = record { id = reference_id; entries = (root, entry_id) ∷ []; version = 1 }

module _ (D : Dynamo) where
  unfoldable pub get_reference : Bytes → Effect D.State Reference
  get_reference id = do item ← D.get_reference_item id; need no_such_reference item

  unfoldable pub get_entry : Bytes → Effect D.State Entry
  get_entry id = do item ← D.get_entry_item id; need no_such_entry item

  unfoldable pub get_entries_by_parent_id : Bytes → Effect D.State (List Entry)
  get_entries_by_parent_id id = D.query_parent id

  unfoldable pub add_reference : Reference → Effect D.State (Unit {0})
  add_reference ref = D.put_reference_item ref

  unfoldable pub after_lookup : Bytes → ℕ → Result Reference → Effect D.State (Unit {0})
  unfolding root_entry root_reference
  after_lookup entry_id now (ok ref) = pure tt
  after_lookup entry_id now (err no_such_reference) =
      D.transact
        (put_entry (root_entry entry_id now) ∷ put_reference (root_reference entry_id) ∷ [])
  after_lookup entry_id now (err e) = fail e

  -- `Init`, with the values of `uuid.New()` and `time.Now()`.
  unfoldable pub init : Bytes → ℕ → Effect D.State (Unit {0})
  unfolding after_lookup get_reference
  init entry_id now s = let (r, t) = get_reference reference_id s in after_lookup entry_id now r t

  unfoldable pub add_entry : Entry → Bytes → Effect D.State (Unit {0})
  unfolding get_reference
  add_entry entry path = do
    ref ← get_reference reference_id
    D.transact
        (put_entry entry ∷ set_entries ref.id ref.version (insert path entry.id ref.entries) ∷ [])

  unfoldable pub update_entry : Entry → Effect D.State (Unit {0})
  update_entry entry =
      D.update_entry_item entry.id entry.version
        (record { size = entry.size; modify = entry.modify; dead_props = entry.dead_props })

  unfoldable pub update_entry_name : Entry → Reference → Effect D.State (Unit {0})
  update_entry_name entry ref = D.transact (
      set_name entry.id entry.version entry.name entry.parent_id
      ∷ set_entries ref.id ref.version ref.entries
      ∷ [])

  unfoldable pub delete_entries : List Bytes → Reference → Effect D.State (Unit {0})
  delete_entries ids ref =
      D.transact (map delete_entry ids ++ set_entries ref.id ref.version ref.entries ∷ [])
