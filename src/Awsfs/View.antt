-- ===== src/Awsfs/View.antt =====
-- What the tables of awsfs mean: a tree of entries by their paths. The specification that the
-- methods of Server are measured by.
pub mod Writes
pub mod Delete
pub mod Init
pub mod Update
pub mod Rename
use webdav_serverless.Base.{
  ℕ, ◌+◌, Bool, true, false, Option, none, some, List, [], ◌∷◌, ◌≡◌, ◌≢◌, refl, ap, ◌∙◌, Bytes,
  bytes_eq, beq, map, if◌then◌else◌,
}
use webdav_serverless.Base.Dict.{lookup, NodupKeys}
use webdav_serverless.Path.{root, filepath_dir, IsClean}
use webdav_serverless.Awsfs.{Entries, Reference, Entry, reference_id}
use webdav_serverless.Awsfs.Dynamo.{Tables}
use webdav_serverless.Awsfs.Tree.{is_below}

abbrev pub entry_of : (Bytes → Option Entry) → Option Bytes → Option Entry
entry_of entries none = none
entry_of entries (some id) = entries id

abbrev pub path_in : (Bytes → Option Entry) → Bytes → Option Reference → Option Entry
path_in entries path none = none
path_in entries path (some ref) = entry_of entries (lookup path ref.entries)

-- The entry at a path.
unfoldable pub view : Tables → Bytes → Option Entry
view T path = path_in T.entries path (T.references reference_id)

-- The reference lists the root, clean paths alone, and with each path its parent. Each path has an
-- entry of its own.
pub record IsTree (T : Tables) (ref : Reference) : Type 0 where
  pub stored : T.references reference_id ≡ some ref
  pub named : ref.id ≡ reference_id
  pub nodup : NodupKeys ref.entries
  pub has_root : lookup root ref.entries ≢ none
  pub clean : (k : Bytes) → lookup k ref.entries ≢ none → IsClean k
  pub has_parent :
      (k : Bytes)
      → lookup k ref.entries ≢ none
      → k ≢ root
      → lookup (filepath_dir k) ref.entries ≢ none
  pub has_entry :
      (k id : Bytes)
      → lookup k ref.entries ≡ some id
      → (e : Entry) × (T.entries id ≡ some e) × (e.id ≡ id)
  pub distinct :
      (j k id : Bytes) → lookup j ref.entries ≡ some id → lookup k ref.entries ≡ some id → j ≡ k

-- An id that no entry has and no path is listed with, as `uuid.New` gives one.
abbrev pub IsFresh : Bytes → Tables → Reference → Type 0
IsFresh id T ref = (T.entries id ≡ none) × ((k : Bytes) → lookup k ref.entries ≢ some id)

-- An entry is put at a path.
abbrev pub put_at : Bytes → Entry → (Bytes → Option Entry) → Bytes → Option Entry
put_at path e v k = if beq k path then some e else v k

-- A path and what is below it are taken away.
abbrev pub cut_at : Bytes → (Bytes → Option Entry) → Bytes → Option Entry
cut_at path v k = if is_below path k then none else v k

-- An entry that is to be gone, if `b` is true, is not in the table.
abbrev pub IsGone : Bool → Option Entry → Tables → Type 0
IsGone false o T = Unit
IsGone true none T = Unit
IsGone true (some e) T = T.entries e.id ≡ none

abbrev pub HasTree : Tables → Type 0
HasTree T = (ref : Reference) × IsTree T ref

-- What the reference lists is what the tree has.
pub view-listed :
    (T : Tables) (ref : Reference)
    → IsTree T ref
    → (k id : Bytes) → lookup k ref.entries ≡ some id
    → (e : Entry) × (T.entries id ≡ some e) × (view T k ≡ some e) × (e.id ≡ id)
unfolding view
view-listed T ref tree k id h =
    let (e, p, q) = tree.has_entry k id h in
    (e, p, ap (path_in T.entries k) tree.stored ∙ ap (entry_of T.entries) h ∙ p, q)

pub view-unlisted :
    (T : Tables) (ref : Reference)
    → IsTree T ref
    → (k : Bytes) → lookup k ref.entries ≡ none
    → view T k ≡ none
unfolding view
view-unlisted T ref tree k h = ap (path_in T.entries k) tree.stored ∙ ap (entry_of T.entries) h
