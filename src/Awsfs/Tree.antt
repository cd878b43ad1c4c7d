-- ===== src/Awsfs/Tree.antt =====
-- The path tables of awsfs: what RemoveAll and Rename do to the entries of the reference.
pub mod Remove
pub mod Rename
pub mod Moves
use mathlib.Core.List.{foldl}
use webdav_serverless.Base.{
  ℕ, Bool, true, false, ◌||◌, Option, none, some, List, [], ◌∷◌, ◌++◌, Bytes, bytes_eq, beq,
  has_prefix, if◌then◌else◌, length, drop,
}
use webdav_serverless.Base.Dict.{Dict, insert, lookup, erase}
use webdav_serverless.Path.{slash}
use webdav_serverless.Awsfs.{Entries, EntryType, is_dir_type}

-- `k == path || strings.HasPrefix(k, path+"/")`
unfoldable pub is_below : Bytes → Bytes → Bool
unfolding has_prefix bytes_eq
is_below path k = beq k path || has_prefix k (path ++ slash ∷ [])

-- The loop of RemoveAll: the entries that stay, and the ids of the others.
unfoldable pub remove_below : Bytes → Entries → Entries × List Bytes
unfolding is_below
remove_below path [] = ([], [])
remove_below path ((k, v) ∷ es) =
    let (kept, ids) = remove_below path es in
    if is_below path k then (kept, v ∷ ids) else ((k, v) ∷ kept, ids)

-- `strings.Replace(k, oldPath, newPath, 1)` where `k` begins with `oldPath`.
abbrev pub replace_prefix : Bytes → Bytes → Bytes → Bytes
replace_prefix old new k = new ++ drop (length old) k

-- A round of the loop of Rename, for a key that the range over the map gives.
unfoldable pub rename_round : Bytes → Bytes → Entries → Bytes → Entries
rename_round old new es k = elim (lookup k es) [
  | none ↦ es
  | some v ↦
      if has_prefix k (old ++ slash ∷ [])
      then insert (replace_prefix old new k) v (erase k es)
      else es
]

-- A range over a map that changes: the keys come in an order that the runtime chooses, a key that
-- has been deleted does not come, and a key that has been added may come or not. `order` lists the
-- keys that the runtime would give.
unfoldable pub rename_children : Bytes → Bytes → List Bytes → Entries → Entries
unfolding rename_round lookup insert erase has_prefix
rename_children old new order es = foldl (rename_round old new) es order

-- The reference entries that Rename writes.
unfoldable pub rename_entries :
    (Entries → List Bytes) → EntryType → Bytes → Bytes → Bytes → Entries → Entries
unfolding rename_children
rename_entries order type id old new es =
    let moved = erase old (insert new id es) in
    if is_dir_type type then rename_children old new (order moved) moved else moved
