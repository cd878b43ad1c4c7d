-- ===== src/Awsfs/Tree/Remove.antt =====
-- The entries that RemoveAll deletes from the reference (awsfs/remove.go).
use webdav_serverless.Base.{
  true, ◌&&◌, none, some, [], ◌∷◌, ◌≡◌, Bytes, bytes_eq, beq, if◌then◌else◌, arith, contains,
  beq_refl, Bool-cases, inl, inr,
}
use webdav_serverless.Base.Dict.{lookup, NodupKeys, lookup-cons}
use webdav_serverless.Awsfs.{Entries}
use webdav_serverless.Awsfs.Tree.{is_below, remove_below}

module _ (path : Bytes) where
  -- The path and what is below it are gone, and every other path is as it was.
  pub lookup-remove_below :
      (k : Bytes) (es : Entries)
      → lookup k (remove_below path es).0 ≡ (if is_below path k then none else lookup k es)
  unfolding remove_below lookup
  lookup-remove_below k [] = ground arith
  lookup-remove_below k ((j, v) ∷ es) = ground (arith, lookup-remove_below k es)

  -- The id of an entry that is taken off is among the ids to delete.
  pub contains-remove_below :
      (k v : Bytes) (es : Entries)
      → is_below path k ≡ true
      → lookup k es ≡ some v
      → contains (remove_below path es).1 v ≡ true
  unfolding remove_below lookup contains
  contains-remove_below k v [] h e = cc
  contains-remove_below k v ((j, w) ∷ es) h e = ground (arith, contains-remove_below k v es h)

  -- An id among them is that of an entry that is taken off.
  pub remove_below-contains :
      (v : Bytes) (es : Entries)
      → NodupKeys es
      → contains (remove_below path es).1 v ≡ true
      → (k : Bytes) × (is_below path k ≡ true) × (lookup k es ≡ some v)
  unfolding remove_below contains
  remove_below-contains v [] u h = cc
  remove_below-contains v ((j, w) ∷ es) (fresh, u) h =
      elim (Bool-cases (is_below path j && beq v w)) [
        | inl p ↦ (j, ground arith, rw lookup-cons (ground (arith, beq_refl j)))
        | inr p ↦
            let (k, below, found) = remove_below-contains v es u (ground arith) in
            (k, below, rw lookup-cons (ground arith))
      ]

  pub remove_below-NodupKeys : (es : Entries) → NodupKeys es → NodupKeys (remove_below path es).0
  unfolding remove_below
  remove_below-NodupKeys [] u = u
  remove_below-NodupKeys ((j, v) ∷ es) (fresh, u) =
      ground (arith, remove_below-NodupKeys es u, lookup-remove_below j es)
