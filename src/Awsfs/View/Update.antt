-- ===== src/Awsfs/View/Update.antt =====
-- What UpdateEntry does to the tree.
use webdav_serverless.Base.{
  ◌+◌, some, ◌≡◌, sym, ◌∙◌, Bytes, bytes_eq, beq, beq→eq, arith, Option-cases, Bool-cases, inl, inr,
}
use webdav_serverless.Base.Dict.{lookup}
use webdav_serverless.Awsfs.{Reference, Entry}
use webdav_serverless.Awsfs.Dynamo.{Tables, Attributes, apply_attributes}
use webdav_serverless.Awsfs.View.{view, IsTree, put_at}
use webdav_serverless.Awsfs.View.Writes.{view-stored}

-- The entry with the new attributes, as it is stored.
abbrev pub updated_entry : Attributes → Entry → Entry
updated_entry a e = record e {
  size = a.size;
  modify = a.modify;
  dead_props = a.dead_props;
  version = e.version + 1;
}

module _ {T : Tables} {ref : Reference} (tree : IsTree T ref) (x : Entry) (a : Attributes)
    (path : Bytes) (stored : T.entries x.id ≡ some x)
    (listed : lookup path ref.entries ≡ some x.id) where
  pub view-update :
      (k : Bytes) → view (apply_attributes x.id a T) k ≡ put_at path (updated_entry a x) (view T) k
  unfolding apply_attributes
  view-update k =
      view-stored (apply_attributes x.id a T) ref k tree.stored
      ∙ elim (Option-cases (lookup k ref.entries)) [
        | inl p ↦ ground (arith, p, view-stored T ref k tree.stored, listed)
        | inr (id, p) ↦
            ground
              (arith, p, view-stored T ref k tree.stored, tree.distinct k path x.id, listed, stored)
      ]

  pub update-IsTree : IsTree (apply_attributes x.id a T) ref
  unfolding apply_attributes
  update-IsTree = record {
    stored = tree.stored;
    named = tree.named;
    nodup = tree.nodup;
    has_root = tree.has_root;
    clean = tree.clean;
    has_parent = tree.has_parent;
    has_entry = λ k id h. elim (Bool-cases (beq id x.id)) [
      | inl p ↦ (updated_entry a x, ground (arith, p, stored), sym (beq→eq id x.id p))
      | inr p ↦ let (e, q, r) = tree.has_entry k id h in (e, ground (arith, p, q), r)
    ];
    distinct = tree.distinct;
  }
