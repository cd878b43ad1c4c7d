-- ===== src/Awsfs/View/Writes.antt =====
-- What the transactions of the metadata store do to the tree.
use webdav_serverless.Base.{
  ◌+◌, true, none, some, ◌≡◌, ◌≢◌, sym, ap, ◌∙◌, Bytes, bytes_eq, beq, beq_refl, beq→eq, arith,
  Option-cases, Bool-cases, inl, inr,
}
use webdav_serverless.Base.Dict.{insert, lookup, lookup-insert, insert-NodupKeys}
use webdav_serverless.Path.{root, filepath_dir, IsClean}
use webdav_serverless.Awsfs.{Entries, Reference, Entry, reference_id}
use webdav_serverless.Awsfs.Dynamo.{Tables, set_entries, apply_write, apply_all, with_entries}
use webdav_serverless.Awsfs.Metadata.Effects.{add_writes}
use webdav_serverless.Awsfs.View.{view, IsTree, IsFresh, put_at, entry_of, path_in}

-- The reference after a write of its entries.
abbrev pub next : Reference → Entries → Reference
next ref es = record ref { entries = es; version = ref.version + 1 }

pub view-stored :
    (T : Tables) (r : Reference) (k : Bytes)
    → T.references reference_id ≡ some r
    → view T k ≡ entry_of T.entries (lookup k r.entries)
unfolding view
view-stored T r k e = ap (path_in T.entries k) e

module _ {T : Tables} {ref : Reference} (tree : IsTree T ref) where
  pub set_entries-stored :
      (es : Entries)
      → (apply_write (set_entries ref.id ref.version es) T).references reference_id
        ≡ some (next ref es)
  unfolding apply_write
  set_entries-stored es =
      let at : beq reference_id ref.id ≡ true =
        ap (beq reference_id) tree.named ∙ beq_refl reference_id in
      let old : with_entries es (T.references ref.id) ≡ some (next ref es) =
        ap (λ i. with_entries es (T.references i)) tree.named ∙ ap (with_entries es) tree.stored in
      ground (arith, at, old)

  add-stored :
      (x : Entry) (path : Bytes)
      → (apply_all (add_writes x path ref) T).references reference_id
        ≡ some (next ref (insert path x.id ref.entries))
  unfolding apply_all apply_write
  add-stored x path = set_entries-stored (insert path x.id ref.entries)

  pub view-add :
      (x : Entry) (path k : Bytes)
      → IsFresh x.id T ref
      → view (apply_all (add_writes x path ref) T) k ≡ put_at path x (view T) k
  unfolding apply_all apply_write
  view-add x path k (unused, unlisted) =
      view-stored (apply_all (add_writes x path ref) T) (next ref (insert path x.id ref.entries)) k
        (add-stored x path)
      ∙ ground (
        arith,
        lookup-insert k path x.id ref.entries,
        view-stored T ref k tree.stored,
        unlisted k,
        beq_refl x.id,
        Option-cases (lookup k ref.entries),
      )

  pub add-IsTree :
      (x : Entry) (path : Bytes)
      → IsFresh x.id T ref
      → IsClean path
      → path ≢ root
      → lookup (filepath_dir path) ref.entries ≢ none
      → IsTree (apply_all (add_writes x path ref) T) (next ref (insert path x.id ref.entries))
  unfolding apply_all apply_write
  add-IsTree x path (unused, unlisted) is_clean ne parent = record {
    stored = add-stored x path;
    named = tree.named;
    nodup = insert-NodupKeys path x.id ref.entries tree.nodup;
    has_root = ground (arith, lookup-insert root path x.id ref.entries, tree.has_root);
    clean = λ k h. ground (arith, lookup-insert k path x.id ref.entries, tree.clean k);
    has_parent = λ k h ne. ground (
      arith,
      lookup-insert k path x.id ref.entries,
      lookup-insert (filepath_dir k) path x.id ref.entries,
      tree.has_parent k,
    );
    has_entry = λ k id h. elim (Bool-cases (beq id x.id)) [
      | inl p ↦ (x, ground (arith, p), sym (beq→eq id x.id p))
      | inr p ↦
          let (e, q, r) =
            tree.has_entry k id
              (ground (arith, lookup-insert k path x.id ref.entries, beq_refl x.id)) in
          (e, ground (arith, p, q), r)
    ];
    distinct = λ j k id h h'. ground (
      arith,
      lookup-insert k path x.id ref.entries,
      lookup-insert j path x.id ref.entries,
      tree.distinct j k id,
      unlisted j,
      unlisted k,
    );
  }
