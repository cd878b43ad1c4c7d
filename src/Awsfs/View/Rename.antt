-- ===== src/Awsfs/View/Rename.antt =====
-- What the transaction of UpdateEntryName does to the tree, with the entries that Rename gives it.
use mathlib.Core.Option.{or_else}
use webdav_serverless.Base.{
  ◌+◌, false, Option, none, some, List, ◌≡◌, ◌≢◌, sym, ap, ◌∙◌, Bytes, bytes_eq, beq, beq_refl,
  if◌then◌else◌, arith, Option-cases, Bool-cases, inl, inr,
}
use webdav_serverless.Base.Dict.{lookup}
use webdav_serverless.Awsfs.{Entries, Reference, Entry, file, dir, reference_id}
use webdav_serverless.Awsfs.Dynamo.{Tables, apply_write, apply_all}
use webdav_serverless.Awsfs.Metadata.Effects.{name_writes}
use webdav_serverless.Awsfs.Tree.{is_below, rename_entries, replace_prefix}
use webdav_serverless.Awsfs.Tree.Rename.{
  is_under, is_below_lem, under, under-of-is_under, is_under-under, replace_prefix-under,
}
use webdav_serverless.Awsfs.Tree.Moves.{
  is_under-ne, Covers, moved, rename_entries-file, rename_entries-dir,
}
use webdav_serverless.Awsfs.View.{view, IsTree, entry_of, view-listed, view-unlisted}
use webdav_serverless.Awsfs.View.Writes.{view-stored, next, set_entries-stored}

-- The entry of Rename, as it is stored.
abbrev pub named_entry : Bytes → Bytes → Entry → Entry
named_entry name parent_id e = record e {
  name = name;
  parent_id = parent_id;
  version = e.version + 1;
}

-- A file's entry goes from one path to another.
abbrev pub move_file : Bytes → Bytes → Entry → (Bytes → Option Entry) → Bytes → Option Entry
move_file old new e v k = if beq k new then some e else if beq k old then none else v k

-- A directory's entry goes from one path to another, and with it all that is below.
abbrev pub move_dir : Bytes → Bytes → Entry → (Bytes → Option Entry) → Bytes → Option Entry
move_dir old new e v k =
    if beq k new
    then some e
    else if is_below old k
    then none
    else if is_under new k
    then or_else (v (replace_prefix new old k)) (v k)
    else v k

module _ {T : Tables} {ref : Reference} (tree : IsTree T ref) (x : Entry) (name parent_id : Bytes)
    (es : Entries) where
  abbrev pub renamed : Tables
  renamed =
      apply_all
        (name_writes (record x { name = name; parent_id = parent_id })
          (record ref { entries = es }))
        T

  renamed-stored : renamed.references reference_id ≡ some (next ref es)
  unfolding apply_all apply_write
  renamed-stored = set_entries-stored tree es

  view-renamed :
      (k : Bytes)
      → T.entries x.id ≡ some x
      → view renamed k
        ≡ entry_of
            (λ j. if beq j x.id then some (named_entry name parent_id x) else T.entries j)
            (lookup k es)
  unfolding apply_all apply_write
  view-renamed k stored =
      view-stored renamed (next ref es) k renamed-stored
      ∙ ground (arith, stored, Option-cases (lookup k es))

module _ {T : Tables} {ref : Reference} (tree : IsTree T ref) (x : Entry)
    (name parent_id old new : Bytes) (at : T.entries x.id ≡ some x)
    (listed : lookup old ref.entries ≡ some x.id) where
  -- The entries as the transaction leaves them.
  after : Bytes → Option Entry
  after j = if beq j x.id then some (named_entry name parent_id x) else T.entries j

  -- A path that is not `old` has an entry other than the one that is renamed.
  other : (k : Bytes) → k ≢ old → entry_of after (lookup k ref.entries) ≡ view T k
  unfolding after
  other k ne = elim (Option-cases (lookup k ref.entries)) [
    | inl p ↦ ground (arith, p, view-stored T ref k tree.stored)
    | inr (id, p) ↦
        ground (arith, p, view-stored T ref k tree.stored, tree.distinct k old x.id, listed)
  ]

  other_or_else :
      (j k : Bytes)
      → j ≢ old
      → k ≢ old
      → entry_of after (or_else (lookup j ref.entries) (lookup k ref.entries))
        ≡ or_else (view T j) (view T k)
  unfolding or_else
  other_or_else j k ne ne' = elim (Option-cases (lookup j ref.entries)) [
    | inl p ↦ ground (arith, p, other k ne', view-unlisted T ref tree j p)
    | inr (id, p) ↦
        let (e, _, q, _) = view-listed T ref tree j id p in ground (arith, p, q, other j ne)
  ]

  pub view-move_file :
      (order : Entries → List Bytes) (k : Bytes)
      → old ≢ new
      → view (renamed tree x name parent_id (rename_entries order file x.id old new ref.entries)) k
        ≡ move_file old new (named_entry name parent_id x) (view T) k
  unfolding after
  view-move_file order k ne =
      view-renamed tree x name parent_id _ k at
      ∙ ap (entry_of after) (rename_entries-file order x.id old new k ref.entries)
      ∙ ground (arith, other k, ne, beq_refl x.id)

  pub view-move_dir :
      (order : Entries → List Bytes) (k : Bytes)
      → is_below old new ≡ false
      → is_below new old ≡ false
      → Covers old (moved x.id old new ref.entries) (order (moved x.id old new ref.entries))
      → view (renamed tree x name parent_id (rename_entries order dir x.id old new ref.entries)) k
        ≡ move_dir old new (named_entry name parent_id x) (view T) k
  unfolding after or_else
  view-move_dir order k apart apart' covers =
      view-renamed tree x name parent_id _ k at
      ∙ ap (entry_of after)
          (rename_entries-dir order x.id old new k ref.entries apart apart' covers)
      ∙ elim (Bool-cases (is_under new k)) [
        | inl p ↦
            let (y, e) = under-of-is_under new k p in
            let away : replace_prefix new old k ≢ old = λ q.
              is_under-ne old (under old y) (is_under-under old y)
                (sym (replace_prefix-under new old y) ∙ ap (replace_prefix new old) (sym e) ∙ q) in
            ground (
              arith,
              p,
              other_or_else (replace_prefix new old k) k away,
              beq_refl x.id,
              is_below_lem old k,
            )
        | inr p ↦ ground (arith, p, other k, beq_refl x.id, is_below_lem old k)
      ]
