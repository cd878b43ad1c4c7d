-- ===== src/Awsfs/Server/Rename.antt =====
-- Server.Rename on each of its branches (awsfs/rename.go).
use webdav_serverless.Base.{
  true, false, Option, none, some, List, contains, ◌≡◌, ◌≢◌, refl, sym, ap, ◌∙◌, Bytes, bytes_eq,
  beq, beq_refl, beq→eq, arith,
}
use webdav_serverless.Base.Dict.{lookup}
use webdav_serverless.Errors.{Error, invalid, not_exist, service, Result, ok, err, Post}
use webdav_serverless.Path.{root, slash_clean, filepath_dir, filepath_base}
use webdav_serverless.Awsfs.{Entries, Reference, Entry, EntryType, file, dir}
use webdav_serverless.Awsfs.Dynamo.{Dynamo, Tables, apply_all}
use webdav_serverless.Awsfs.Dynamo
use webdav_serverless.Awsfs.Objects.{Objects}
use webdav_serverless.Awsfs.Tree.{is_below, rename_entries}
use webdav_serverless.Awsfs.Tree.Rename.{is_under, is_below_lem}
use webdav_serverless.Awsfs.Server.{World, rename}
use webdav_serverless.Awsfs.Server.Cases.{need-cases, unless-cases}
use webdav_serverless.Awsfs.Server.Known.{reference-cases, entry-cases, name-last}
use webdav_serverless.Awsfs.View.{view, IsTree, view-listed, view-unlisted}
use webdav_serverless.Awsfs.View.Rename.{
  named_entry, move_file, move_dir, renamed, view-move_file, view-move_dir,
}

-- Why Rename fails.
pub data RenameFails (T : Tables) (old new : Bytes) : Error → Type 0 where
  from_root : old ≡ root → RenameFails T old new invalid
  to_root : new ≡ root → RenameFails T old new invalid
  absent : view T old ≡ none → RenameFails T old new not_exist
  no_parent : view T (filepath_dir new) ≡ none → RenameFails T old new not_exist
  by_service : RenameFails T old new service

-- How the entry at the old path and all that is below it go to the new path.
abbrev pub move_of :
    EntryType → Bytes → Bytes → Entry → (Bytes → Option Entry) → Bytes → Option Entry
move_of file = move_file
move_of dir = move_dir

-- A range over a map gives each of its keys that is below `old`, whatever is added on the way.
abbrev pub Ranges : Bytes → (Entries → List Bytes) → Type 0
Ranges old order =
    (es : Entries) (k : Bytes)
    → is_under old k ≡ true
    → lookup k es ≢ none
    → contains (order es) k ≡ true

module _ (D : Dynamo) (L : Dynamo.IsLawful D) (P : Objects) where
  -- The outcome of Rename on a tree.
  pub RenamePost : Bytes → Bytes → World D P → Result (Unit {0}) → World D P → Type 0
  RenamePost old new w (ok u) v =
      (x : Entry) × (parent : Entry) × (old ≢ root)
      × (new ≢ root)
      × (view (D.tables w.db) old ≡ some x)
      × (view (D.tables w.db) (filepath_dir new) ≡ some parent)
      × ((k : Bytes)
          → view (D.tables v.db) k
            ≡ move_of x.type old new (named_entry (filepath_base new) parent.id x)
                (view (D.tables w.db)) k)
      × (v.objects ≡ w.objects)
  RenamePost old new w (err e) v =
      RenameFails (D.tables w.db) old new e
      × (D.tables v.db ≡ D.tables w.db)
      × (v.objects ≡ w.objects)

  view-move :
      {T : Tables} {ref : Reference} (tree : IsTree T ref) (x : Entry) (type : EntryType)
      (name parent_id old new : Bytes) (order : Entries → List Bytes)
      → T.entries x.id ≡ some x
      → lookup old ref.entries ≡ some x.id
      → is_below old new ≡ false
      → is_below new old ≡ false
      → Ranges old order
      → (k : Bytes)
      → view (renamed tree x name parent_id (rename_entries order type x.id old new ref.entries)) k
        ≡ move_of type old new (named_entry name parent_id x) (view T) k
  view-move tree x file name parent_id old new order at listed apart apart' ranges k =
      view-move_file tree x name parent_id old new at listed order k (λ e.
        let both : is_below old new ≡ true =
          is_below_lem old new ∙ ground (arith, e, beq_refl old) in
        cc)
  view-move {T} {ref} tree x dir name parent_id old new order at listed apart apart' ranges k =
      view-move_dir tree x name parent_id old new at listed order k apart apart' (ranges _)

  moved_to :
      (x : Entry) (id parent_id old new : Bytes) (order : Entries → List Bytes) (w : World D P)
      (t : D.State) (ref : Reference) (tree : IsTree (D.tables w.db) ref)
      → is_below old new ≡ false
      → is_below new old ≡ false
      → Ranges old order
      → old ≢ root
      → new ≢ root
      → lookup old ref.entries ≡ some id
      → lookup (filepath_dir new) ref.entries ≡ some parent_id
      → (D.tables w.db).entries id ≡ some x
      → x.id ≡ id
      → view (D.tables w.db) old ≡ some x
      → D.tables t
        ≡ renamed tree x
            (filepath_base new)
            parent_id
            (rename_entries order x.type id old new ref.entries)
      → RenamePost old new w (ok tt) (record w { db = t })
  unfolding RenamePost
  moved_to x id parent_id old new order w t ref tree apart apart' ranges ne ne' listed parent_listed
        stored is at after =
      let T : Tables = D.tables w.db in
      let (parent, _, parent_at, parent_is) =
        view-listed T ref tree (filepath_dir new) parent_id parent_listed in
      (
        x,
        parent,
        ne,
        ne',
        at,
        parent_at,
        (λ k.
            ap (λ T. view T k) after
            ∙ ap
                (λ i.
                  view
                    (renamed tree x (filepath_base new) parent_id
                      (rename_entries order x.type i old new ref.entries))
                    k)
                (sym is)
            ∙ view-move tree x x.type (filepath_base new) parent_id old new order
                (ap T.entries is ∙ stored) (listed ∙ ap some (sym is)) apart apart' ranges k
            ∙ ap (λ i. move_of x.type old new (named_entry (filepath_base new) i x) (view T) k)
                (sym parent_is)),
        refl,
      )

  -- Rename, on tables that are a tree, where neither path is the other or below it, and a range over
  -- a map gives each of its keys below the old path. It fails where either path is the root, where the
  -- tree does not have the old path or the directory of the new one, and where the service fails; then
  -- the tables and the objects are as they were. Otherwise the entry of the old path, with its new name
  -- and the id of its new parent, is at the new path, for a directory all that was below the old path
  -- is below the new one, and no other path has changed; the objects stay.
  pub rename-Post :
      (order : Entries → List Bytes) (old_name new_name : Bytes) (w : World D P) (ref : Reference)
      → IsTree (D.tables w.db) ref
      → is_below (slash_clean old_name) (slash_clean new_name) ≡ false
      → is_below (slash_clean new_name) (slash_clean old_name) ≡ false
      → Ranges (slash_clean old_name) order
      → Post
          (RenamePost (slash_clean old_name) (slash_clean new_name) w)
          (rename D P order old_name new_name w)
  unfolding rename RenamePost
  rename-Post order old_name new_name w ref tree apart apart' ranges =
      let old : Bytes = slash_clean old_name in
      let new : Bytes = slash_clean new_name in
      let T : Tables = D.tables w.db in
      let Q : Result (Unit {0}) → World D P → Type 0 = RenamePost old new w in
      unless-cases Q (beq old root) _ _ w (λ p. (from_root (beq→eq old root p), refl, refl))
        (λ p.
          unless-cases Q (beq new root) _ _ w (λ q. (to_root (beq→eq new root q), refl, refl))
            (λ q.
              reference-cases L Q w T refl ref _ tree (λ s h. (by_service, h, refl))
                (λ s h.
                  need-cases Q _ (lookup old ref.entries) _ _
                    (λ r. (absent (view-unlisted T ref tree old r), h, refl))
                    (λ id r.
                      need-cases Q _ (lookup (filepath_dir new) ref.entries) _ _
                        (λ r. (no_parent (view-unlisted T ref tree (filepath_dir new) r), h, refl))
                        (λ parent_id r'.
                          let (x, stored, at, is) = view-listed T ref tree old id r in
                          entry-cases L Q _ T h id x _ stored (λ t k. (by_service, k, refl))
                            (λ t k.
                              name-last L Q _ T k
                                (record x { name = filepath_base new; parent_id = parent_id })
                                (record ref {
                                  entries = rename_entries order x.type id old new ref.entries;
                                })
                                (λ u m. (by_service, m, refl))
                                (λ u m.
                                  moved_to x id parent_id old new order w u ref tree apart apart'
                                    ranges (λ e. cc (beq_refl old)) (λ e. cc (beq_refl new)) r r'
                                    stored is at m)))))))
