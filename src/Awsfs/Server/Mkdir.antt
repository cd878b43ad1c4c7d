-- ===== src/Awsfs/Server/Mkdir.antt =====
-- Server.Mkdir on each of its branches (awsfs/mkdir.go).
use webdav_serverless.Base.{
  ℕ, true, none, some, ◌≡◌, ◌≢◌, refl, sym, ap, ◌∙◌, subst, Bytes, bytes_eq, beq, beq_refl, beq→eq,
}
use webdav_serverless.Base.Dict.{lookup, insert}
use webdav_serverless.Errors.{Error, exist, not_exist, service, Result, ok, err, Post}
use webdav_serverless.Path.{root, slash_clean, filepath_dir, filepath_base, IsClean}
use webdav_serverless.Path.Clean.{slash_clean-IsClean}
use webdav_serverless.Awsfs.{Reference, Entry, dir}
use webdav_serverless.Awsfs.Dynamo.{Dynamo, Tables, apply_all}
use webdav_serverless.Awsfs.Dynamo
use webdav_serverless.Awsfs.Objects.{Objects}
use webdav_serverless.Awsfs.Metadata.Effects.{add_writes}
use webdav_serverless.Awsfs.Server.{World, mkdir, new_entry, is_present}
use webdav_serverless.Awsfs.Server.Cases.{need-cases, unless-cases}
use webdav_serverless.Awsfs.Server.Known.{
  reference-cases, add-last, is_present-none, is_present-some,
}
use webdav_serverless.Awsfs.View.{
  view, IsTree, IsFresh, HasTree, put_at, view-listed, view-unlisted,
}
use webdav_serverless.Awsfs.View.Writes.{view-add, add-IsTree, next}

-- Why Mkdir fails.
pub data MkdirFails (T : Tables) (path : Bytes) : Error → Type 0 where
  at_root : path ≡ root → MkdirFails T path exist
  present : view T path ≢ none → MkdirFails T path exist
  no_parent : view T (filepath_dir path) ≡ none → MkdirFails T path not_exist
  by_service : MkdirFails T path service

present-view :
    (T : Tables) (ref : Reference)
    → IsTree T ref
    → (path : Bytes) → is_present (lookup path ref.entries) ≡ true
    → view T path ≢ none
present-view T ref tree path q e =
    let (i, p) = is_present-some (lookup path ref.entries) q in
    let (x, _, at, _) = view-listed T ref tree path i p in
    let bad : none ≡ some x = sym e ∙ at in cc

module _ (D : Dynamo) (L : Dynamo.IsLawful D) (P : Objects) where
  -- The outcome of Mkdir on a tree.
  pub MkdirPost : Bytes → ℕ → Bytes → World D P → Result (Unit {0}) → World D P → Type 0
  MkdirPost new_id now path w (ok u) v =
      (parent : Entry) × (path ≢ root)
      × (view (D.tables w.db) path ≡ none)
      × (view (D.tables w.db) (filepath_dir path) ≡ some parent)
      × ((k : Bytes)
          → view (D.tables v.db) k
            ≡ put_at path (new_entry new_id parent.id (filepath_base path) dir 0 now)
                (view (D.tables w.db)) k)
      × HasTree (D.tables v.db)
      × (v.objects ≡ w.objects)
  MkdirPost new_id now path w (err e) v =
      MkdirFails (D.tables w.db) path e × (D.tables v.db ≡ D.tables w.db) × (v.objects ≡ w.objects)

  added :
      (new_id parent_id : Bytes) (now : ℕ) (path : Bytes) (w : World D P) (t : D.State)
      (ref : Reference)
      → IsTree (D.tables w.db) ref
      → IsFresh new_id (D.tables w.db) ref
      → IsClean path
      → path ≢ root
      → lookup path ref.entries ≡ none
      → lookup (filepath_dir path) ref.entries ≡ some parent_id
      → D.tables t
        ≡ apply_all
            (add_writes (new_entry new_id parent_id (filepath_base path) dir 0 now) path ref)
            (D.tables w.db)
      → MkdirPost new_id now path w (ok tt) (record w { db = t })
  unfolding MkdirPost
  added new_id parent_id now path w t ref tree fresh is_clean ne absent found after =
      let x : Entry = new_entry new_id parent_id (filepath_base path) dir 0 now in
      let (parent, _, at, is) =
        view-listed (D.tables w.db) ref tree (filepath_dir path) parent_id found in
      (
        parent,
        ne,
        view-unlisted (D.tables w.db) ref tree path absent,
        at,
        (λ k.
            ap (λ T. view T k) after
            ∙ view-add tree x path k fresh
            ∙ ap
                (λ i.
                  put_at path (new_entry new_id i (filepath_base path) dir 0 now)
                    (view (D.tables w.db)) k)
                (sym is)),
        (
          next ref (insert path new_id ref.entries),
          subst (λ T. IsTree T (next ref (insert path new_id ref.entries))) (sym after)
              (add-IsTree tree x path fresh is_clean ne (λ e. cc)),
        ),
        refl,
      )

  -- Mkdir, on tables that are a tree and with an id that is not in use. It fails on the root, on a path
  -- that the tree has, where the directory that the path is in is not there, and where the service
  -- fails; then the tables and the objects are as they were. Otherwise the tables are a tree again, which
  -- has a new directory at the path, with the id of the parent's entry as its parent id, and at every
  -- other path what it had; the objects stay.
  pub mkdir-Post :
      (new_id : Bytes) (now : ℕ) (name : Bytes) (w : World D P) (ref : Reference)
      → IsTree (D.tables w.db) ref
      → IsFresh new_id (D.tables w.db) ref
      → Post (MkdirPost new_id now (slash_clean name) w) (mkdir D P new_id now name w)
  unfolding mkdir MkdirPost
  mkdir-Post new_id now name w ref tree fresh =
      let path : Bytes = slash_clean name in
      let T : Tables = D.tables w.db in
      let Q : Result (Unit {0}) → World D P → Type 0 = MkdirPost new_id now path w in
      unless-cases Q (beq path root) _ _ w (λ p. (at_root (beq→eq path root p), refl, refl))
        (λ p.
          reference-cases L Q w T refl ref _ tree (λ s h. (by_service, h, refl))
            (λ s h.
              unless-cases Q (is_present (lookup path ref.entries)) _ _ _
                (λ q. (present (present-view T ref tree path q), h, refl))
                (λ q.
                  need-cases Q _ (lookup (filepath_dir path) ref.entries) _ _
                    (λ r. (no_parent (view-unlisted T ref tree (filepath_dir path) r), h, refl))
                    (λ parent_id r.
                      add-last L Q _ T h ref
                        (new_entry new_id parent_id (filepath_base path) dir 0 now) path tree
                        (λ t k. (by_service, k, refl))
                        (λ t k.
                          added new_id parent_id now path w t ref tree fresh
                            (slash_clean-IsClean name) (λ e. cc (beq_refl path))
                            (is_present-none _ q) r k)))))
