-- ===== src/Awsfs/Server/Create/Branches.antt =====
-- Server.Create on each of its branches.
use mathlib.Core.List.{flatten}
use webdav_serverless.Base.{
  ℕ, false, Option, none, some, [], ◌≡◌, ◌≢◌, inl, inr, refl, sym, ap, ◌∙◌, subst, Bytes, bytes_eq,
  beq, beq→eq, length,
}
use webdav_serverless.Base.Dict.{lookup, insert}
use webdav_serverless.Errors.{Result, Post}
use webdav_serverless.Path.{root, slash_clean, filepath_dir, filepath_base, IsClean}
use webdav_serverless.Path.Clean.{slash_clean-IsClean, slash_clean-ne-nil}
use webdav_serverless.Awsfs.{Entries, Reference, Entry, file}
use webdav_serverless.Awsfs.Dynamo.{Dynamo, Tables, Attributes, apply_all, apply_attributes}
use webdav_serverless.Awsfs.Dynamo
use webdav_serverless.Awsfs.Objects.{Objects, Reader, read_sized, read_sized-flatten}
use webdav_serverless.Awsfs.Objects
use webdav_serverless.Awsfs.Server.{
  World, FileInfo, create, create_at, create_update, create_new, new_entry,
}
use webdav_serverless.Awsfs.Server.Cases.{need-cases, unless-cases}
use webdav_serverless.Awsfs.Server.Known.{reference-cases, entry-cases, add-cases, update-cases}
use webdav_serverless.Awsfs.Server.Bucket.{upload-cases}
use webdav_serverless.Awsfs.Server.Create.{
  put_body, sized, no_parent, not_stored, stored_new, stored_over, CreatePost,
}
use webdav_serverless.Awsfs.View.{view, IsTree, IsFresh, put_at, view-listed, view-unlisted}
use webdav_serverless.Awsfs.View.Writes.{view-add, add-IsTree, next}
use webdav_serverless.Awsfs.View.Update.{updated_entry, view-update, update-IsTree}

module _ (D : Dynamo) (P : Objects) where
  put_path-ne-root :
      (T : Tables) (ref : Reference)
      → IsTree T ref
      → (path : Bytes) → lookup path ref.entries ≡ none
      → path ≢ root
  put_path-ne-root T ref tree path h e = tree.has_root (ap (λ k. lookup k ref.entries) (sym e) ∙ h)

  -- The path has an entry.
  updates :
      (L : Dynamo.IsLawful D) (new_id path body id : Bytes) (size now : ℕ) (w w' : World D P)
      (ref : Reference)
      → IsTree (D.tables w.db) ref
      → size ≡ length body
      → lookup path ref.entries ≡ some id
      → D.tables w'.db ≡ D.tables w.db
      → P.contents w'.objects ≡ put_body id body (P.contents w.objects)
      → Post (CreatePost D P new_id path now body w) (create_update D P id size now w')
  unfolding create_update CreatePost
  updates L new_id path body id size now w w' ref tree sized_by listed same stored =
      let T : Tables = D.tables w.db in
      let Q : Result FileInfo → World D P → Type 0 = CreatePost D P new_id path now body w in
      let (x, at, found, is) = view-listed T ref tree path id listed in
      let own : P.contents w'.objects ≡ put_body x.id body (P.contents w.objects) =
        stored ∙ ap (λ i. put_body i body (P.contents w.objects)) (sym is) in
      entry-cases L Q w' T same id x _ at (λ s h. (stored_over x found own, h))
        (λ s h.
          update-cases L Q _ T h (record x { size = size; modify = now }) _
            (λ t k. (stored_over x found own, k))
            (λ t k.
              let a : Attributes = sized size now x in
              let own_at : T.entries x.id ≡ some x = ap T.entries is ∙ at in
              let own_listed : lookup path ref.entries ≡ some x.id = listed ∙ ap some (sym is) in
              (
                inl (record {
                  old = x;
                  found = found;
                  changes = λ j.
                      ap (λ T. view T j) k
                      ∙ view-update tree x a path own_at own_listed j
                      ∙ ap (λ n. put_at path (updated_entry (sized n now x) x) (view T) j) sized_by;
                  stores = own;
                  informs =
                      ap
                        (λ n. record {
                          name = x.name;
                          size = n;
                          mod_time = now;
                          info_is_dir = false;
                        })
                        sized_by;
                }),
                (
                  ref,
                  subst (λ T. IsTree T ref) (sym k) (update-IsTree tree x a path own_at own_listed),
                ),
              )))

  -- The path has no entry.
  adds :
      (L : Dynamo.IsLawful D) (new_id path body : Bytes) (size now : ℕ) (w w' : World D P)
      (ref : Reference)
      → IsTree (D.tables w.db) ref
      → IsFresh new_id (D.tables w.db) ref
      → IsClean path
      → size ≡ length body
      → lookup path ref.entries ≡ none
      → D.tables w'.db ≡ D.tables w.db
      → P.contents w'.objects ≡ put_body new_id body (P.contents w.objects)
      → Post
          (CreatePost D P new_id path now body w)
          (create_new D P path new_id size now ref.entries w')
  unfolding create_new CreatePost
  adds L new_id path body size now w w' ref tree fresh is_clean sized_by unlisted same stored =
      let T : Tables = D.tables w.db in
      let Q : Result FileInfo → World D P → Type 0 = CreatePost D P new_id path now body w in
      let not_found : view T path ≡ none = view-unlisted T ref tree path unlisted in
      need-cases Q _ (lookup (filepath_dir path) ref.entries) _ _
        (λ r. (no_parent not_found (view-unlisted T ref tree (filepath_dir path) r) stored, same))
        (λ parent_id r.
          add-cases L Q w' T same ref
            (new_entry new_id parent_id (filepath_base path) file size now) path _ tree
            (λ t k. (stored_new not_found stored, k))
            (λ t k.
              let x : ℕ → Bytes → Entry =
                λ n i. new_entry new_id i (filepath_base path) file n now in
              let (parent, _, at, is) = view-listed T ref tree (filepath_dir path) parent_id r in
              let es : Entries = insert path new_id ref.entries in
              (
                inr (record {
                  parent = parent;
                  not_found = not_found;
                  in_parent = at;
                  changes = λ j.
                      ap (λ T. view T j) k
                      ∙ view-add tree (x size parent_id) path j fresh
                      ∙ ap (λ n. put_at path (x n parent_id) (view T) j) sized_by
                      ∙ ap (λ i. put_at path (x (length body) i) (view T) j) (sym is);
                  stores = stored;
                  informs =
                      ap
                        (λ n. record {
                          name = filepath_base path;
                          size = n;
                          mod_time = now;
                          info_is_dir = false;
                        })
                        sized_by;
                }),
                (
                  next ref es,
                  subst (λ T. IsTree T (next ref es)) (sym k)
                      (add-IsTree tree (x size parent_id) path fresh is_clean
                        (put_path-ne-root T ref tree path unlisted) (λ e. cc)),
                ),
              )))

  create_at-Post :
      (L : Dynamo.IsLawful D) (LP : Objects.IsLawful P) (new_id path : Bytes) (now : ℕ) (r : Reader)
      (w w' : World D P) (ref : Reference)
      → IsTree (D.tables w.db) ref
      → IsFresh new_id (D.tables w.db) ref
      → IsClean path
      → D.tables w'.db ≡ D.tables w.db
      → w'.objects ≡ w.objects
      → (found : Option Bytes) → lookup path ref.entries ≡ found
      → Post
          (CreatePost D P new_id path now (read_sized r).1 w)
          (create_at D P path new_id now r ref.entries found w')
  unfolding create_at CreatePost
  create_at-Post L LP new_id path now r w w' ref tree fresh is_clean same same' (some id) h =
      let Q : Result FileInfo → World D P → Type 0 =
        CreatePost D P new_id path now (read_sized r).1 w in
      let at : P.contents w'.objects ≡ P.contents w.objects = ap P.contents same' in
      upload-cases LP Q w' id (read_sized r).1 _ (λ s k. (not_stored (k ∙ at), same))
        (λ s k.
          updates L new_id path (read_sized r).1 id (read_sized r).0 now w _ ref tree
            (ap (λ (s : ℕ × Bytes). s.0) (read_sized-flatten r)
              ∙ ap (λ (s : ℕ × Bytes). length s.1) (sym (read_sized-flatten r)))
            h same (k ∙ ap (put_body id (read_sized r).1) at))
  create_at-Post L LP new_id path now r w w' ref tree fresh is_clean same same' none h =
      let Q : Result FileInfo → World D P → Type 0 =
        CreatePost D P new_id path now (read_sized r).1 w in
      let at : P.contents w'.objects ≡ P.contents w.objects = ap P.contents same' in
      upload-cases LP Q w' new_id (read_sized r).1 _ (λ s k. (not_stored (k ∙ at), same))
        (λ s k.
          adds L new_id path (read_sized r).1 (read_sized r).0 now w _ ref tree fresh is_clean
            (ap (λ (s : ℕ × Bytes). s.0) (read_sized-flatten r)
              ∙ ap (λ (s : ℕ × Bytes). length s.1) (sym (read_sized-flatten r)))
            h same (k ∙ ap (put_body new_id (read_sized r).1) at))

  -- Create, on tables that are a tree and with an id that is not in use. It succeeds in two ways: for a
  -- path with an entry, the entry has a new size and time and the body is its object; for a path without
  -- one, there is a new file in the directory that the path names, and the body is its object. The size
  -- is the length of all that the reader gave, no other path or object changes, and the tables are a tree
  -- again. It fails, with the tables as they were, where the service fails or the directory of a new path
  -- is not there; the body may then be stored already, under the id of the entry or the new one.
  pub create-Post :
      (L : Dynamo.IsLawful D) (LP : Objects.IsLawful P) (new_id : Bytes) (now : ℕ) (name : Bytes)
      (r : Reader) (w : World D P) (ref : Reference)
      → IsTree (D.tables w.db) ref
      → IsFresh new_id (D.tables w.db) ref
      → Post
          (CreatePost D P new_id (slash_clean name) now (flatten r) w)
          (create D P new_id now name r w)
  unfolding create CreatePost
  create-Post L LP new_id now name r w ref tree fresh =
      let path : Bytes = slash_clean name in
      let T : Tables = D.tables w.db in
      let Q : Result FileInfo → World D P → Type 0 =
        CreatePost D P new_id path now (read_sized r).1 w in
      subst (λ body. Post (CreatePost D P new_id path now body w) (create D P new_id now name r w))
        (ap (λ (s : ℕ × Bytes). s.1) (read_sized-flatten r))
        (unless-cases Q (beq path []) _ _ w
          (λ p. absurd (slash_clean-ne-nil name (beq→eq path [] p)))
          (λ p.
            reference-cases L Q w T refl ref _ tree (λ s h. (not_stored refl, h))
              (λ s h.
                create_at-Post L LP new_id path now r w (record w { db = s }) ref tree fresh
                  (slash_clean-IsClean name) h refl (lookup path ref.entries) refl)))
