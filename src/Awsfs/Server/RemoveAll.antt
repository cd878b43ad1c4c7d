-- ===== src/Awsfs/Server/RemoveAll.antt =====
-- Server.RemoveAll on each of its branches (awsfs/remove.go).
use webdav_serverless.Base.{
  none, some, [], ◌≡◌, ◌≢◌, refl, sym, ap, ◌∙◌, subst, Bytes, bytes_eq, beq, beq_refl, beq→eq,
}
use webdav_serverless.Base.Dict.{lookup}
use webdav_serverless.Errors.{Error, invalid, not_exist, service, Result, ok, err, Post}
use webdav_serverless.Path.{root, slash_clean}
use webdav_serverless.Path.Clean.{slash_clean-ne-nil}
use webdav_serverless.Awsfs.{Reference}
use webdav_serverless.Awsfs.Dynamo.{Dynamo, Tables, apply_all}
use webdav_serverless.Awsfs.Dynamo
use webdav_serverless.Awsfs.Objects.{Objects}
use webdav_serverless.Awsfs.Tree.{is_below, remove_below}
use webdav_serverless.Awsfs.Server.{World, remove_all}
use webdav_serverless.Awsfs.Server.Cases.{need-cases, unless-cases}
use webdav_serverless.Awsfs.Server.Known.{reference-cases, delete-last}
use webdav_serverless.Awsfs.View.{view, IsTree, HasTree, IsGone, cut_at, view-listed, view-unlisted}
use webdav_serverless.Awsfs.View.Writes.{next}
use webdav_serverless.Awsfs.View.Delete.{removed, view-remove, remove-IsTree, remove-IsGone}

-- Why RemoveAll fails.
pub data RemoveFails (T : Tables) (path : Bytes) : Error → Type 0 where
  at_root : path ≡ root → RemoveFails T path invalid
  absent : view T path ≡ none → RemoveFails T path not_exist
  by_service : RemoveFails T path service

module _ (D : Dynamo) (L : Dynamo.IsLawful D) (P : Objects) where
  -- The outcome of RemoveAll on a tree.
  pub RemovePost : Bytes → World D P → Result (Unit {0}) → World D P → Type 0
  RemovePost path w (ok u) v =
      (path ≢ root)
      × (view (D.tables w.db) path ≢ none)
      × ((k : Bytes) → view (D.tables v.db) k ≡ cut_at path (view (D.tables w.db)) k)
      × ((k : Bytes) → IsGone (is_below path k) (view (D.tables w.db) k) (D.tables v.db))
      × HasTree (D.tables v.db)
      × (v.objects ≡ w.objects)
  RemovePost path w (err e) v =
      RemoveFails (D.tables w.db) path e × (D.tables v.db ≡ D.tables w.db) × (v.objects ≡ w.objects)

  taken :
      (id path : Bytes) (w : World D P) (t : D.State) (ref : Reference)
      (tree : IsTree (D.tables w.db) ref)
      → path ≢ root
      → path ≢ []
      → lookup path ref.entries ≡ some id
      → D.tables t ≡ removed tree path
      → RemovePost path w (ok tt) (record w { db = t })
  unfolding RemovePost
  taken id path w t ref tree ne ne' found after = (
    ne,
    (λ e.
        let (x, _, at, _) = view-listed (D.tables w.db) ref tree path id found in
        let bad : none ≡ some x = sym e ∙ at in cc),
    (λ k. ap (λ T. view T k) after ∙ view-remove tree path k),
    (λ k.
        subst (λ T. IsGone (is_below path k) (view (D.tables w.db) k) T) (sym after)
          (remove-IsGone tree path k)),
    (
      next ref (remove_below path ref.entries).0,
      subst (λ T. IsTree T (next ref (remove_below path ref.entries).0)) (sym after)
          (remove-IsTree tree path ne ne'),
    ),
    refl,
  )

  -- RemoveAll, on tables that are a tree. It fails on the root, on a path that the tree does not have
  -- and where the service fails, and then the tables and the objects are as they were. Otherwise the
  -- tables are a tree again, from which the path and all that is below it are gone, with their entries, while every other
  -- path has the entry that it had; the objects stay.
  pub remove_all-Post :
      (name : Bytes) (w : World D P) (ref : Reference)
      → IsTree (D.tables w.db) ref
      → Post (RemovePost (slash_clean name) w) (remove_all D P name w)
  unfolding remove_all RemovePost
  remove_all-Post name w ref tree =
      let path : Bytes = slash_clean name in
      let T : Tables = D.tables w.db in
      let Q : Result (Unit {0}) → World D P → Type 0 = RemovePost path w in
      unless-cases Q (beq path root) _ _ w (λ p. (at_root (beq→eq path root p), refl, refl))
        (λ p.
          reference-cases L Q w T refl ref _ tree (λ s h. (by_service, h, refl))
            (λ s h.
              need-cases Q _ (lookup path ref.entries) _ _
                (λ r. (absent (view-unlisted T ref tree path r), h, refl))
                (λ id r.
                  delete-last L Q _ T h (remove_below path ref.entries).1
                    (record ref { entries = (remove_below path ref.entries).0 })
                    (λ t k. (by_service, k, refl))
                    (λ t k.
                      taken id path w t ref tree (λ e. cc (beq_refl path)) (slash_clean-ne-nil name)
                        r k))))
