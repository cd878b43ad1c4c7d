-- ===== src/Awsfs/Server/Stat.antt =====
-- Server.Stat on each of its branches (awsfs/stat.go).
use webdav_serverless.Base.{none, some, ◌≡◌, refl, Bytes, bytes_eq}
use webdav_serverless.Base.Dict.{lookup}
use webdav_serverless.Errors.{Error, not_exist, service, Result, ok, err, Post}
use webdav_serverless.Path.{slash_clean}
use webdav_serverless.Awsfs.{Entry, Reference}
use webdav_serverless.Awsfs.Dynamo.{Dynamo, Tables}
use webdav_serverless.Awsfs.Dynamo
use webdav_serverless.Awsfs.Objects.{Objects}
use webdav_serverless.Awsfs.Server.{World, FileInfo, file_info, stat}
use webdav_serverless.Awsfs.Server.Cases.{need-cases}
use webdav_serverless.Awsfs.Server.Known.{reference-cases, entry-cases}
use webdav_serverless.Awsfs.View.{view, IsTree, view-listed, view-unlisted}

-- Why Stat fails.
pub data StatFails (T : Tables) (path : Bytes) : Error → Type 0 where
  absent : view T path ≡ none → StatFails T path not_exist
  by_service : StatFails T path service

module _ (D : Dynamo) (P : Objects) where
  -- The outcome of Stat on a tree.
  pub StatPost : Bytes → World D P → Result FileInfo → World D P → Type 0
  StatPost path w (ok i) v =
      (x : Entry) × (view (D.tables w.db) path ≡ some x)
      × (i ≡ file_info x)
      × (D.tables v.db ≡ D.tables w.db)
      × (v.objects ≡ w.objects)
  StatPost path w (err e) v =
      StatFails (D.tables w.db) path e × (D.tables v.db ≡ D.tables w.db) × (v.objects ≡ w.objects)

  -- Stat, on tables that are a tree. It changes neither the tables nor the objects. It fails with
  -- os.ErrNotExist where the tree does not have the path and otherwise only where the service fails,
  -- and else it gives the name, the size, the time and the type of the entry of the path.
  pub stat-Post :
      (L : Dynamo.IsLawful D) (name : Bytes) (w : World D P) (ref : Reference)
      → IsTree (D.tables w.db) ref
      → Post (StatPost (slash_clean name) w) (stat D P name w)
  unfolding stat StatPost
  stat-Post L name w ref tree =
      let path : Bytes = slash_clean name in
      let T : Tables = D.tables w.db in
      let Q : Result FileInfo → World D P → Type 0 = StatPost path w in
      reference-cases L Q w T refl ref _ tree (λ s h. (by_service, h, refl))
        (λ s h.
          need-cases Q _ (lookup path ref.entries) _ _
            (λ r. (absent (view-unlisted T ref tree path r), h, refl))
            (λ id r.
              let (x, stored, at, is) = view-listed T ref tree path id r in
              entry-cases L Q _ T h id x _ stored (λ t k. (by_service, k, refl))
                (λ t k. (x, at, refl, k, refl))))
