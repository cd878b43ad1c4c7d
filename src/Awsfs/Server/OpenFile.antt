-- ===== src/Awsfs/Server/OpenFile.antt =====
-- Server.OpenFile on each of its branches (awsfs/open.go).
use webdav_serverless.Base.{
  Option, none, some, [], ◌≡◌, refl, sym, ap, ◌∙◌, subst, Bytes, bytes_eq, beq, beq→eq, length,
}
use webdav_serverless.Base.Dict.{lookup}
use webdav_serverless.Errors.{Error, not_exist, service, Result, ok, err, Post, pure, ◌>>=◌}
use webdav_serverless.Path.{slash_clean}
use webdav_serverless.Path.Clean.{slash_clean-ne-nil}
use webdav_serverless.Awsfs.{Entry, EntryType, Reference, file, dir}
use webdav_serverless.Awsfs.Dynamo.{Dynamo, Tables}
use webdav_serverless.Awsfs.Dynamo
use webdav_serverless.Awsfs.Objects.{Objects}
use webdav_serverless.Awsfs.Objects
use webdav_serverless.Awsfs.Server.{World, FileReader, TempFile, open_file, open_entry}
use webdav_serverless.Awsfs.Server.Cases.{need-cases, unless-cases}
use webdav_serverless.Awsfs.Server.Known.{reference-cases, entry-cases}
use webdav_serverless.Awsfs.Server.Bucket.{download-cases}
use webdav_serverless.Awsfs.View.{view, IsTree, view-listed, view-unlisted}

-- Why OpenFile fails.
pub data OpenFails (T : Tables) (path : Bytes) (copy : Bytes → Result Bytes) : Error → Type 0 where
  absent : view T path ≡ none → OpenFails T path copy not_exist
  not_copied : (body : Bytes) (e : Error) → copy body ≡ err e → OpenFails T path copy e
  by_service : OpenFails T path copy service

module _ (D : Dynamo) (P : Objects) where
  -- A directory has no temporary file, and a file has one with its object, read to the end.
  abbrev pub Holds :
      (Bytes → Result Bytes) → EntryType → Bytes → World D P → Option TempFile → Type 0
  Holds copy dir id w t = t ≡ none
  Holds copy file id w t =
      (body : Bytes) × (content : Bytes) × (P.contents w.objects id ≡ some body)
      × (copy body ≡ ok content)
      × (t ≡ some (record { content = content; offset = length content }))

  -- The outcome of OpenFile on a tree.
  unfoldable pub OpenPost :
      Bytes → (Bytes → Result Bytes) → World D P → Result FileReader → World D P → Type 0
  OpenPost path copy w (ok f) v =
      (view (D.tables w.db) path ≡ some f.entry)
      × Holds copy f.entry.type f.entry.id w f.temp_file
      × (D.tables v.db ≡ D.tables w.db)
      × (P.contents v.objects ≡ P.contents w.objects)
  OpenPost path copy w (err e) v =
      OpenFails (D.tables w.db) path copy e
      × (D.tables v.db ≡ D.tables w.db)
      × (P.contents v.objects ≡ P.contents w.objects)

  open_entry-Post :
      (LP : Objects.IsLawful P) (copy : Bytes → Result Bytes) (path id : Bytes) (x : Entry)
      (type : EntryType) (w w' : World D P)
      → x.type ≡ type
      → x.id ≡ id
      → view (D.tables w.db) path ≡ some x
      → D.tables w'.db ≡ D.tables w.db
      → w'.objects ≡ w.objects
      → Post (OpenPost path copy w) (open_entry D P copy x id type w')
  unfolding open_entry OpenPost
  open_entry-Post LP copy path id x dir w w' is_type is at same same' =
      (at, subst (λ t. Holds copy t x.id w none) (sym is_type) refl, same, ap P.contents same')
  open_entry-Post LP copy path id x file w w' is_type is at same same' =
      let Q : Result FileReader → World D P → Type 0 = OpenPost path copy w in
      let here : P.contents w'.objects ≡ P.contents w.objects = ap P.contents same' in
      download-cases LP Q w' id _ (λ s h. (by_service, same, h ∙ here))
        (λ body s h k.
          copied body (copy body) refl (record w' { objects = s })
            (ap (λ c. c x.id) (sym here) ∙ ap (P.contents w'.objects) is ∙ h) same (k ∙ here))
    where
      copied :
          (body : Bytes) (o : Result Bytes)
          → copy body ≡ o
          → (v : World D P) → P.contents w.objects x.id ≡ some body
          → D.tables v.db ≡ D.tables w.db
          → P.contents v.objects ≡ P.contents w.objects
          → Post (OpenPost path copy w) (
              ((λ w. (o, w)) >>= λ content. pure (record {
                temp_file = some (record { content = content; offset = length content });
                entry = x;
              }))
                v)
      copied body (err e) p v stored same k = (not_copied body e p, same, k)
      copied body (ok content) p v stored same k = (
        at,
        subst
            (λ t.
              Holds copy t x.id w (some (record { content = content; offset = length content })))
            (sym is_type) (body, content, stored, p, refl),
        same,
        k,
      )

  -- OpenFile, on tables that are a tree. It changes neither the tables nor the objects. It fails where
  -- the tree does not have the path, and where the service or the copy of the body fails. Otherwise the
  -- reader has the entry of the path; for a directory there is no temporary file, and for a file the
  -- temporary file holds what the copy made of its object, with the offset at the end.
  pub open_file-Post :
      (L : Dynamo.IsLawful D) (LP : Objects.IsLawful P) (copy : Bytes → Result Bytes) (name : Bytes)
      (w : World D P) (ref : Reference)
      → IsTree (D.tables w.db) ref
      → Post (OpenPost (slash_clean name) copy w) (open_file D P copy name w)
  unfolding open_file OpenPost
  open_file-Post L LP copy name w ref tree =
      let path : Bytes = slash_clean name in
      let T : Tables = D.tables w.db in
      let Q : Result FileReader → World D P → Type 0 = OpenPost path copy w in
      unless-cases Q (beq path []) _ _ w (λ p. absurd (slash_clean-ne-nil name (beq→eq path [] p)))
        (λ p.
          reference-cases L Q w T refl ref _ tree (λ s h. (by_service, h, refl))
            (λ s h.
              need-cases Q _ (lookup path ref.entries) _ _
                (λ r. (absent (view-unlisted T ref tree path r), h, refl))
                (λ id r.
                  let (x, stored, at, is) = view-listed T ref tree path id r in
                  entry-cases L Q _ T h id x _ stored (λ t k. (by_service, k, refl))
                    (λ t k. open_entry-Post LP copy path id x x.type w _ refl is at k refl))))
