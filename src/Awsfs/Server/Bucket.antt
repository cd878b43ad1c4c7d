-- ===== src/Awsfs/Server/Bucket.antt =====
-- What the calls of the physical store give, as rules for the methods of Server.
use webdav_serverless.Base.{some, ◌≡◌, sym, subst, Bytes, bytes_eq, beq, if◌then◌else◌}
use webdav_serverless.Errors.{service, Result, ok, err, Effect, Post, outcome-cases, ◌>>=◌}
use webdav_serverless.Awsfs.Dynamo.{Dynamo}
use webdav_serverless.Awsfs.Objects.{Objects, put_object_large, get_object}
use webdav_serverless.Awsfs.Objects
use webdav_serverless.Awsfs.Server.{World, on_objects}
use webdav_serverless.Awsfs.Server.Cases.{objects-cases}

abbrev UploadPost : (P : Objects) → Bytes → Bytes → P.State → Result (Unit {0}) → P.State → Type 0
UploadPost P key body s (ok u) t =
    P.contents t ≡ (λ j. if beq j key then some body else P.contents s j)
UploadPost P key body s (err e) t = (e ≡ service) × (P.contents t ≡ P.contents s)

abbrev DownloadPost : (P : Objects) → Bytes → P.State → Result Bytes → P.State → Type 0
DownloadPost P key s (ok body) t = (P.contents s key ≡ some body) × (P.contents t ≡ P.contents s)
DownloadPost P key s (err e) t = (e ≡ service) × (P.contents t ≡ P.contents s)

-- The object store: an upload, and the read of an object.
module _ {D : Dynamo} {P : Objects} {B : Type 0} (LP : Objects.IsLawful P)
    (Q : Result B → World D P → Type 0) (w : World D P) where
  pub upload-cases :
      (key body : Bytes) (f : Unit {0} → Effect (World D P) B)
      → ((s : P.State)
          → P.contents s ≡ P.contents w.objects
          → Q (err service) (record w { objects = s }))
      → ((s : P.State)
          → P.contents s ≡ (λ j. if beq j key then some body else P.contents w.objects j)
          → Post Q (f tt (record w { objects = s })))
      → Post Q ((on_objects D P (put_object_large P key body) >>= f) w)
  unfolding put_object_large
  upload-cases key body f failed done =
      objects-cases Q (UploadPost P key body w.objects) (P.upload key body) f w
        (outcome-cases (UploadPost P key body w.objects) (P.upload key body w.objects)
          (λ e t p. LP.upload_err key body w.objects t e p)
          (λ u t p. LP.upload_ok key body w.objects t p))
        (λ e s h. subst (λ e. Q (err e) (record w { objects = s })) (sym h.0) (failed s h.1))
        (λ u s h. done s h)

  pub download-cases :
      (key : Bytes) (f : Bytes → Effect (World D P) B)
      → ((s : P.State)
          → P.contents s ≡ P.contents w.objects
          → Q (err service) (record w { objects = s }))
      → ((body : Bytes) (s : P.State)
          → P.contents w.objects key ≡ some body
          → P.contents s ≡ P.contents w.objects
          → Post Q (f body (record w { objects = s })))
      → Post Q ((on_objects D P (get_object P key) >>= f) w)
  unfolding get_object
  download-cases key f failed done =
      objects-cases Q (DownloadPost P key w.objects) (P.get_object key) f w
        (outcome-cases (DownloadPost P key w.objects) (P.get_object key w.objects)
          (λ e t p. LP.get_err key w.objects t e p) (λ body t p. LP.get_ok key body w.objects t p))
        (λ e s h. subst (λ e. Q (err e) (record w { objects = s })) (sym h.0) (failed s h.1))
        (λ body s h. done body s h.0 h.1)
