-- ===== src/Awsfs/Server/Cases.antt =====
-- One rule for each way in which a method of Server goes on or returns.
use webdav_serverless.Base.{Bool, true, false, Option, none, some, ◌≡◌, refl}
use webdav_serverless.Errors.{Error, Result, ok, err, Effect, Post, need, ◌>>=◌, continue}
use webdav_serverless.Awsfs.Dynamo.{Dynamo}
use webdav_serverless.Awsfs.Objects.{Objects}
use webdav_serverless.Awsfs.Server.{World, on_db, on_objects, unless}

module _ {D : Dynamo} {P : Objects} {A B : Type 0} (Q : Result B → World D P → Type 0) where
  -- A call of the metadata store for which `R` is known.
  pub db-cases :
      (R : Result A → D.State → Type 0) (m : Effect D.State A) (f : A → Effect (World D P) B)
      (w : World D P)
      → Post R (m w.db)
      → ((e : Error) (s : D.State) → R (err e) s → Q (err e) (record w { db = s }))
      → ((a : A) (s : D.State) → R (ok a) s → Post Q (f a (record w { db = s })))
      → Post Q ((on_db D P m >>= f) w)
  db-cases R m f w h failed done = go (m w.db) h
    where
      go : (o : Result A × D.State) → Post R o → Post Q (continue o.0 f (record w { db = o.1 }))
      go (ok a, s) h = done a s h
      go (err x, s) h = failed x s h

  pub objects-cases :
      (R : Result A → P.State → Type 0) (m : Effect P.State A) (f : A → Effect (World D P) B)
      (w : World D P)
      → Post R (m w.objects)
      → ((e : Error) (s : P.State) → R (err e) s → Q (err e) (record w { objects = s }))
      → ((a : A) (s : P.State) → R (ok a) s → Post Q (f a (record w { objects = s })))
      → Post Q ((on_objects D P m >>= f) w)
  objects-cases R m f w h failed done = go (m w.objects) h
    where
      go :
          (o : Result A × P.State) → Post R o → Post Q (continue o.0 f (record w { objects = o.1 }))
      go (ok a, s) h = done a s h
      go (err x, s) h = failed x s h

  pub need-cases :
      (x : Error) (o : Option A) (f : A → Effect (World D P) B) (w : World D P)
      → (o ≡ none → Q (err x) w)
      → ((a : A) → o ≡ some a → Post Q (f a w))
      → Post Q ((need x o >>= f) w)
  need-cases x none f w failed done = failed refl
  need-cases x (some a) f w failed done = done a refl

module _ {D : Dynamo} {P : Objects} {B : Type 0} (Q : Result B → World D P → Type 0) where
  pub db-last :
      (R : Result B → D.State → Type 0) (m : Effect D.State B) (w : World D P)
      → Post R (m w.db)
      → ((e : Error) (s : D.State) → R (err e) s → Q (err e) (record w { db = s }))
      → ((b : B) (s : D.State) → R (ok b) s → Q (ok b) (record w { db = s }))
      → Post Q (on_db D P m w)
  db-last R m w h failed done = go (m w.db) h
    where
      go : (o : Result B × D.State) → Post R o → Q o.0 (record w { db = o.1 })
      go (ok a, s) h = done a s h
      go (err x, s) h = failed x s h

  pub unless-cases :
      (b : Bool) (x : Error) (m : Effect (World D P) B) (w : World D P)
      → (b ≡ true → Q (err x) w)
      → (b ≡ false → Post Q (m w))
      → Post Q (unless b x m w)
  unless-cases true x m w failed done = failed refl
  unless-cases false x m w failed done = done refl
