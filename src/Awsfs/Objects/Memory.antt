-- ===== src/Awsfs/Objects/Memory.antt =====
-- A bucket in memory, which fails only where there is no object: an instance of the laws.
use webdav_serverless.Base.{Option, none, some, ◌≡◌, Bytes, bytes_eq, beq, if◌then◌else◌}
use webdav_serverless.Errors.{Error, service, Result, ok, err}
use webdav_serverless.Awsfs.Objects.{Objects, IsLawful}

abbrev pub Bucket : Type 0
Bucket = Bytes → Option Bytes

abbrev pub fetched : Option Bytes → Bucket → Result Bytes × Bucket
fetched none s = (err service, s)
fetched (some body) s = (ok body, s)

abbrev pub bucket : Objects
bucket = record {
  State = Bucket;
  contents = λ s. s;
  upload = λ k body s. (ok tt, λ j. if beq j k then some body else s j);
  get_object = λ k s. fetched (s k) s;
}

fetched-ok :
    (o : Option Bytes) (s t : Bucket) (body : Bytes)
    → fetched o s ≡ (ok body, t)
    → (o ≡ some body) × (t ≡ s)
fetched-ok none s t body h = cc
fetched-ok (some x) s t body h = (cc, cc)

fetched-err :
    (o : Option Bytes) (s t : Bucket) (e : Error)
    → fetched o s ≡ (err e, t)
    → (e ≡ service) × (t ≡ s)
fetched-err none s t e h = (cc, cc)
fetched-err (some x) s t e h = cc

pub bucket-IsLawful : IsLawful bucket
bucket-IsLawful = record {
  upload_ok = λ k body s t h. cc;
  upload_err = λ k body s t e h. cc;
  get_ok = λ k body s t h. fetched-ok (s k) s t body h;
  get_err = λ k s t e h. fetched-err (s k) s t e h;
}
