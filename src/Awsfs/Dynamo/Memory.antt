-- ===== src/Awsfs/Dynamo/Memory.antt =====
-- Two tables in memory, which never fail but where a condition does: an instance of the laws.
use webdav_serverless.Base.{Bool, true, false, [], ◌∷◌, ◌≡◌, refl}
use webdav_serverless.Errors.{Error, service, Result, ok, err}
use webdav_serverless.Awsfs.Dynamo.{
  Tables, Dynamo, IsLawful, all_hold, apply_all, apply_attributes, entry_holds, put_reference,
}

abbrev pub when : Bool → Tables → Tables → Result (Unit {0}) × Tables
when true t s = (ok tt, t)
when false t s = (err service, s)

abbrev pub memory : Dynamo
memory = record {
  State = Tables;
  tables = λ s. s;
  get_reference_item = λ i s. (ok (s.references i), s);
  get_entry_item = λ i s. (ok (s.entries i), s);
  query_parent = λ i s. (ok [], s);
  transact = λ ws s. when (all_hold ws s) (apply_all ws s) s;
  put_reference_item = λ r s. (ok tt, apply_all (put_reference r ∷ []) s);
  update_entry_item = λ i v a s. when (entry_holds i v s) (apply_attributes i a s) s;
}

when-ok : (b : Bool) (t s u : Tables) → when b t s ≡ (ok tt, u) → (b ≡ true) × (u ≡ t)
when-ok true t s u h = (refl, cc)
when-ok false t s u h = cc

when-err :
    (b : Bool) (t s u : Tables) (e : Error) → when b t s ≡ (err e, u) → (e ≡ service) × (u ≡ s)
when-err true t s u e h = cc
when-err false t s u e h = (cc, cc)

pub memory-IsLawful : IsLawful memory
memory-IsLawful = record {
  get_reference_ok = λ i s t r h. (cc, cc);
  get_reference_err = λ i s t e h. cc;
  get_entry_ok = λ i s t r h. (cc, cc);
  get_entry_err = λ i s t e h. cc;
  transact_ok = λ ws s t h. when-ok (all_hold ws s) (apply_all ws s) s t h;
  transact_err = λ ws s t e h. when-err (all_hold ws s) (apply_all ws s) s t e h;
  update_ok = λ i v a s t h. when-ok (entry_holds i v s) (apply_attributes i a s) s t h;
  update_err = λ i v a s t e h. when-err (entry_holds i v s) (apply_attributes i a s) s t e h;
}
