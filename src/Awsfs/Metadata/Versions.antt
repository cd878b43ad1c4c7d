-- ===== src/Awsfs/Metadata/Versions.antt =====
-- The optimistic lock of awsfs/metadata.go: the version of the reference, which every write of the
-- reference tests and raises.
use mathlib.Core.Path.{subst}
use webdav_serverless.Base.{
  ℕ, ◌<◌, true, ◌⊎◌, inl, inr, Option, none, some, List, [], ◌∷◌, ◌++◌, ◌≡◌, refl, Bytes, bytes_eq,
  map, arith, All, beq, beq→eq, beq_refl, sym, ◌∙◌, ap, Bool-cases,
}
use webdav_serverless.Errors.{no_such_reference, ok, outcome-cases, bind-ok, need-ok}
use webdav_serverless.Awsfs.{Entries, Reference}
use webdav_serverless.Awsfs.Dynamo.{
  Dynamo, IsLawful, Tables, Write, put_entry, put_reference, set_entries, set_name, delete_entry,
  Attributes, reference_has, holds, all_hold, apply_write, apply_all, apply_attributes,
  with_entries,
}
use webdav_serverless.Awsfs.Metadata.{get_reference, delete_entries}

-- The second reference is the first, or a later version of it.
abbrev pub IsLater : Option Reference → Option Reference → Type 0
IsLater none b = Unit
IsLater (some r) none = ⊥
IsLater (some r) (some r') = (r' ≡ r) ⊎ (r.version < r'.version)

IsLater-refl : (o : Option Reference) → IsLater o o
IsLater-refl none = tt
IsLater-refl (some r) = inl refl

IsLater-trans : (a b c : Option Reference) → IsLater a b → IsLater b c → IsLater a c
IsLater-trans none b c h k = tt
IsLater-trans (some r) (some r') none h k = k
IsLater-trans (some r) (some r') (some r'') (inl p) (inl q) = inl (q ∙ p)
IsLater-trans (some r) (some r') (some r'') (inl p) (inr q) = inr (rw p at q)
IsLater-trans (some r) (some r') (some r'') (inr p) (inl q) = inr (rw q p)
IsLater-trans (some r) (some r') (some r'') (inr p) (inr q) = inr (omega arith)
IsLater-trans (some r) none c h k = absurd h

IsLater-with_entries : (es : Entries) (o : Option Reference) → IsLater o (with_entries es o)
IsLater-with_entries es none = tt
IsLater-with_entries es (some r) = inr (omega arith)

-- A write other than the Put of a whole reference, which only Init and AddReference make.
abbrev pub IsGuarded : Write → Type 0
IsGuarded (put_reference r) = ⊥
IsGuarded (put_entry e) = Unit
IsGuarded (set_entries i v es) = Unit
IsGuarded (set_name i v n p) = Unit
IsGuarded (delete_entry i) = Unit

module _ (i : Bytes) where
  apply_write-IsLater :
      (w : Write) (t : Tables)
      → IsGuarded w
      → IsLater (t.references i) ((apply_write w t).references i)
  unfolding apply_write
  apply_write-IsLater (put_reference r) t h = absurd h
  apply_write-IsLater (put_entry e) t h = IsLater-refl (t.references i)
  apply_write-IsLater (set_entries j v es) t h = elim (Bool-cases (beq i j)) [
    | inl p ↦
        let e : i ≡ j = beq→eq i j p in
        rw (← e, beq_refl i) (IsLater-with_entries es (t.references i))
    | inr p ↦ rw p (IsLater-refl (t.references i))
  ]
  apply_write-IsLater (set_name j v n p) t h = IsLater-refl (t.references i)
  apply_write-IsLater (delete_entry j) t h = IsLater-refl (t.references i)

  apply_all-IsLater :
      (ws : List Write) (t : Tables)
      → All IsGuarded ws
      → IsLater (t.references i) ((apply_all ws t).references i)
  unfolding apply_all
  apply_all-IsLater [] t h = IsLater-refl (t.references i)
  apply_all-IsLater (w ∷ ws) t (g, h) =
      IsLater-trans (t.references i) ((apply_write w t).references i) _ (apply_write-IsLater w t g)
        (apply_all-IsLater ws (apply_write w t) h)

-- A request to DynamoDB, of whichever server of the program.
pub data Step (D : Dynamo) (s : D.State) : D.State → Type 0 where
  read_reference : (i : Bytes) → Step D s (D.get_reference_item i s).1
  read_entry : (i : Bytes) → Step D s (D.get_entry_item i s).1
  transacted : (ws : List Write) → All IsGuarded ws → Step D s (D.transact ws s).1
  updated : (i : Bytes) (v : ℕ) (a : Attributes) → Step D s (D.update_entry_item i v a s).1

pub data Steps (D : Dynamo) (s : D.State) : D.State → Type 0 where
  here : Steps D s s
  followed_by : {t u : D.State} → Steps D s t → Step D t u → Steps D s u

module _ (D : Dynamo) (L : IsLawful D) where
  abbrev reference_at : D.State → Bytes → Option Reference
  reference_at s i = (D.tables s).references i

  tables-IsLater :
      (i : Bytes) (s t : D.State) (T : Tables)
      → D.tables t ≡ T
      → IsLater (reference_at s i) (T.references i)
      → IsLater (reference_at s i) (reference_at t i)
  tables-IsLater i s t T e h =
      subst (λ (T : Tables). IsLater (reference_at s i) (T.references i)) (sym e) h

  tables-IsLater_same :
      (i : Bytes) (s t : D.State)
      → D.tables t ≡ D.tables s
      → IsLater (reference_at s i) (reference_at t i)
  tables-IsLater_same i s t e = tables-IsLater i s t _ e (IsLater-refl (reference_at s i))

  -- One request leaves a reference as it is, or raises its version.
  Step-IsLater :
      (i : Bytes) (s t : D.State) → Step D s t → IsLater (reference_at s i) (reference_at t i)
  Step-IsLater i s _ (read_reference j) =
      outcome-cases (λ _ t. IsLater (reference_at s i) (reference_at t i))
        (D.get_reference_item j s)
        (λ e t p. tables-IsLater_same i s t ((L.get_reference_err j s t e p).1))
        (λ r t p. tables-IsLater_same i s t ((L.get_reference_ok j s t r p).1))
  Step-IsLater i s _ (read_entry j) =
      outcome-cases (λ _ t. IsLater (reference_at s i) (reference_at t i)) (D.get_entry_item j s)
        (λ e t p. tables-IsLater_same i s t ((L.get_entry_err j s t e p).1))
        (λ r t p. tables-IsLater_same i s t ((L.get_entry_ok j s t r p).1))
  Step-IsLater i s _ (transacted ws g) =
      outcome-cases (λ _ t. IsLater (reference_at s i) (reference_at t i)) (D.transact ws s)
        (λ e t p. tables-IsLater_same i s t ((L.transact_err ws s t e p).1))
        (λ u t p.
          tables-IsLater i s t (apply_all ws (D.tables s)) ((L.transact_ok ws s t p).1)
            (apply_all-IsLater i ws (D.tables s) g))
  Step-IsLater i s _ (updated j v a) =
      outcome-cases (λ _ t. IsLater (reference_at s i) (reference_at t i))
        (D.update_entry_item j v a s)
        (λ e t p. tables-IsLater_same i s t ((L.update_err j v a s t e p).1))
        (λ u t p.
          tables-IsLater i s t (apply_attributes j a (D.tables s)) ((L.update_ok j v a s t p).1)
            (unfold apply_attributes in IsLater-refl (reference_at s i)))

  Steps-IsLater :
      (i : Bytes) (s t : D.State) → Steps D s t → IsLater (reference_at s i) (reference_at t i)
  Steps-IsLater i s _ here = IsLater-refl (reference_at s i)
  Steps-IsLater i s t (followed_by {t = u} r st) =
      IsLater-trans (reference_at s i) (reference_at u i) (reference_at t i) (Steps-IsLater i s u r)
        (Step-IsLater i u t st)

  all_hold-append :
      (vs ws : List Write) (t : Tables) → all_hold (vs ++ ws) t ≡ true → all_hold ws t ≡ true
  unfolding all_hold
  all_hold-append [] ws t h = h
  all_hold-append (v ∷ vs) ws t h = all_hold-append vs ws t (ground arith)

  -- A reference that is later than `ref` and has its version is `ref`.
  IsLater-same_version :
      (r : Reference) (o : Option Reference)
      → IsLater (some r) o
      → reference_has r.version o ≡ true
      → o ≡ some r
  IsLater-same_version r none h k = absurd h
  IsLater-same_version r (some r') (inl e) k = ap some e
  IsLater-same_version r (some r') (inr lt) k = absurd (ground arith)

  -- What is read with success is what the tables hold.
  pub get_reference_item_ok :
      (i : Bytes) (s t : D.State) (ref : Reference)
      → get_reference D i s ≡ (ok ref, t)
      → (reference_at s i ≡ some ref) × (D.tables t ≡ D.tables s)
  unfolding get_reference
  get_reference_item_ok i s t ref h =
      let (o, w, read, found) = bind-ok (D.get_reference_item i) _ s t ref h in
      let (present, same) = need-ok no_such_reference o w t ref found in
      let (item, kept) = L.get_reference_ok i s w o read in (item ∙ present, rw (← same) kept)

  -- Between the read of the reference and a write that tests its version, any requests but a Put of
  -- the reference may come. If DeleteEntries succeeds, the reference is then still the one read.
  pub delete_entries-fresh :
      (ids : List Bytes) (ref : Reference) (s t u v : D.State)
      → get_reference D ref.id s ≡ (ok ref, t)
      → Steps D t u
      → delete_entries D ids ref u ≡ (ok tt, v)
      → (D.tables u).references ref.id ≡ some ref
  unfolding delete_entries all_hold holds
  delete_entries-fresh ids ref s t u v read between done =
      let (at_s, kept) = get_reference_item_ok ref.id s t ref read in
      let at_t : reference_at t ref.id ≡ some ref =
        ap (λ (T : Tables). T.references ref.id) kept ∙ at_s in
      let ws : List Write = set_entries ref.id ref.version ref.entries ∷ [] in
      let tested : all_hold ws (D.tables u) ≡ true =
        all_hold-append (map delete_entry ids) ws (D.tables u)
          (L.transact_ok (map delete_entry ids ++ ws) u v done).0 in
      IsLater-same_version ref (reference_at u ref.id)
        (subst (λ o. IsLater o (reference_at u ref.id)) at_t (Steps-IsLater ref.id t u between))
        (ground arith)
