-- ===== src/Awsfs/View/Init.antt =====
-- The outcomes of MetadataStore.Init (awsfs/metadata.go).
use webdav_serverless.Base.{
  ℕ, none, some, List, [], ◌∷◌, ◌≡◌, ◌≢◌, refl, sym, ap, ◌∙◌, subst, Bytes, bytes_eq, beq, beq_refl,
  beq→eq, if◌then◌else◌, arith, ◌⊎◌, inl, inr,
}
use webdav_serverless.Base.Dict.{lookup, lookup-nil}
use webdav_serverless.Errors.{service, Result, ok, err, Post, outcome-cases}
use webdav_serverless.Path.{root, IsClean}
use webdav_serverless.Path.Clean.{root-IsClean}
use webdav_serverless.Awsfs.{Reference, reference_id}
use webdav_serverless.Awsfs.Dynamo.{
  Dynamo, IsLawful, Tables, Write, put_entry, put_reference, apply_write, apply_all,
}
use webdav_serverless.Awsfs.Metadata.{init, after_lookup, get_reference, root_entry, root_reference}
use webdav_serverless.Awsfs.Metadata.Effects.{ReferencePost, get_reference-Post}
use webdav_serverless.Awsfs.View.{view, IsTree}
use webdav_serverless.Awsfs.View.Writes.{view-stored}

abbrev pub init_writes : Bytes → ℕ → List Write
init_writes entry_id now =
    put_entry (root_entry entry_id now) ∷ put_reference (root_reference entry_id) ∷ []

pub lookup-root :
    (entry_id k : Bytes)
    → lookup k (root_reference entry_id).entries ≡ (if beq k root then some entry_id else none)
unfolding lookup root_reference
lookup-root entry_id k = refl

pub init_writes-IsTree :
    (entry_id : Bytes) (now : ℕ) (T : Tables)
    → IsTree (apply_all (init_writes entry_id now) T) (root_reference entry_id)
unfolding apply_all apply_write root_reference root_entry
init_writes-IsTree entry_id now T = record {
  stored = ground (arith, beq_refl reference_id);
  named = refl;
  nodup = (lookup-nil root, tt);
  has_root = ground (arith, lookup-root entry_id root, beq_refl root);
  clean = λ k h.
      subst IsClean (sym (beq→eq k root (ground (arith, lookup-root entry_id k)))) root-IsClean;
  has_parent = λ k h ne. ground (arith, lookup-root entry_id k);
  has_entry = λ k id h. (
    root_entry entry_id now,
    ground (arith, lookup-root entry_id k, beq_refl entry_id),
    ground (arith, lookup-root entry_id k),
  );
  distinct = λ j k id h h'. ground (arith, lookup-root entry_id k, lookup-root entry_id j);
}

module _ (D : Dynamo) (L : IsLawful D) where
  -- The outcome of Init.
  pub InitPost : Bytes → ℕ → D.State → Result (Unit {0}) → D.State → Type 0
  InitPost entry_id now s (ok u) t =
      (((D.tables s).references reference_id ≢ none) × (D.tables t ≡ D.tables s))
      ⊎ (((D.tables s).references reference_id ≡ none)
          × IsTree (D.tables t) (root_reference entry_id)
          × ((k : Bytes)
              → view (D.tables t) k
                ≡ (if beq k root then some (root_entry entry_id now) else none)))
  InitPost entry_id now s (err e) t = (e ≡ service) × (D.tables t ≡ D.tables s)

  view-init :
      (entry_id : Bytes) (now : ℕ) (T : Tables) (k : Bytes)
      → view (apply_all (init_writes entry_id now) T) k
        ≡ (if beq k root then some (root_entry entry_id now) else none)
  unfolding apply_all apply_write root_entry
  view-init entry_id now T k =
      view-stored _ (root_reference entry_id) k ((init_writes-IsTree entry_id now T).stored)
      ∙ ground (arith, lookup-root entry_id k, beq_refl entry_id)

  started :
      (entry_id : Bytes) (now : ℕ) (s t : D.State)
      → (D.tables s).references reference_id ≡ none
      → D.tables t ≡ D.tables s
      → Post (InitPost entry_id now s) (D.transact (init_writes entry_id now) t)
  unfolding InitPost
  started entry_id now s t absent same =
      outcome-cases (InitPost entry_id now s) (D.transact (init_writes entry_id now) t)
        (λ e u p. let h = L.transact_err (init_writes entry_id now) t u e p in (h.0, h.1 ∙ same))
        (λ x u p.
          let h = (L.transact_ok (init_writes entry_id now) t u p).1 in
          inr (
            absent,
            subst (λ T. IsTree T (root_reference entry_id)) (sym h)
                (init_writes-IsTree entry_id now (D.tables t)),
            (λ k. ap (λ T. view T k) h ∙ view-init entry_id now (D.tables t) k),
          ))

  after_lookup-Post :
      (entry_id : Bytes) (now : ℕ) (s : D.State) (r : Result Reference) (t : D.State)
      → ReferencePost D reference_id s r t
      → Post (InitPost entry_id now s) (after_lookup D entry_id now r t)
  unfolding after_lookup InitPost
  after_lookup-Post entry_id now s (ok ref) t h =
      inl ((λ e. let bad : none ≡ some ref = sym e ∙ h.0 in cc), h.1)
  after_lookup-Post entry_id now s (err e) t (inl p, h) =
      subst (λ e. Post (InitPost entry_id now s) (after_lookup D entry_id now (err e) t)) (sym p)
        (refl, h)
  after_lookup-Post entry_id now s (err e) t (inr (p, absent), h) =
      subst (λ e. Post (InitPost entry_id now s) (after_lookup D entry_id now (err e) t)) (sym p)
        (started entry_id now s t absent h)

  -- Init. Where there is a reference it changes nothing. Where there is none it makes the tables a
  -- tree of the root alone, a directory with the given id. It fails only where the service does, and
  -- then the tables are as they were.
  pub init-Post :
      (entry_id : Bytes) (now : ℕ) (s : D.State)
      → Post (InitPost entry_id now s) (init D entry_id now s)
  unfolding init
  init-Post entry_id now s =
      go (get_reference D reference_id s) (get_reference-Post D L reference_id s)
    where
      go :
          (o : Result Reference × D.State)
          → Post (ReferencePost D reference_id s) o
          → Post (InitPost entry_id now s) (after_lookup D entry_id now o.0 o.1)
      go (r, t) h = after_lookup-Post entry_id now s r t h
