-- ===== src/Awsfs/Server/Known.antt =====
-- What the calls of the metadata store give on a tree, as rules for the methods of Server.
use mathlib.Core.Option.{some-injective}
use webdav_serverless.Base.{
  true, false, Option, none, some, List, ◌≡◌, ◌⊎◌, inl, inr, refl, sym, ap, ◌∙◌, subst, Bytes,
  bytes_eq,
}
use webdav_serverless.Errors.{
  Error, no_such_reference, no_such_entry, service, Result, ok, err, Effect, Post, ◌>>=◌,
}
use webdav_serverless.Awsfs.{Entry, Reference, reference_id}
use webdav_serverless.Awsfs.Dynamo.{Dynamo, Tables, apply_all, apply_attributes}
use webdav_serverless.Awsfs.Dynamo
use webdav_serverless.Awsfs.Objects.{Objects}
use webdav_serverless.Awsfs.Metadata.{
  get_reference, get_entry, add_entry, delete_entries, update_entry_name, update_entry,
}
use webdav_serverless.Awsfs.Metadata.Effects.{
  ReferencePost, get_reference-Post, EntryPost, get_entry-Post, AddPost, add_entry-Post, WritesPost,
  delete_entries-Post, add_writes, delete_writes, name_writes, update_entry_name-Post, UpdatePost,
  update_entry-Post, attributes,
}
use webdav_serverless.Awsfs.Server.{World, on_db, is_present}
use webdav_serverless.Awsfs.Server.Cases.{db-cases, db-last}
use webdav_serverless.Awsfs.View.{IsTree}

pub is_present-none : (o : Option Bytes) → is_present o ≡ false → o ≡ none
is_present-none none h = refl
is_present-none (some x) h = cc

pub is_present-some : (o : Option Bytes) → is_present o ≡ true → (i : Bytes) × (o ≡ some i)
is_present-some none h = cc
is_present-some (some x) h = (x, refl)

-- The reference that is read is the one of the tree.
same_reference :
    (S T : Tables) (ref found : Reference)
    → IsTree T ref
    → S ≡ T
    → S.references reference_id ≡ some found
    → found ≡ ref
same_reference S T ref found tree same here =
    some-injective found ref
      (sym here ∙ ap (λ (T : Tables). T.references reference_id) same ∙ tree.stored)

-- On a tree the read of the reference fails only where the service does.
only_service :
    (S T : Tables) (ref : Reference) (e : Error)
    → IsTree T ref
    → S ≡ T
    → (e ≡ service) ⊎ ((e ≡ no_such_reference) × (S.references reference_id ≡ none))
    → e ≡ service
only_service S T ref e tree same (inl p) = p
only_service S T ref e tree same (inr (_, p)) =
    absurd (cc (sym p ∙ ap (λ (T : Tables). T.references reference_id) same ∙ tree.stored))

entry_only_service :
    (S T : Tables) (i : Bytes) (x : Entry) (e : Error)
    → T.entries i ≡ some x
    → S ≡ T
    → (e ≡ service) ⊎ ((e ≡ no_such_entry) × (S.entries i ≡ none))
    → e ≡ service
entry_only_service S T i x e at same (inl p) = p
entry_only_service S T i x e at same (inr (_, p)) =
    absurd (cc (sym p ∙ ap (λ (T : Tables). T.entries i) same ∙ at))

module _ {D : Dynamo} {P : Objects} {B : Type 0} (L : Dynamo.IsLawful D)
    (Q : Result B → World D P → Type 0) (w : World D P) (T : Tables) (at : D.tables w.db ≡ T) where
  pub reference-cases :
      (ref : Reference) (f : Reference → Effect (World D P) B)
      → IsTree T ref
      → ((s : D.State) → D.tables s ≡ T → Q (err service) (record w { db = s }))
      → ((s : D.State) → D.tables s ≡ T → Post Q (f ref (record w { db = s })))
      → Post Q ((on_db D P (get_reference D reference_id) >>= f) w)
  reference-cases ref f tree failed done =
      db-cases Q (ReferencePost D reference_id w.db) (get_reference D reference_id) f w
        (get_reference-Post D L reference_id w.db)
        (λ e s h.
          subst (λ e. Q (err e) (record w { db = s }))
            (sym (only_service (D.tables w.db) T ref e tree at h.0)) (failed s (h.1 ∙ at)))
        (λ found s h.
          subst (λ r. Post Q (f r (record w { db = s })))
            (sym (same_reference (D.tables w.db) T ref found tree at h.0)) (done s (h.1 ∙ at)))

  pub entry-cases :
      (i : Bytes) (x : Entry) (f : Entry → Effect (World D P) B)
      → T.entries i ≡ some x
      → ((s : D.State) → D.tables s ≡ T → Q (err service) (record w { db = s }))
      → ((s : D.State) → D.tables s ≡ T → Post Q (f x (record w { db = s })))
      → Post Q ((on_db D P (get_entry D i) >>= f) w)
  entry-cases i x f stored failed done =
      db-cases Q (EntryPost D i w.db) (get_entry D i) f w (get_entry-Post D L i w.db)
        (λ e s h.
          subst (λ e. Q (err e) (record w { db = s }))
            (sym (entry_only_service (D.tables w.db) T i x e stored at h.0)) (failed s (h.1 ∙ at)))
        (λ found s h.
          subst (λ r. Post Q (f r (record w { db = s })))
            (some-injective x found (sym stored ∙ ap (λ (T : Tables). T.entries i) (sym at) ∙ h.0))
            (done s (h.1 ∙ at)))

module _ {D : Dynamo} {P : Objects} {B : Type 0} (L : Dynamo.IsLawful D)
    (Q : Result B → World D P → Type 0) (w : World D P) (T : Tables) (at : D.tables w.db ≡ T) where
  pub add-cases :
      (ref : Reference) (x : Entry) (path : Bytes) (f : Unit {0} → Effect (World D P) B)
      → IsTree T ref
      → ((s : D.State) → D.tables s ≡ T → Q (err service) (record w { db = s }))
      → ((s : D.State)
          → D.tables s ≡ apply_all (add_writes x path ref) T
          → Post Q (f tt (record w { db = s })))
      → Post Q ((on_db D P (add_entry D x path) >>= f) w)
  add-cases ref x path f tree failed done =
      db-cases Q (AddPost D x path w.db) (add_entry D x path) f w (add_entry-Post D L x path w.db)
        (λ e s h.
          subst (λ e. Q (err e) (record w { db = s }))
            (sym (only_service (D.tables w.db) T ref e tree at h.0)) (failed s (h.1 ∙ at)))
        (λ u s (found, here, changed). done s (
          changed
          ∙ ap (λ r. apply_all (add_writes x path r) (D.tables w.db))
              (same_reference (D.tables w.db) T ref found tree at here)
          ∙ ap (apply_all (add_writes x path ref)) at))

  pub update-cases :
      (x : Entry) (f : Unit {0} → Effect (World D P) B)
      → ((s : D.State) → D.tables s ≡ T → Q (err service) (record w { db = s }))
      → ((s : D.State)
          → D.tables s ≡ apply_attributes x.id (attributes x) T
          → Post Q (f tt (record w { db = s })))
      → Post Q ((on_db D P (update_entry D x) >>= f) w)
  update-cases x f failed done =
      db-cases Q (UpdatePost D x w.db) (update_entry D x) f w (update_entry-Post D L x w.db)
        (λ e s h. subst (λ e. Q (err e) (record w { db = s })) (sym h.0) (failed s (h.1 ∙ at)))
        (λ u s h. done s (h.1 ∙ ap (apply_attributes x.id (attributes x)) at))

module _ {D : Dynamo} {P : Objects} (L : Dynamo.IsLawful D)
    (Q : Result (Unit {0}) → World D P → Type 0) (w : World D P) (T : Tables)
    (at : D.tables w.db ≡ T) where
  pub add-last :
      (ref : Reference) (x : Entry) (path : Bytes)
      → IsTree T ref
      → ((s : D.State) → D.tables s ≡ T → Q (err service) (record w { db = s }))
      → ((s : D.State)
          → D.tables s ≡ apply_all (add_writes x path ref) T
          → Q (ok tt) (record w { db = s }))
      → Post Q (on_db D P (add_entry D x path) w)
  add-last ref x path tree failed done =
      db-last Q (AddPost D x path w.db) (add_entry D x path) w (add_entry-Post D L x path w.db)
        (λ e s h.
          subst (λ e. Q (err e) (record w { db = s }))
            (sym (only_service (D.tables w.db) T ref e tree at h.0)) (failed s (h.1 ∙ at)))
        (λ u s (found, here, changed). done s (
          changed
          ∙ ap (λ r. apply_all (add_writes x path r) (D.tables w.db))
              (same_reference (D.tables w.db) T ref found tree at here)
          ∙ ap (apply_all (add_writes x path ref)) at))

  pub delete-last :
      (ids : List Bytes) (ref : Reference)
      → ((s : D.State) → D.tables s ≡ T → Q (err service) (record w { db = s }))
      → ((s : D.State)
          → D.tables s ≡ apply_all (delete_writes ids ref) T
          → Q (ok tt) (record w { db = s }))
      → Post Q (on_db D P (delete_entries D ids ref) w)
  delete-last ids ref failed done =
      db-last Q (WritesPost D (delete_writes ids ref) w.db) (delete_entries D ids ref) w
        (delete_entries-Post D L ids ref w.db)
        (λ e s h. subst (λ e. Q (err e) (record w { db = s })) (sym h.0) (failed s (h.1 ∙ at)))
        (λ u s h. done s (h.1 ∙ ap (apply_all (delete_writes ids ref)) at))

  pub name-last :
      (x : Entry) (ref : Reference)
      → ((s : D.State) → D.tables s ≡ T → Q (err service) (record w { db = s }))
      → ((s : D.State)
          → D.tables s ≡ apply_all (name_writes x ref) T
          → Q (ok tt) (record w { db = s }))
      → Post Q (on_db D P (update_entry_name D x ref) w)
  name-last x ref failed done =
      db-last Q (WritesPost D (name_writes x ref) w.db) (update_entry_name D x ref) w
        (update_entry_name-Post D L x ref w.db)
        (λ e s h. subst (λ e. Q (err e) (record w { db = s })) (sym h.0) (failed s (h.1 ∙ at)))
        (λ u s h. done s (h.1 ∙ ap (apply_all (name_writes x ref)) at))
