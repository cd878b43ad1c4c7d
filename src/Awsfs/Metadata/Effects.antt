-- ===== src/Awsfs/Metadata/Effects.antt =====
-- What the methods of MetadataStore do to the tables, where they succeed and where they fail.
use webdav_serverless.Base.{
  subst, true, Option, none, some, List, [], ◌∷◌, ◌++◌, ◌≡◌, ◌⊎◌, inl, inr, refl, ap, ◌∙◌, Bytes,
  bytes_eq, map,
}
use webdav_serverless.Base.Dict.{insert}
use webdav_serverless.Errors.{
  no_such_reference, no_such_entry, service, Result, ok, err, need, Post, outcome-cases, bind-cases,
}
use webdav_serverless.Awsfs.{Reference, Entry, reference_id}
use webdav_serverless.Awsfs.Dynamo.{
  Dynamo, IsLawful, Write, put_entry, set_entries, set_name, delete_entry, Attributes, all_hold,
  apply_all, entry_holds, apply_attributes,
}
use webdav_serverless.Awsfs.Metadata.{
  get_reference, get_entry, add_entry, update_entry, update_entry_name, delete_entries,
}

abbrev pub attributes : Entry → Attributes
attributes entry = record {
  size = entry.size;
  modify = entry.modify;
  dead_props = entry.dead_props;
}

-- The writes of `AddEntry`, `UpdateEntryName` and `DeleteEntries`.
abbrev pub add_writes : Entry → Bytes → Reference → List Write
add_writes entry path ref =
    put_entry entry ∷ set_entries ref.id ref.version (insert path entry.id ref.entries) ∷ []

abbrev pub name_writes : Entry → Reference → List Write
name_writes entry ref =
    set_name entry.id entry.version entry.name entry.parent_id
    ∷ set_entries ref.id ref.version ref.entries
    ∷ []

abbrev pub delete_writes : List Bytes → Reference → List Write
delete_writes ids ref = map delete_entry ids ++ set_entries ref.id ref.version ref.entries ∷ []

module _ (D : Dynamo) where
  abbrev pub ReferencePost : Bytes → D.State → Result Reference → D.State → Type 0
  ReferencePost i s (ok ref) t = ((D.tables s).references i ≡ some ref) × (D.tables t ≡ D.tables s)
  ReferencePost i s (err e) t =
      ((e ≡ service) ⊎ ((e ≡ no_such_reference) × ((D.tables s).references i ≡ none)))
      × (D.tables t ≡ D.tables s)

  abbrev pub EntryPost : Bytes → D.State → Result Entry → D.State → Type 0
  EntryPost i s (ok x) t = ((D.tables s).entries i ≡ some x) × (D.tables t ≡ D.tables s)
  EntryPost i s (err e) t =
      ((e ≡ service) ⊎ ((e ≡ no_such_entry) × ((D.tables s).entries i ≡ none)))
      × (D.tables t ≡ D.tables s)

  -- A transaction: all of its writes or none.
  abbrev pub WritesPost : List Write → D.State → Result (Unit {0}) → D.State → Type 0
  WritesPost ws s (ok u) t =
      (all_hold ws (D.tables s) ≡ true) × (D.tables t ≡ apply_all ws (D.tables s))
  WritesPost ws s (err e) t = (e ≡ service) × (D.tables t ≡ D.tables s)

  abbrev pub AddPost : Entry → Bytes → D.State → Result (Unit {0}) → D.State → Type 0
  AddPost entry path s (ok u) t =
      (ref : Reference) × ((D.tables s).references reference_id ≡ some ref)
      × (D.tables t ≡ apply_all (add_writes entry path ref) (D.tables s))
  AddPost entry path s (err e) t =
      ((e ≡ service) ⊎ ((e ≡ no_such_reference) × ((D.tables s).references reference_id ≡ none)))
      × (D.tables t ≡ D.tables s)

  -- `UpdateEntry`: the entry must have the version that was read.
  abbrev pub UpdatePost : Entry → D.State → Result (Unit {0}) → D.State → Type 0
  UpdatePost entry s (ok u) t =
      (entry_holds entry.id entry.version (D.tables s) ≡ true)
      × (D.tables t ≡ apply_attributes entry.id (attributes entry) (D.tables s))
  UpdatePost entry s (err e) t = (e ≡ service) × (D.tables t ≡ D.tables s)

module _ (D : Dynamo) (L : IsLawful D) where
  need-Post :
      (i : Bytes) (s t : D.State) (o : Option Reference)
      → (D.tables s).references i ≡ o
      → D.tables t ≡ D.tables s
      → Post (ReferencePost D i s) (need no_such_reference o t)
  need-Post i s t none h k = (inr (refl, h), k)
  need-Post i s t (some ref) h k = (h, k)

  pub get_reference-Post :
      (i : Bytes) (s : D.State) → Post (ReferencePost D i s) (get_reference D i s)
  unfolding get_reference
  get_reference-Post i s =
      bind-cases (ReferencePost D i s) (D.get_reference_item i) _ s
        (λ e t p. let h = L.get_reference_err i s t e p in (inl h.0, h.1))
        (λ o t p.
          need-Post i s t o ((L.get_reference_ok i s t o p).0) ((L.get_reference_ok i s t o p).1))

  need-EntryPost :
      (i : Bytes) (s t : D.State) (o : Option Entry)
      → (D.tables s).entries i ≡ o
      → D.tables t ≡ D.tables s
      → Post (EntryPost D i s) (need no_such_entry o t)
  need-EntryPost i s t none h k = (inr (refl, h), k)
  need-EntryPost i s t (some x) h k = (h, k)

  pub get_entry-Post : (i : Bytes) (s : D.State) → Post (EntryPost D i s) (get_entry D i s)
  unfolding get_entry
  get_entry-Post i s =
      bind-cases (EntryPost D i s) (D.get_entry_item i) _ s
        (λ e t p. let h = L.get_entry_err i s t e p in (inl h.0, h.1))
        (λ o t p.
          need-EntryPost i s t o ((L.get_entry_ok i s t o p).0) ((L.get_entry_ok i s t o p).1))

  pub transact-Post : (ws : List Write) (s : D.State) → Post (WritesPost D ws s) (D.transact ws s)
  transact-Post ws s =
      outcome-cases (WritesPost D ws s) (D.transact ws s) (λ e t p. L.transact_err ws s t e p)
        (λ u t p. L.transact_ok ws s t p)

  pub update_entry_name-Post :
      (entry : Entry) (ref : Reference) (s : D.State)
      → Post (WritesPost D (name_writes entry ref) s) (update_entry_name D entry ref s)
  unfolding update_entry_name
  update_entry_name-Post entry ref s = transact-Post (name_writes entry ref) s

  pub delete_entries-Post :
      (ids : List Bytes) (ref : Reference) (s : D.State)
      → Post (WritesPost D (delete_writes ids ref) s) (delete_entries D ids ref s)
  unfolding delete_entries
  delete_entries-Post ids ref s = transact-Post (delete_writes ids ref) s

  add_entry-transact :
      (entry : Entry) (path : Bytes) (ref : Reference) (s t : D.State)
      → (D.tables s).references reference_id ≡ some ref
      → D.tables t ≡ D.tables s
      → Post (AddPost D entry path s) (D.transact (add_writes entry path ref) t)
  add_entry-transact entry path ref s t here same =
      outcome-cases (AddPost D entry path s) (D.transact (add_writes entry path ref) t)
        (λ e u p.
          let h = L.transact_err (add_writes entry path ref) t u e p in (inl h.0, h.1 ∙ same))
        (λ x u p. (
          ref,
          here,
          (L.transact_ok (add_writes entry path ref) t u p).1
              ∙ ap (apply_all (add_writes entry path ref)) same,
        ))

  pub add_entry-Post :
      (entry : Entry) (path : Bytes) (s : D.State)
      → Post (AddPost D entry path s) (add_entry D entry path s)
  unfolding add_entry
  add_entry-Post entry path s =
      bind-cases (AddPost D entry path s) (get_reference D reference_id) _ s
        (λ e t p.
          subst (Post (ReferencePost D reference_id s)) p (get_reference-Post reference_id s))
        (λ ref t p.
          let h =
            subst (Post (ReferencePost D reference_id s)) p (get_reference-Post reference_id s) in
          add_entry-transact entry path ref s t h.0 h.1)

  pub update_entry-Post :
      (entry : Entry) (s : D.State) → Post (UpdatePost D entry s) (update_entry D entry s)
  unfolding update_entry
  update_entry-Post entry s =
      outcome-cases (UpdatePost D entry s)
        (D.update_entry_item entry.id entry.version (attributes entry) s)
        (λ e t p. L.update_err entry.id entry.version (attributes entry) s t e p)
        (λ u t p. L.update_ok entry.id entry.version (attributes entry) s t p)
