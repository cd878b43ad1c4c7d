-- ===== src/Awsfs/Dynamo.antt =====
-- The requests of awsfs/metadata.go to DynamoDB, a service that is not part of the program: a
-- client is a parameter, and what the program relies on are laws of it.
pub mod Memory
use webdav_serverless.Base.{
  ℕ, ◌+◌, Bool, true, false, ◌&&◌, Option, none, some, List, [], ◌∷◌, ◌≡◌, refl, Bytes, bytes_eq,
  beq, ◌==◌, if◌then◌else◌,
}
use webdav_serverless.Base.Dict.{Dict}
use webdav_serverless.Errors.{Error, Result, ok, err, Effect}
use webdav_serverless.Awsfs.{Entries, Reference, Entry}

-- The items of a TransactWriteItems request, as the program writes them. An update has the condition
-- that the item has the version given, and adds 1 to it.
pub data Write : Type 0 where
  put_entry : Entry → Write
  put_reference : Reference → Write
  set_entries : Bytes → ℕ → Entries → Write
  set_name : Bytes → ℕ → Bytes → Bytes → Write
  delete_entry : Bytes → Write

-- UpdateItem of an entry: its id, the version that it must have, and the new attributes.
pub record Attributes : Type 0 where
  pub size : ℕ
  pub modify : ℕ
  pub dead_props : Dict Bytes Bytes

-- The two tables, by id.
pub record Tables : Type 0 where
  pub references : Bytes → Option Reference
  pub entries : Bytes → Option Entry

abbrev pub update {ℓ} : {A : Type ℓ} → (Bytes → A) → Bytes → A → Bytes → A
update f k v j = if beq j k then v else f j

abbrev pub reference_has : ℕ → Option Reference → Bool
reference_has v none = false
reference_has v (some r) = r.version == v

abbrev pub entry_has : ℕ → Option Entry → Bool
entry_has v none = false
entry_has v (some e) = e.version == v

-- The condition of a write.
unfoldable pub holds : Write → Tables → Bool
holds (put_entry e) t = true
holds (put_reference r) t = true
holds (set_entries i v es) t = reference_has v (t.references i)
holds (set_name i v n p) t = entry_has v (t.entries i)
holds (delete_entry i) t = true

abbrev pub with_entries : Entries → Option Reference → Option Reference
with_entries es none = none
with_entries es (some r) = some (record r { entries = es; version = r.version + 1 })

abbrev pub with_name : Bytes → Bytes → Option Entry → Option Entry
with_name n p none = none
with_name n p (some e) = some (record e { name = n; parent_id = p; version = e.version + 1 })

abbrev pub with_attributes : Attributes → Option Entry → Option Entry
with_attributes a none = none
with_attributes a (some e) = some (record e {
  size = a.size;
  modify = a.modify;
  dead_props = a.dead_props;
  version = e.version + 1;
})

unfoldable pub apply_write : Write → Tables → Tables
apply_write (put_entry e) t = record t { entries = update t.entries e.id (some e) }
apply_write (put_reference r) t = record t { references = update t.references r.id (some r) }
apply_write (set_entries i v es) t = record t {
  references = update t.references i (with_entries es (t.references i));
}
apply_write (set_name i v n p) t = record t {
  entries = update t.entries i (with_name n p (t.entries i));
}
apply_write (delete_entry i) t = record t { entries = update t.entries i none }

-- All conditions are tested on the tables as they were.
unfoldable pub all_hold : List Write → Tables → Bool
unfolding holds
all_hold [] t = true
all_hold (w ∷ ws) t = holds w t && all_hold ws t

unfoldable pub apply_all : List Write → Tables → Tables
unfolding apply_write
apply_all [] t = t
apply_all (w ∷ ws) t = apply_all ws (apply_write w t)

unfoldable pub apply_attributes : Bytes → Attributes → Tables → Tables
apply_attributes i a t = record t { entries = update t.entries i (with_attributes a (t.entries i)) }

unfoldable pub entry_holds : Bytes → ℕ → Tables → Bool
entry_holds i v t = entry_has v (t.entries i)

pub record Dynamo : Type 1 where
  pub State : Type 0
  pub tables : State → Tables
  pub get_reference_item : Bytes → Effect State (Option Reference)
  pub get_entry_item : Bytes → Effect State (Option Entry)
  pub query_parent : Bytes → Effect State (List Entry)
  pub transact : List Write → Effect State (Unit {0})
  pub put_reference_item : Reference → Effect State (Unit {0})
  pub update_entry_item : Bytes → ℕ → Attributes → Effect State (Unit {0})

-- What DynamoDB documents: a consistent read returns the item as it is, a write takes place only
-- where its condition holds, a transaction is all or nothing, and a request that fails writes
-- nothing. Any request may fail.
pub record IsLawful (D : Dynamo) : Type 0 where
  pub get_reference_ok :
      (i : Bytes) (s t : D.State) (r : Option Reference)
      → D.get_reference_item i s ≡ (ok r, t)
      → ((D.tables s).references i ≡ r) × (D.tables t ≡ D.tables s)
  pub get_reference_err :
      (i : Bytes) (s t : D.State) (e : Error)
      → D.get_reference_item i s ≡ (err e, t)
      → (e ≡ Error.service) × (D.tables t ≡ D.tables s)
  pub get_entry_ok :
      (i : Bytes) (s t : D.State) (r : Option Entry)
      → D.get_entry_item i s ≡ (ok r, t)
      → ((D.tables s).entries i ≡ r) × (D.tables t ≡ D.tables s)
  pub get_entry_err :
      (i : Bytes) (s t : D.State) (e : Error)
      → D.get_entry_item i s ≡ (err e, t)
      → (e ≡ Error.service) × (D.tables t ≡ D.tables s)
  pub transact_ok :
      (ws : List Write) (s t : D.State)
      → D.transact ws s ≡ (ok tt, t)
      → (all_hold ws (D.tables s) ≡ true) × (D.tables t ≡ apply_all ws (D.tables s))
  pub transact_err :
      (ws : List Write) (s t : D.State) (e : Error)
      → D.transact ws s ≡ (err e, t)
      → (e ≡ Error.service) × (D.tables t ≡ D.tables s)
  pub update_ok :
      (i : Bytes) (v : ℕ) (a : Attributes) (s t : D.State)
      → D.update_entry_item i v a s ≡ (ok tt, t)
      → (entry_holds i v (D.tables s) ≡ true) × (D.tables t ≡ apply_attributes i a (D.tables s))
  pub update_err :
      (i : Bytes) (v : ℕ) (a : Attributes) (s t : D.State) (e : Error)
      → D.update_entry_item i v a s ≡ (err e, t)
      → (e ≡ Error.service) × (D.tables t ≡ D.tables s)
