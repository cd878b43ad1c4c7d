-- ===== src/Awsfs/View/Delete.antt =====
-- What the transaction of DeleteEntries does to the tree, with the entries that RemoveAll gives it.
use webdav_serverless.Base.{
  Bool, true, false, none, some, List, [], ◌∷◌, ◌++◌, ◌≡◌, ◌≢◌, refl, sym, ap, ◌∙◌, subst, Bytes,
  bytes_eq, beq, beq_ne, beq→eq, if◌then◌else◌, arith, contains, Option-cases, Bool-cases, inl, inr,
  append_assoc,
}
use webdav_serverless.Base.Dict.{lookup}
use webdav_serverless.Path.{root, slash, filepath_dir, filepath_base, IsClean}
use webdav_serverless.Path.Parent.{filepath_dir-filepath_base}
use webdav_serverless.Awsfs.{Reference, Entry, reference_id}
use webdav_serverless.Awsfs.Dynamo.{Tables, set_entries, delete_entry, apply_write, apply_all}
use webdav_serverless.Awsfs.Metadata.Effects.{delete_writes}
use webdav_serverless.Awsfs.Tree.{is_below, remove_below}
use webdav_serverless.Awsfs.Tree.Remove.{
  lookup-remove_below, contains-remove_below, remove_below-contains, remove_below-NodupKeys,
}
use webdav_serverless.Awsfs.Tree.Rename.{
  is_below_lem, is_under, under, under-of-is_under, is_under-under,
}
use webdav_serverless.Awsfs.View.{
  view, IsTree, cut_at, entry_of, IsGone, view-listed, view-unlisted,
}
use webdav_serverless.Awsfs.View.Writes.{view-stored, next, set_entries-stored}

-- Deletion takes the entries with the ids away, and writes the reference.
entries-delete :
    (ids : List Bytes) (ref : Reference) (j : Bytes) (T : Tables)
    → (apply_all (delete_writes ids ref) T).entries j
      ≡ (if contains ids j then none else T.entries j)
unfolding apply_all apply_write contains
entries-delete [] ref j T = refl
entries-delete (i ∷ ids) ref j T =
    entries-delete ids ref j (apply_write (delete_entry i) T) ∙ ground arith

references-delete :
    (ids : List Bytes) (ref : Reference) (T : Tables)
    → (apply_all (delete_writes ids ref) T).references
      ≡ (apply_write (set_entries ref.id ref.version ref.entries) T).references
unfolding apply_all apply_write
references-delete [] ref T = refl
references-delete (i ∷ ids) ref T = references-delete ids ref (apply_write (delete_entry i) T)

root-ne-under : (path x : Bytes) → path ≢ [] → root ≢ under path x
unfolding under
root-ne-under [] x ne e = absurd (ne refl)
root-ne-under (c ∷ []) x ne e = cc
root-ne-under (c ∷ d ∷ path) x ne e = cc

under-is_below : (path k x : Bytes) → k ≡ under path x → is_below path k ≡ true
under-is_below path k x e =
    is_below_lem path k ∙ ground (arith, ap (is_under path) e ∙ is_under-under path x)

root-not_below : (path : Bytes) → path ≢ root → path ≢ [] → is_below path root ≡ false
root-not_below path ne ne' = elim (Bool-cases (is_under path root)) [
  | inl p ↦ let (x, e) = under-of-is_under path root p in absurd (root-ne-under path x ne' e)
  | inr p ↦ is_below_lem path root ∙ ground (arith, beq_ne root path (λ e. ne (sym e)))
]

-- A path is below another where its directory is.
pub is_below-filepath_dir :
    (path k : Bytes)
    → IsClean k
    → k ≢ root
    → path ≢ root
    → path ≢ []
    → is_below path (filepath_dir k) ≡ true
    → is_below path k ≡ true
unfolding under
is_below-filepath_dir path k h ne path_ne path_ne' below =
    let (_, _, whole) = filepath_dir-filepath_base k h ne in
    let base : Bytes = filepath_base k in
    let join : Bool → Bytes = λ b. (if b then [] else filepath_dir k) ++ slash ∷ base in
    elim (Bool-cases (beq (filepath_dir k) path)) [
      | inl p ↦
          let at : filepath_dir k ≡ path = beq→eq (filepath_dir k) path p in
          under-is_below path k base (
            whole
            ∙ ap join (beq_ne (filepath_dir k) root (λ q. path_ne (sym at ∙ q)))
            ∙ ap (λ d. under d base) at)
      | inr p ↦
          let (x, e) =
            under-of-is_under path (filepath_dir k)
              (ground (arith, below, is_below_lem path (filepath_dir k))) in
          let away : beq (filepath_dir k) root ≡ false =
            beq_ne (filepath_dir k) root (λ q. root-ne-under path x path_ne' (sym q ∙ e)) in
          under-is_below path k (x ++ slash ∷ base) (
            whole
            ∙ ap join away
            ∙ ap (λ d. d ++ slash ∷ base) e
            ∙ append_assoc path (slash ∷ x) (slash ∷ base))
    ]

module _ {T : Tables} {ref : Reference} (tree : IsTree T ref) (path : Bytes) where
  abbrev pub removed : Tables
  removed =
      apply_all
        (delete_writes (remove_below path ref.entries).1
          (record ref { entries = (remove_below path ref.entries).0 }))
        T

  removed-stored :
      removed.references reference_id ≡ some (next ref (remove_below path ref.entries).0)
  removed-stored =
      ap (λ f. f reference_id)
        (references-delete (remove_below path ref.entries).1
          (record ref { entries = (remove_below path ref.entries).0 }) T)
      ∙ set_entries-stored tree (remove_below path ref.entries).0

  -- The id of a path that stays is not among those to delete.
  stays :
      (k id : Bytes)
      → is_below path k ≡ false
      → lookup k ref.entries ≡ some id
      → contains (remove_below path ref.entries).1 id ≡ false
  stays k id h e = elim (Bool-cases (contains (remove_below path ref.entries).1 id)) [
    | inl p ↦
        let (j, below, found) = remove_below-contains path id ref.entries tree.nodup p in
        let same : j ≡ k = tree.distinct j k id found e in cc
    | inr p ↦ p
  ]

  pub view-remove : (k : Bytes) → view removed k ≡ cut_at path (view T) k
  view-remove k =
      view-stored removed (next ref (remove_below path ref.entries).0) k removed-stored
      ∙ ap (entry_of removed.entries) (lookup-remove_below path k ref.entries)
      ∙ elim (Option-cases (lookup k ref.entries)) [
        | inl p ↦ ground (arith, view-stored T ref k tree.stored)
        | inr (id, p) ↦ ground (
          arith,
          p,
          view-stored T ref k tree.stored,
          stays k id,
          entries-delete (remove_below path ref.entries).1
              (record ref { entries = (remove_below path ref.entries).0 }) id T,
        )
      ]

  pub remove-IsTree :
      path ≢ root → path ≢ [] → IsTree removed (next ref (remove_below path ref.entries).0)
  remove-IsTree ne ne' = record {
    stored = removed-stored;
    named = tree.named;
    nodup = remove_below-NodupKeys path ref.entries tree.nodup;
    has_root = ground (
      arith,
      lookup-remove_below path root ref.entries,
      tree.has_root,
      root-not_below path ne ne',
    );
    clean = λ k h. ground (arith, lookup-remove_below path k ref.entries, tree.clean k);
    has_parent = λ k h k_ne. ground (
      arith,
      lookup-remove_below path k ref.entries,
      lookup-remove_below path (filepath_dir k) ref.entries,
      tree.has_parent k,
      tree.clean k,
      is_below-filepath_dir path k,
    );
    has_entry = λ k id h.
        let (e, q, r) =
          tree.has_entry k id (ground (arith, lookup-remove_below path k ref.entries)) in
        (
          e,
          ground (
            arith,
            q,
            stays k id,
            lookup-remove_below path k ref.entries,
            entries-delete (remove_below path ref.entries).1
                (record ref { entries = (remove_below path ref.entries).0 }) id T,
          ),
          r,
        );
    distinct = λ j k id h h'. ground (
      arith,
      lookup-remove_below path k ref.entries,
      lookup-remove_below path j ref.entries,
      tree.distinct j k id,
    );
  }

  -- The entries of the paths that are taken away are gone.
  pub remove-IsGone : (k : Bytes) → IsGone (is_below path k) (view T k) removed
  remove-IsGone k = elim (Option-cases (lookup k ref.entries)) [
    | inl p ↦
        subst (λ o. IsGone (is_below path k) o removed) (sym (view-unlisted T ref tree k p))
          (nothing (is_below path k))
    | inr (id, p) ↦
        let (e, at, found, is) = view-listed T ref tree k id p in
        subst (λ o. IsGone (is_below path k) o removed) (sym found)
          (go e id p is (is_below path k) refl)
  ]
    where
      nothing : (b : Bool) → IsGone b none removed
      nothing true = tt
      nothing false = tt

      go :
          (e : Entry) (id : Bytes)
          → lookup k ref.entries ≡ some id
          → e.id ≡ id
          → (b : Bool) → is_below path k ≡ b
          → IsGone b (some e) removed
      go e id p is true h =
          ap removed.entries is
          ∙ entries-delete (remove_below path ref.entries).1
              (record ref { entries = (remove_below path ref.entries).0 }) id T
          ∙ ground (arith, contains-remove_below path k id ref.entries h p)
      go e id p is false h = tt
