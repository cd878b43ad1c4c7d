-- ===== src/Awsfs/Tree/Moves.antt =====
-- The entries that Rename writes, for a file and for a directory (awsfs/rename.go).
use mathlib.Core.Option.{or_else}
use webdav_serverless.Base.{
  ◌<◌, true, false, none, some, List, ◌∷◌, ◌≡◌, ◌≢◌, sym, ap, ◌∙◌, Bytes, bytes_eq, beq,
  if◌then◌else◌, arith, contains, Bool-cases, inl, inr, length, length-append,
}
use webdav_serverless.Base.Dict.{insert, lookup, erase, lookup-insert, lookup-erase}
use webdav_serverless.Path.{slash}
use webdav_serverless.Awsfs.{Entries, file, dir}
use webdav_serverless.Awsfs.Tree.{is_below, rename_children, rename_entries, replace_prefix}
use webdav_serverless.Awsfs.Tree.Rename.{
  is_under, under, is_under-under, under-of-is_under, replace_prefix-under, not_both,
  children_under_old, is_below_lem, children_under_new, children_elsewhere,
}

-- The entries before the loop of Rename: `old` has become `new`.
abbrev pub moved : Bytes → Bytes → Bytes → Entries → Entries
moved id old new es = erase old (insert new id es)

lookup-moved :
    (id old new j : Bytes) (es : Entries)
    → lookup j (moved id old new es)
      ≡ (if beq j old then none else if beq j new then some id else lookup j es)
lookup-moved id old new j es =
    ground (arith, lookup-erase j old (insert new id es), lookup-insert j new id es)

length-under : (d x : Bytes) → length d < length (under d x)
unfolding under
length-under d x = omega (arith, length-append {0} d (slash ∷ x))

pub is_under-ne : (d k : Bytes) → is_under d k ≡ true → k ≢ d
is_under-ne d k h e =
    let (x, p) = under-of-is_under d k h in
    absurd (omega (arith, length-under d x, ap length (sym e ∙ p)))

-- A file: its path alone changes.
pub rename_entries-file :
    (order : Entries → List Bytes) (id old new j : Bytes) (es : Entries)
    → lookup j (rename_entries order file id old new es)
      ≡ (if beq j old then none else if beq j new then some id else lookup j es)
unfolding rename_entries
rename_entries-file order id old new j es = lookup-moved id old new j es

-- What a range over the map of Rename gives: each key below `old` that the map has, at least.
abbrev pub Covers : Bytes → Entries → List Bytes → Type 0
Covers old es order =
    (k : Bytes) → is_under old k ≡ true → lookup k es ≢ none → contains order k ≡ true

module _ (id old new : Bytes) (es : Entries) (order : List Bytes) (apart : is_below old new ≡ false)
    (apart' : is_below new old ≡ false) (covers : Covers old (moved id old new es) order) where
  arrives :
      (x : Bytes)
      → lookup (under new x) (rename_children old new order (moved id old new es))
        ≡ or_else (lookup (under old x) es) (lookup (under new x) es)
  unfolding or_else
  arrives x =
      let ms : Entries = moved id old new es in
      children_under_new old new apart apart' order ms x
      ∙ ground (
        arith,
        covers (under old x) (is_under-under old x),
        lookup-moved id old new (under old x) es,
        lookup-moved id old new (under new x) es,
        is_under-ne old (under old x) (is_under-under old x),
        is_under-ne new (under new x) (is_under-under new x),
        not_both old new apart apart' (under old x) (is_under-under old x),
        not_both old new apart apart' (under new x),
        is_under-under new x,
        is_under-under old x,
        is_below_lem old new,
        is_below_lem new old,
      )

-- A directory, where neither path is the other or below it, and the range over the map gives each
-- key below `old` that the map has, in any order and with any others: `new` has the id, nothing is
-- left at or below `old`, what was at `old/x` is at `new/x`, and other paths are as they were.
pub rename_entries-dir :
    (order : Entries → List Bytes) (id old new j : Bytes) (es : Entries)
    → is_below old new ≡ false
    → is_below new old ≡ false
    → Covers old (moved id old new es) (order (moved id old new es))
    → lookup j (rename_entries order dir id old new es) ≡ (
        if beq j new
        then some id
        else if is_below old j
        then none
        else if is_under new j
        then or_else (lookup (replace_prefix new old j) es) (lookup j es)
        else lookup j es)
unfolding rename_entries or_else
rename_entries-dir order id old new j es apart apart' covers =
    let ms : Entries = moved id old new es in
    elim (Bool-cases (is_under old j)) [
      | inl h ↦
          children_under_old old new apart apart' (order ms) ms j h
          ∙ ground (
            arith,
            covers j h,
            lookup-moved id old new j es,
            is_below_lem old j,
            is_below_lem old new,
          )
      | inr h ↦ elim (Bool-cases (is_under new j)) [
        | inl k ↦
            let (x, e) = under-of-is_under new j k in
            ap (λ j. lookup j (rename_children old new (order ms) ms)) e
            ∙ arrives id old new es (order ms) apart apart' covers x
            ∙ ground (
              arith,
              replace_prefix-under new old x,
              is_below_lem old j,
              is_below_lem new old,
              is_under-ne new j,
              e,
            )
        | inr k ↦
            children_elsewhere old new apart apart' (order ms) ms j h k
            ∙ ground (arith, lookup-moved id old new j es, is_below_lem old j)
      ]
    ]
