-- ===== src/Awsfs/Tree/Rename.antt =====
-- The loop of Rename over the paths below a directory (awsfs/rename.go).
use mathlib.Core.Option.{or_else}
use webdav_serverless.Base.{
  Bool, true, false, ◌||◌, ◌⊎◌, none, some, List, [], ◌∷◌, ◌++◌, ◌≡◌, refl, sym, ap, ◌∙◌, Bytes,
  bytes_eq, beq, has_prefix, if◌then◌else◌, arith, contains, Bool-cases, Option-cases, inl, inr,
  append-of-has_prefix, has_prefix-append, append_assoc, drop-append,
}
use webdav_serverless.Base.Dict.{lookup, erase, lookup-insert, lookup-erase}
use webdav_serverless.Path.{slash}
use webdav_serverless.Awsfs.{Entries}
use webdav_serverless.Awsfs.Tree.{is_below, rename_round, rename_children, replace_prefix}

-- Below a directory, and not the directory itself.
abbrev pub is_under : Bytes → Bytes → Bool
is_under d k = has_prefix k (d ++ slash ∷ [])

pub is_below_lem : (d k : Bytes) → is_below d k ≡ (beq k d || is_under d k)
unfolding is_below
is_below_lem d k = refl

unfoldable pub under : Bytes → Bytes → Bytes
under d x = d ++ slash ∷ x

pub is_under-under : (d x : Bytes) → is_under d (under d x) ≡ true
unfolding under
is_under-under d x = rw (← append_assoc d (slash ∷ []) x) (has_prefix-append (d ++ slash ∷ []) x)

pub under-of-is_under : (d k : Bytes) → is_under d k ≡ true → (x : Bytes) × (k ≡ under d x)
unfolding under
under-of-is_under d k h =
    let (x, e) = append-of-has_prefix k (d ++ slash ∷ []) h in
    (x, e ∙ append_assoc d (slash ∷ []) x)

-- Of two directories with a path below both, one is below the other.
fork : (p q x y : Bytes) → under p x ≡ under q y → (is_below p q ≡ true) ⊎ (is_below q p ≡ true)
unfolding under is_below has_prefix
fork [] [] x y e = inl (ground arith)
fork [] (d ∷ []) x y e = inl (ground arith)
fork [] (d ∷ d' ∷ q) x y e = inl (ground arith)
fork (c ∷ []) [] x y e = inr (ground arith)
fork (c ∷ c' ∷ p) [] x y e = inr (ground arith)
fork (c ∷ p) (d ∷ q) x y e = ground (arith, fork p q x y)

under-injective : (d x y : Bytes) → under d x ≡ under d y → x ≡ y
unfolding under
under-injective [] x y e = cc
under-injective (c ∷ d) x y e = under-injective d x y (cc)

pub replace_prefix-under : (old new x : Bytes) → replace_prefix old new (under old x) ≡ under new x
unfolding under
replace_prefix-under old new x = ap (λ s. new ++ s) (drop-append old (slash ∷ x))

-- Two directories, neither of which is the other or below it.
module _ (old new : Bytes) (apart : is_below old new ≡ false)
    (apart' : is_below new old ≡ false) where
  pub not_both : (j : Bytes) → is_under old j ≡ true → is_under new j ≡ true → ⊥
  not_both j h k =
      let (x, e) = under-of-is_under old j h in
      let (y, e') = under-of-is_under new j k in
      elim (fork old new x y (sym e ∙ e')) [ inl p ↦ cc | inr p ↦ cc ]

  lookup-rename_round :
      (es : Entries) (k j : Bytes)
      → lookup j (rename_round old new es k) ≡ elim (lookup k es) [
        | none ↦ lookup j es
        | some v ↦
            if is_under old k
            then (if beq j (replace_prefix old new k)
                then some v
                else if beq j k
                then none
                else lookup j es)
            else lookup j es
      ]
  unfolding rename_round
  lookup-rename_round es k j = elim (Option-cases (lookup k es)) [
    | inl e ↦ rw (e, rename_round) (ground arith)
    | inr (v, e) ↦
        ground
          (arith, lookup-insert j (replace_prefix old new k) v (erase k es), lookup-erase j k es)
  ]

  -- The path to which a path below `old` goes is below `new`.
  is_under-replace_prefix :
      (k : Bytes) → is_under old k ≡ true → is_under new (replace_prefix old new k) ≡ true
  is_under-replace_prefix k h =
      let (x, e) = under-of-is_under old k h in
      ap (is_under new) (ap (replace_prefix old new) e ∙ replace_prefix-under old new x)
      ∙ is_under-under new x

  round_under_old :
      (es : Entries) (k j : Bytes)
      → is_under old j ≡ true
      → lookup j (rename_round old new es k) ≡ (if beq j k then none else lookup j es)
  round_under_old es k j h =
      rw lookup-rename_round
        (ground (arith, is_under-replace_prefix k, not_both (replace_prefix old new k)))

  round_under_new :
      (es : Entries) (k x : Bytes)
      → lookup (under new x) (rename_round old new es k) ≡ (
          if beq (under old x) k
          then or_else (lookup (under old x) es) (lookup (under new x) es)
          else lookup (under new x) es)
  unfolding or_else
  round_under_new es k x = elim (Bool-cases (is_under old k)) [
    | inl h ↦
        let (y, e) = under-of-is_under old k h in
        rw lookup-rename_round (
          ground (
            arith,
            e,
            replace_prefix-under old new y,
            under-injective old x y,
            under-injective new x y,
            is_under-under new x,
            not_both k h,
          ))
    | inr h ↦ rw lookup-rename_round (ground (arith, is_under-under old x))
  ]

  round_elsewhere :
      (es : Entries) (k j : Bytes)
      → is_under old j ≡ false
      → is_under new j ≡ false
      → lookup j (rename_round old new es k) ≡ lookup j es
  round_elsewhere es k j h h' = rw lookup-rename_round (ground (arith, is_under-replace_prefix k))

  pub children_under_old :
      (order : List Bytes) (es : Entries) (j : Bytes)
      → is_under old j ≡ true
      → lookup j (rename_children old new order es)
        ≡ (if contains order j then none else lookup j es)
  unfolding rename_children contains
  children_under_old [] es j h = refl
  children_under_old (k ∷ order) es j h =
      children_under_old order (rename_round old new es k) j h
      ∙ ground (arith, round_under_old es k j h)

  pub children_under_new :
      (order : List Bytes) (es : Entries) (x : Bytes)
      → lookup (under new x) (rename_children old new order es) ≡ (
          if contains order (under old x)
          then or_else (lookup (under old x) es) (lookup (under new x) es)
          else lookup (under new x) es)
  unfolding rename_children contains or_else
  children_under_new [] es x = refl
  children_under_new (k ∷ order) es x =
      children_under_new order (rename_round old new es k) x
      ∙ ground
          (arith, round_under_new es k x, round_under_old es k (under old x) (is_under-under old x))

  pub children_elsewhere :
      (order : List Bytes) (es : Entries) (j : Bytes)
      → is_under old j ≡ false
      → is_under new j ≡ false
      → lookup j (rename_children old new order es) ≡ lookup j es
  unfolding rename_children
  children_elsewhere [] es j h h' = refl
  children_elsewhere (k ∷ order) es j h h' =
      children_elsewhere order (rename_round old new es k) j h h' ∙ round_elsewhere es k j h h'
