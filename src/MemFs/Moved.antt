-- ===== src/MemFs/Moved.antt =====
-- webdav/file.go: which paths lead to which nodes of memFS after Rename has moved a node.
use webdav_serverless.Base.{
  ℕ, ◌<◌, true, false, ◌&&◌, none, some, Option-cases, List, [], ◌∷◌, ◌++◌, Bytes, ◌≡◌, ◌≢◌, ◌⊎◌,
  inl, inr, refl, sym, ap, ◌∙◌, arith, if◌then◌else◌, ◌==◌, beq, beq_ne, beq_refl, bytes_eq, length,
  length-append,
}
use webdav_serverless.MemFs.{MemFs, child, set_child, delete_child}
use webdav_serverless.MemFs.Tree.{IsTree, step, node_at, node_at-once}
use webdav_serverless.MemFs.Edges.{child-set_child, child-delete_child, delete_child-IsTree}
use webdav_serverless.MemFs.Paths.{path_eq, is_under, length-ne, same-edge, node_at-deleted}

is_under-longer : (p q : List Bytes) → length q < length p → is_under p q ≡ false
unfolding is_under
is_under-longer p [] h = beq_ne [] p (length-ne [] p h)
is_under-longer p (m ∷ q) h =
    rw (is_under-longer p q (omega arith), beq_ne (m ∷ q) p (length-ne (m ∷ q) p h)) refl

is_under_refl : (p : List Bytes) → is_under p p ≡ true
unfolding is_under
is_under_refl [] = beq_refl {A = List Bytes} []
is_under_refl (m ∷ p) = rw (beq_refl (m ∷ p)) (ground arith)

is_under-append : (p q : List Bytes) → is_under p (q ++ p) ≡ true
unfolding is_under
is_under-append p [] = is_under_refl p
is_under-append p (m ∷ q) = rw (is_under-append p q) refl

is_under-tail : (p q : List Bytes) (m : Bytes) → is_under p (m ∷ q) ≡ false → is_under p q ≡ false
unfolding is_under
is_under-tail p q m h = ground arith

is_under-head : (p q : List Bytes) (m : Bytes) → is_under p (m ∷ q) ≡ false → beq (m ∷ q) p ≡ false
unfolding is_under
is_under-head p q m h = ground arith

-- A node put under a name changes no path but those at and below it.
module _ (fs : MemFs) (t : IsTree fs) (dst : List Bytes) (c b : ℕ) (g : Bytes)
    (e : node_at (child fs) dst ≡ some c) where
  linked-step :
      (q : List Bytes) (m : Bytes)
      → beq (m ∷ q) (g ∷ dst) ≡ false
      → (node_at (child fs) q ≡ none) ⊎ ((x : ℕ) × (node_at (child fs) q ≡ some x))
      → step (child (set_child c g b fs)) (node_at (child fs) q) m
        ≡ step (child fs) (node_at (child fs) q) m
  linked-step q m h (inl z) = rw z refl
  linked-step q m h (inr (x, z)) =
      rw z (child-set_child fs c b x g m ∙ rw (same-edge fs t dst c g e q m x z, h) refl)

  pub node_at-linked :
      (q : List Bytes)
      → is_under (g ∷ dst) q ≡ false
      → node_at (child (set_child c g b fs)) q ≡ node_at (child fs) q
  unfolding node_at
  node_at-linked [] h = refl
  node_at-linked (m ∷ q) h =
      rw (node_at-linked q (is_under-tail (g ∷ dst) q m h))
        (linked-step q m (is_under-head (g ∷ dst) q m h) (Option-cases (node_at (child fs) q)))

module _ (fs : MemFs) (t : IsTree fs) (src dst : List Bytes) (a b c : ℕ) (n g : Bytes)
    (from : node_at (child fs) src ≡ some a) (there : child fs a n ≡ some b)
    (to : node_at (child fs) dst ≡ some c) (away : is_under (n ∷ src) dst ≡ false) where
  abbrev moved : MemFs
  moved = set_child c g b (delete_child a n fs)

  pub to-deleted : node_at (child (delete_child a n fs)) dst ≡ some c
  to-deleted = node_at-deleted fs t src a n from dst ∙ rw (away, to) refl

  pub node_at-moved :
      (q : List Bytes)
      → is_under (g ∷ dst) q ≡ false
      → node_at (child moved) q ≡ (if is_under (n ∷ src) q then none else node_at (child fs) q)
  node_at-moved q h =
      node_at-linked (delete_child a n fs) (delete_child-IsTree fs t a n) dst c b g to-deleted q h
      ∙ node_at-deleted fs t src a n from q

  child-moved :
      (x : ℕ) (m : Bytes)
      → child moved x m
        ≡ (if x == c && beq m g then some b else if x == a && beq m n then none else child fs x m)
  child-moved x m =
      child-set_child (delete_child a n fs) c b x g m
      ∙ ap (λ o. if x == c && beq m g then some b else o) (child-delete_child fs a x n m)

  -- The directory below the moved node is neither of the two that change.
  below-away : (q : List Bytes) (x : ℕ) → node_at (child fs) (q ++ n ∷ src) ≡ some x → x ≢ c
  below-away q x z h =
      let p : q ++ n ∷ src ≡ dst = node_at-once t (q ++ n ∷ src) dst x z (to ∙ ap some (sym h)) in
      let w : true ≡ false = sym (is_under-append (n ∷ src) q) ∙ ap (is_under (n ∷ src)) p ∙ away in
      cc

  below-later :
      (q : List Bytes) (m : Bytes) (x : ℕ)
      → node_at (child fs) (q ++ n ∷ src) ≡ some x
      → (x == a && beq m n) ≡ false
  below-later q m x z =
      same-edge fs t src a n from (q ++ n ∷ src) m x z
      ∙ beq_ne (m ∷ (q ++ n ∷ src)) (n ∷ src) (λ h.
        let l : length (m ∷ (q ++ n ∷ src)) ≡ length (n ∷ src) = ap length h in
        omega (arith, length-append q (n ∷ src)))

  moved-step :
      (q : List Bytes) (m : Bytes)
      → (node_at (child fs) (q ++ n ∷ src) ≡ none)
        ⊎ ((x : ℕ) × (node_at (child fs) (q ++ n ∷ src) ≡ some x))
      → step (child moved) (node_at (child fs) (q ++ n ∷ src)) m
        ≡ step (child fs) (node_at (child fs) (q ++ n ∷ src)) m
  moved-step q m (inl z) = rw z refl
  moved-step q m (inr (x, z)) = rw z (
      child-moved x m ∙ rw (below-later q m x z) (let w : x ≢ c = below-away q x z in ground arith))

  -- What was at and below the old path is at and below the new one.
  pub node_at-new :
      (q : List Bytes) → node_at (child moved) (q ++ g ∷ dst) ≡ node_at (child fs) (q ++ n ∷ src)
  unfolding node_at
  node_at-new [] =
      rw
        (
          node_at-moved dst (is_under-longer (g ∷ dst) dst (omega arith)),
          away,
          to,
          from,
          there,
          child-moved c g,
          beq_refl g,
        )
        (ground arith)
  node_at-new (m ∷ q) =
      rw (node_at-new q) (moved-step q m (Option-cases (node_at (child fs) (q ++ n ∷ src))))
