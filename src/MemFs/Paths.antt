-- ===== src/MemFs/Paths.antt =====
-- webdav/file.go: which paths lead to which nodes of memFS after a node is made, taken out or moved.
use webdav_serverless.Base.{
  ℕ, ◌<◌, Bool, ◌&&◌, ◌||◌, none, some, Option-cases, Bool-cases, List, [], ◌∷◌, Bytes, ◌≡◌, ◌≢◌,
  ◌⊎◌, inl, inr, refl, sym, ap, ◌∙◌, arith, if◌then◌else◌, ◌==◌, beq, beq_ne, beq_refl, Eq,
  bytes_eq, bytes_dec, length,
}
use webdav_serverless.MemFs.{MemNode, MemFs, child, children_of, delete_child}
use webdav_serverless.MemFs.Tree.{IsTree, step, node_at, node_at-used, node_at-once}
use webdav_serverless.MemFs.Edges.{grown, child-grown, child-delete_child}

unfoldable pub path_dec : Discrete (List Bytes)
unfolding bytes_dec
path_dec = hlevel bytes_dec

instance unfoldable pub path_eq : Eq (List Bytes)
unfolding path_dec
path_eq = record { dec = path_dec }

-- A path is another or begins with it; the last names stand first.
unfoldable pub is_under : List Bytes → List Bytes → Bool
is_under p [] = beq [] p
is_under p (m ∷ q) = is_under p q || beq (m ∷ q) p

pub length-ne : (p q : List Bytes) → length p < length q → p ≢ q
length-ne p q h e = let n : length p ≡ length q = ap length e in omega arith

module _ (fs : MemFs) (t : IsTree fs) (up : List Bytes) (a : ℕ) (n : Bytes)
    (e : node_at (child fs) up ≡ some a) where
  other-edge :
      (q : List Bytes) (m : Bytes) (b : ℕ)
      → node_at (child fs) q ≡ some b
      → m ≡ n
      → (m ∷ q) ≢ (n ∷ up)
      → b ≢ a
  other-edge q m b g hm h hb = h (rw (hm, node_at-once t q up a (g ∙ ap some hb) e) refl)

  -- The changed edge is the one that the path names.
  pub same-edge :
      (q : List Bytes) (m : Bytes) (b : ℕ)
      → node_at (child fs) q ≡ some b
      → (b == a && beq m n) ≡ beq (m ∷ q) (n ∷ up)
  same-edge q m b g = elim (path_dec (m ∷ q) (n ∷ up)) [
    | yes h ↦
        let hm : m ≡ n = cc in
        let hq : q ≡ up = cc in
        let hb : b ≡ a = cc in rw (hm, hq, hb, beq_refl (n ∷ up)) (ground (arith, beq_refl n))
    | no h ↦ rw (beq_ne (m ∷ q) (n ∷ up) h) (elim (bytes_dec m n) [
      | no hm ↦ rw (beq_ne m n hm) (ground arith)
      | yes hm ↦ let hb : b ≢ a = other-edge q m b g hm h in ground arith
    ])
  ]

  not-below : n ∷ up ≢ up
  not-below h = length-ne up (n ∷ up) (omega arith) (sym h)

  none-elsewhere : (q : List Bytes) (m : Bytes) → node_at (child fs) q ≡ none → (m ∷ q) ≢ (n ∷ up)
  none-elsewhere q m z h =
      let hq : q ≡ up = cc in let w : none ≡ some a = sym z ∙ ap (node_at (child fs)) hq ∙ e in cc

  module _ (k : MemNode) (h : children_of k.children ≡ []) (new : child fs a n ≡ none) where
    grown-leaf : (m : Bytes) → child (grown a n k fs) fs.next m ≡ none
    grown-leaf m = child-grown fs a fs.next n m k h ∙ ground arith

    step-grown :
        (q : List Bytes) (m : Bytes) (b : ℕ)
        → node_at (child fs) q ≡ some b
        → child (grown a n k fs) b m ≡ (if beq (m ∷ q) (n ∷ up) then some fs.next else child fs b m)
    step-grown q m b g =
        let lt : b < fs.next = node_at-used t q b g in
        child-grown fs a b n m k h ∙ rw (sym (same-edge q m b g)) (ground arith)

    empty-there : node_at (child fs) (n ∷ up) ≡ none
    unfolding node_at
    empty-there = rw e new

    grown-step :
        (q : List Bytes) (m : Bytes)
        → node_at (child (grown a n k fs)) q
          ≡ (if beq q (n ∷ up) then some fs.next else node_at (child fs) q)
        → (node_at (child fs) q ≡ none) ⊎ ((b : ℕ) × (node_at (child fs) q ≡ some b))
        → step (child (grown a n k fs)) (node_at (child (grown a n k fs)) q) m ≡ (
            if beq (m ∷ q) (n ∷ up) then some fs.next else step (child fs) (node_at (child fs) q) m)
    grown-step q m ih (inl z) =
        rw (ih, z, beq_ne (m ∷ q) (n ∷ up) (none-elsewhere q m z))
          (elim (path_dec q (n ∷ up)) [
            | yes p ↦ rw (p, beq_refl (n ∷ up)) (grown-leaf m)
            | no p ↦ rw (beq_ne q (n ∷ up) p) refl
          ])
    grown-step q m ih (inr (b, z)) =
        let p : q ≢ n ∷ up = λ p.
          (let w : none ≡ some b = sym empty-there ∙ sym (ap (node_at (child fs)) p) ∙ z in cc) in
        rw (ih, z, beq_ne q (n ∷ up) p) (step-grown q m b z)

    pub node_at-grown :
        (q : List Bytes)
        → node_at (child (grown a n k fs)) q
          ≡ (if beq q (n ∷ up) then some fs.next else node_at (child fs) q)
    unfolding node_at
    node_at-grown [] = rw (beq_ne [] (n ∷ up) (length-ne [] (n ∷ up) (omega arith))) refl
    node_at-grown (m ∷ q) = grown-step q m (node_at-grown q) (Option-cases (node_at (child fs) q))

  step-deleted :
      (q : List Bytes) (m : Bytes) (b : ℕ)
      → node_at (child fs) q ≡ some b
      → child (delete_child a n fs) b m ≡ (if beq (m ∷ q) (n ∷ up) then none else child fs b m)
  step-deleted q m b g = child-delete_child fs a b n m ∙ rw (same-edge q m b g) refl

  deleted-step :
      (q : List Bytes) (m : Bytes)
      → node_at (child (delete_child a n fs)) q
        ≡ (if is_under (n ∷ up) q then none else node_at (child fs) q)
      → (node_at (child fs) q ≡ none) ⊎ ((b : ℕ) × (node_at (child fs) q ≡ some b))
      → step (child (delete_child a n fs)) (node_at (child (delete_child a n fs)) q) m ≡ (
          if is_under (n ∷ up) q || beq (m ∷ q) (n ∷ up)
          then none
          else step (child fs) (node_at (child fs) q) m)
  deleted-step q m ih (inl z) =
      rw (ih, z)
        (elim (Bool-cases (is_under (n ∷ up) q)) [
          | inl w ↦ rw w refl
          | inr w ↦ rw w (ground arith)
        ])
  deleted-step q m ih (inr (b, z)) =
      rw (ih, z)
        (elim (Bool-cases (is_under (n ∷ up) q)) [
          | inl w ↦ rw w refl
          | inr w ↦ rw w (step-deleted q m b z)
        ])

  pub node_at-deleted :
      (q : List Bytes)
      → node_at (child (delete_child a n fs)) q
        ≡ (if is_under (n ∷ up) q then none else node_at (child fs) q)
  unfolding node_at is_under
  node_at-deleted [] = rw (beq_ne [] (n ∷ up) (length-ne [] (n ∷ up) (omega arith))) refl
  node_at-deleted (m ∷ q) =
      deleted-step q m (node_at-deleted q) (Option-cases (node_at (child fs) q))
