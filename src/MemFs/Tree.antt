-- ===== src/MemFs/Tree.antt =====
-- webdav/file.go: the nodes of memFS as a tree.
use webdav_serverless.Base.{
  ℕ, ◌<◌, ◌≤◌, Option, none, some, List, [], ◌∷◌, Bytes, ◌≡◌, ◌≢◌, ◌⊎◌, inl, inr, refl, sym, ap,
  ◌∙◌, arith,
}
use webdav_serverless.MemFs.{MemFs, child}

-- Which node a directory has under a name.
abbrev pub Edges : Type 0
Edges = ℕ → Bytes → Option ℕ

-- The ways up from a node end: no node is an ancestor of itself.
pub data IsGrounded (kid : Edges) : ℕ → Type 0 where
  grounded :
      (b : ℕ) → ((a : ℕ) (n : Bytes) → kid a n ≡ some b → IsGrounded kid a) → IsGrounded kid b

-- No node but those that are in use is a child, the root is none, a node is the child of one
-- directory under one name at most, and the ways up end.
pub record IsForest (next : ℕ) (kid : Edges) : Type 0 where
  pub root : 0 < next
  pub used : (a b : ℕ) (n : Bytes) → kid a n ≡ some b → (0 < b) × (b < next)
  pub once : (a b c : ℕ) (n m : Bytes) → kid a n ≡ some c → kid b m ≡ some c → (a ≡ b) × (n ≡ m)
  pub up : (b : ℕ) → IsGrounded kid b

abbrev pub IsTree : MemFs → Type 0
IsTree fs = IsForest fs.next (child fs)

-- The node at a path, whose last name stands first.
abbrev pub step : Edges → Option ℕ → Bytes → Option ℕ
step kid none n = none
step kid (some a) n = kid a n

unfoldable pub node_at : Edges → List Bytes → Option ℕ
node_at kid [] = some 0
node_at kid (n ∷ up) = step kid (node_at kid up) n

pub node_at-cons :
    (kid : Edges) (n : Bytes) (up : List Bytes) (a : ℕ)
    → node_at kid up ≡ some a
    → node_at kid (n ∷ up) ≡ kid a n
unfolding node_at
node_at-cons kid n up a e = rw e refl

module _ {next : ℕ} {kid : Edges} (t : IsForest next kid) where
  step-used : (o : Option ℕ) (n : Bytes) (b : ℕ) → step kid o n ≡ some b → (0 < b) × (b < next)
  step-used none n b e = cc
  step-used (some a) n b e = t.used a b n e

  pub node_at-used : (p : List Bytes) (a : ℕ) → node_at kid p ≡ some a → a < next
  unfolding node_at
  node_at-used [] a e = let z : 0 ≡ a = cc in let r : 0 < next = t.root in omega arith
  node_at-used (n ∷ up) a e = (step-used (node_at kid up) n a e).1

  step-once :
      (o u : Option ℕ) (n m : Bytes) (c : ℕ)
      → step kid o n ≡ some c
      → step kid u m ≡ some c
      → (o ≡ u) × (n ≡ m)
  step-once none u n m c e g = cc
  step-once (some a) none n m c e g = cc
  step-once (some a) (some b) n m c e g = let (p, q) = t.once a b c n m e g in (ap some p, q)

  step-some : (o : Option ℕ) (n : Bytes) (c : ℕ) → step kid o n ≡ some c → (b : ℕ) × (o ≡ some b)
  step-some none n c e = cc
  step-some (some b) n c e = (b, refl)

  pub node_at-ne-root : (n : Bytes) (p : List Bytes) → node_at kid (n ∷ p) ≢ some 0
  unfolding node_at
  node_at-ne-root n p e = let (lt, _) = step-used (node_at kid p) n 0 e in omega arith

  -- A node has one path.
  pub node_at-once :
      (p q : List Bytes) (a : ℕ) → node_at kid p ≡ some a → node_at kid q ≡ some a → p ≡ q
  unfolding node_at
  node_at-once [] [] a e g = refl
  node_at-once [] (m ∷ q) a e g = absurd (node_at-ne-root m q (g ∙ sym e ∙ refl))
  node_at-once (n ∷ p) [] a e g = absurd (node_at-ne-root n p (e ∙ sym g ∙ refl))
  node_at-once (n ∷ p) (m ∷ q) a e g =
      let (up, name) = step-once (node_at kid p) (node_at kid q) n m a e g in
      let (b, at) = step-some (node_at kid p) n a e in
      rw (name, node_at-once p q b at (sym up ∙ at)) refl

IsGrounded-prune :
    (kid less : Edges)
    → ((a b : ℕ) (n : Bytes) → less a n ≡ some b → kid a n ≡ some b)
    → (b : ℕ) → IsGrounded kid b
    → IsGrounded less b
IsGrounded-prune kid less sub _ (grounded b h) =
    grounded b (λ a n e. IsGrounded-prune kid less sub a (h a n (sub a b n e)))

module _ {next : ℕ} {kid : Edges} (t : IsForest next kid) where
  -- Without some of the edges it is still a forest, and with more nodes in use.
  pub IsForest-prune :
      (less : Edges)
      → ((a b : ℕ) (n : Bytes) → less a n ≡ some b → kid a n ≡ some b)
      → IsForest next less
  IsForest-prune less sub = record {
    root = t.root;
    used = λ a b n e. t.used a b n (sub a b n e);
    once = λ a b c n m e g. t.once a b c n m (sub a c n e) (sub b c m g);
    up = λ b. IsGrounded-prune kid less sub b (t.up b);
  }

-- One edge more, to a node that is nobody's child.
module _ {next : ℕ} {kid : Edges} (t : IsForest next kid) (n' a c : ℕ) (name : Bytes) (more : Edges)
    (le : next ≤ n') (lt : (0 < c) × (c < n')) (orphan : (x : ℕ) (m : Bytes) → kid x m ≢ some c)
    (new : (x b : ℕ) (m : Bytes)
      → more x m ≡ some b
      → (kid x m ≡ some b) ⊎ ((x ≡ a) × (m ≡ name) × (b ≡ c))) where
  linked-up :
      ((x : ℕ) (m : Bytes) → more x m ≡ some c → IsGrounded more x)
      → (b : ℕ) → IsGrounded kid b
      → IsGrounded more b
  linked-up far _ (grounded b h) = grounded b (λ x m e. elim (new x b m e) [
    | inl k ↦ linked-up far x (h x m k)
    | inr (_, _, k) ↦ far x m (e ∙ ap some k)
  ])

  last-edge :
      (p : List Bytes) (n : Bytes) (x : ℕ)
      → node_at kid (n ∷ p) ≡ some x
      → (b : ℕ) × (node_at kid p ≡ some b) × (kid b n ≡ some x)
  unfolding node_at
  last-edge p n x e =
      let (b, at) = step-some t (node_at kid p) n x e in
      (b, at, sym (ap (λ o. step kid o n) at) ∙ e)

  reached-ne : (p : List Bytes) (x : ℕ) → node_at kid p ≡ some x → x ≢ c
  unfolding node_at
  reached-ne [] x e z = let w : 0 ≡ x = cc in let (l, _) = lt in absurd (omega arith)
  reached-ne (n ∷ p) x e z = let (b, _, edge) = last-edge p n x e in orphan b n (edge ∙ ap some z)

  -- The nodes that a path leads to are not below the added edge.
  pub reached-IsGrounded : (p : List Bytes) (x : ℕ) → node_at kid p ≡ some x → IsGrounded more x
  unfolding node_at
  reached-IsGrounded [] x e = grounded x (λ y m g. elim (new y x m g) [
    | inl k ↦ let z : 0 ≡ x = cc in let (r, _) = t.used y x m k in absurd (omega arith)
    | inr (_, _, k) ↦ absurd (reached-ne [] x e k)
  ])
  reached-IsGrounded (n ∷ p) x e = grounded x (λ y m g. elim (new y x m g) [
    | inl k ↦
        let (b, at, edge) = last-edge p n x e in
        let (same, _) = t.once y b x m n k edge in reached-IsGrounded p y (at ∙ ap some (sym same))
    | inr (_, _, k) ↦ absurd (reached-ne (n ∷ p) x e k)
  ])

  -- It is a forest, if the edge does not come from below the node that it leads to.
  pub IsForest-link :
      ((x : ℕ) (m : Bytes) → more x m ≡ some c → IsGrounded more x) → IsForest n' more
  IsForest-link far = record {
    root = let r : 0 < next = t.root in omega arith;
    used = λ x b m e. elim (new x b m e) [
      | inl k ↦ let (p, q) = t.used x b m k in (p, omega arith)
      | inr (_, _, k) ↦ rw k lt
    ];
    once = λ x y b m l e g. elim (new x b m e) [
      | inl k ↦ elim (new y b l g) [
        | inl j ↦ t.once x y b m l k j
        | inr (_, _, j) ↦ absurd (orphan x m (k ∙ ap some j))
      ]
      | inr (p, q, k) ↦ elim (new y b l g) [
        | inl j ↦ absurd (orphan y l (j ∙ ap some k))
        | inr (p', q', _) ↦ (p ∙ sym p', q ∙ sym q')
      ]
    ];
    up = λ b. linked-up far b (t.up b);
  }
