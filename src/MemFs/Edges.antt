-- ===== src/MemFs/Edges.antt =====
-- webdav/file.go: the edges of the tree after each change of a node.
use webdav_serverless.Base.{
  ℕ, suc, ◌<◌, Bool, ◌&&◌, Option, none, some, List, [], Bytes, ◌≡◌, ◌≢◌, ◌⊎◌, inl, inr, sym, ap,
  ◌∙◌, arith, if◌then◌else◌, ◌==◌, beq, bytes_eq,
}
use webdav_serverless.Base.Dict.{lookup-insert, lookup-erase, lookup-nil}
use webdav_serverless.MemFs.{
  MemNode, MemFs, child, children_of, set_node, set_child, delete_child, with_node,
}
use webdav_serverless.MemFs.Tree.{
  reached-IsGrounded, IsGrounded, grounded, Edges, node_at, IsTree, IsForest-link, IsForest-prune,
}

pub child-set_node :
    (fs : MemFs) (a x : ℕ) (k : MemNode) (m : Bytes)
    → k.children ≡ (fs.node a).children
    → child (set_node a k fs) x m ≡ child fs x m
child-set_node fs a x k m e = ground arith

pub child-set_child :
    (fs : MemFs) (a b x : ℕ) (n m : Bytes)
    → child (set_child a n b fs) x m ≡ (if x == a && beq m n then some b else child fs x m)
child-set_child fs a b x n m =
    ground (arith, lookup-insert m n b (children_of (fs.node a).children))

pub child-delete_child :
    (fs : MemFs) (a x : ℕ) (n m : Bytes)
    → child (delete_child a n fs) x m ≡ (if x == a && beq m n then none else child fs x m)
child-delete_child fs a x n m = ground (arith, lookup-erase m n (children_of (fs.node a).children))

pub child-with_node :
    (fs : MemFs) (k : MemNode) (x : ℕ) (m : Bytes)
    → children_of k.children ≡ []
    → child (with_node k fs) x m ≡ (if x == fs.next then none else child fs x m)
child-with_node fs k x m e = ground (arith, lookup-nil {V = ℕ} m)

-- A new node under a name, in place of what was there.
abbrev pub grown : ℕ → Bytes → MemNode → MemFs → MemFs
grown a n k fs = with_node k (set_child a n fs.next fs)

pub child-grown :
    (fs : MemFs) (a x : ℕ) (n m : Bytes) (k : MemNode)
    → children_of k.children ≡ []
    → child (grown a n k fs) x m
      ≡ (if x == fs.next then none else if x == a && beq m n then some fs.next else child fs x m)
child-grown fs a x n m k e =
    child-with_node (set_child a n fs.next fs) k x m e
    ∙ ap (λ o. if x == fs.next then none else o) (child-set_child fs a fs.next x n m)

new-edge :
    (x a b d : ℕ) (m n : Bytes) (o : Option ℕ)
    → (if x == a && beq m n then some b else o) ≡ some d
    → (o ≡ some d) ⊎ ((x ≡ a) × (m ≡ n) × (d ≡ b))
new-edge x a b d m n o e = ground arith

outer-edge : (c : Bool) (o : Option ℕ) (d : ℕ) → (if c then none else o) ≡ some d → o ≡ some d
outer-edge c o d e = ground arith

no-edge :
    (x a b : ℕ) (m n : Bytes) (o : Option ℕ)
    → (if x == a && beq m n then none else o) ≡ some b
    → (o ≡ some b) × ((x ≡ a) × (m ≡ n) → ⊥)
no-edge x a b m n o e = ground arith

module _ (fs : MemFs) (t : IsTree fs) where
  pub set_node-IsTree :
      (a : ℕ) (k : MemNode) → k.children ≡ (fs.node a).children → IsTree (set_node a k fs)
  set_node-IsTree a k e =
      IsForest-prune t (child (set_node a k fs)) (λ x b m g. sym (child-set_node fs a x k m e) ∙ g)

  pub delete_child-IsTree : (a : ℕ) (n : Bytes) → IsTree (delete_child a n fs)
  delete_child-IsTree a n =
      IsForest-prune t (child (delete_child a n fs))
        (λ x b m g. ground (arith, child-delete_child fs a x n m, g))

  grown-new :
      (a : ℕ) (n : Bytes) (k : MemNode)
      → children_of k.children ≡ []
      → (x b : ℕ) (m : Bytes) → child (grown a n k fs) x m ≡ some b
      → (child fs x m ≡ some b) ⊎ ((x ≡ a) × (m ≡ n) × (b ≡ fs.next))
  grown-new a n k e x b m g =
      new-edge x a fs.next b m n (child fs x m)
        (outer-edge (x == fs.next) _ b (sym (child-grown fs a x n m k e) ∙ g))

  -- The new node has no children, so no way up goes through it.
  grown-leaf :
      (a : ℕ) (n : Bytes) (k : MemNode)
      → children_of k.children ≡ []
      → (x b : ℕ) (m : Bytes) → child (grown a n k fs) x m ≡ some b
      → x ≢ fs.next
  grown-leaf a n k e x b m g z = ground (arith, child-grown fs a x n m k e)

  grown-up :
      (a : ℕ) (n : Bytes) (k : MemNode)
      → children_of k.children ≡ []
      → (b : ℕ) → IsGrounded (child fs) b
      → b ≢ fs.next
      → IsGrounded (child (grown a n k fs)) b
  grown-up a n k e _ (grounded b h) other = grounded b (λ x m g. elim (grown-new a n k e x b m g) [
    | inl j ↦ grown-up a n k e x (h x m j) (grown-leaf a n k e x b m g)
    | inr (_, _, j) ↦ absurd (other j)
  ])

  pub grown-IsTree :
      (a : ℕ) (n : Bytes) (k : MemNode) → children_of k.children ≡ [] → IsTree (grown a n k fs)
  grown-IsTree a n k e =
      let r : 0 < fs.next = t.root in
      IsForest-link t (suc fs.next) a fs.next n (child (grown a n k fs)) (omega arith)
        (r, omega arith) (λ x m g. let (_, p) = t.used x fs.next m g in omega arith)
        (grown-new a n k e)
        (λ x m g. grown-up a n k e x (t.up x) (grown-leaf a n k e x fs.next m g))

  moved-new :
      (a c b : ℕ) (n g : Bytes) (x d : ℕ) (m : Bytes)
      → child (set_child c g b (delete_child a n fs)) x m ≡ some d
      → (child (delete_child a n fs) x m ≡ some d) ⊎ ((x ≡ c) × (m ≡ g) × (d ≡ b))
  moved-new a c b n g x d m h =
      new-edge x c b d m g (child (delete_child a n fs) x m)
        (sym (child-set_child (delete_child a n fs) c b x g m) ∙ h)

  deleted-orphan :
      (a b : ℕ) (n : Bytes)
      → child fs a n ≡ some b
      → (x : ℕ) (m : Bytes) → child (delete_child a n fs) x m ≢ some b
  deleted-orphan a b n h x m e =
      let (k, away) = no-edge x a b m n (child fs x m) (sym (child-delete_child fs a x n m) ∙ e) in
      away (t.once x a b m n k h)

  -- A node is moved to a directory that a path leads to when the node is taken away.
  pub moved-IsTree :
      (a c b : ℕ) (n g : Bytes) (dst : List Bytes)
      → child fs a n ≡ some b
      → node_at (child (delete_child a n fs)) dst ≡ some c
      → IsTree (set_child c g b (delete_child a n fs))
  moved-IsTree a c b n g dst h to =
      let less : IsTree (delete_child a n fs) = delete_child-IsTree a n in
      let more : Edges = child (set_child c g b (delete_child a n fs)) in
      let lone = deleted-orphan a b n h in
      let new = moved-new a c b n g in
      IsForest-link less fs.next c b g more (omega arith) (t.used a b n h) lone new (λ x m e.
        elim (new x b m e) [
          | inl k ↦ absurd (lone x m k)
          | inr (p, _, _) ↦
              reached-IsGrounded less fs.next c b g more (omega arith) (t.used a b n h) lone new dst
                x (to ∙ ap some (sym p))
        ])
