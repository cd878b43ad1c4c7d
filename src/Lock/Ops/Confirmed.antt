-- ===== src/Lock/Ops/Confirmed.antt =====
-- Confirm and the function that it returns (webdav/lock.go).
use webdav_serverless.Base.{
  true, false, ◌&&◌, not, Option, none, some, List, [], ◌∷◌, ◌≡◌, ◌≢◌, ◌⊎◌, inl, inr, refl, ap, ◌∙◌,
  Bytes, bytes_eq, beq_refl, beq_ne, if◌then◌else◌, arith, Option-cases, Bool-cases, All,
}
use webdav_serverless.Base.Dict.{lookup, insert, lookup-insert}
use webdav_serverless.IfHeader.{Condition}
use webdav_serverless.Lock.{Node, MemLs, set_node, heap_remove}
use webdav_serverless.Lock.Ops.{claim, covers, node_of, lookup_claim, hold_node, hold}

-- A condition's token is that of a lock that nobody holds, and that locks the name.
pub record Claims (name : Bytes) (m : MemLs) (c : Condition) (x : Bytes) : Type 0 where
  pub node : Node
  pub by_token : lookup c.token m.by_token ≡ some x
  pub by_name : lookup x m.by_name ≡ some node
  pub not_held : node.held ≡ false
  pub covering : covers name node ≡ true

claim-Claims :
    (name : Bytes) (m : MemLs) (c : Condition) (rest : Option Bytes) (x : Bytes)
    → claim name (node_of m (lookup c.token m.by_token)) rest ≡ some x
    → Claims name m c x ⊎ (rest ≡ some x)
unfolding claim
claim-Claims name m c rest x h = elim (Option-cases (lookup c.token m.by_token)) [
  | inl p ↦ inr (ground (arith, p))
  | inr (y, p) ↦ elim (Option-cases (lookup y m.by_name)) [
    | inl q ↦ inr (ground (arith, p, q))
    | inr (n, q) ↦ elim (Bool-cases (not n.held && covers name n)) [
      | inl r ↦ inl (record {
        node = n;
        by_token = ground (arith, p, q, r);
        by_name = ground (arith, p, q, r);
        not_held = ground (arith, r);
        covering = ground (arith, r);
      })
      | inr r ↦ inr (ground (arith, p, q, r))
    ]
  ]
]

-- Some condition of the list does.
abbrev pub Some : (Condition → Type 0) → List Condition → Type 0
Some P [] = ⊥
Some P (c ∷ cs) = P c ⊎ Some P cs

pub lookup_claim-Claims :
    (name : Bytes) (cs : List Condition) (m : MemLs) (x : Bytes)
    → lookup_claim name cs m ≡ some x
    → Some (λ c. Claims name m c x) cs
unfolding lookup_claim
lookup_claim-Claims name [] m x h = cc
lookup_claim-Claims name (c ∷ cs) m x h =
    elim (claim-Claims name m c (lookup_claim name cs m) x h) [
      | inl p ↦ inl p
      | inr p ↦ inr (lookup_claim-Claims name cs m x p)
    ]

claim-none :
    (name : Bytes) (m : MemLs) (c : Condition) (rest : Option Bytes)
    → claim name (node_of m (lookup c.token m.by_token)) rest ≡ none
    → ((x : Bytes) → ¬ (Claims name m c x)) × (rest ≡ none)
unfolding claim
claim-none name m c rest h = (
  (λ x k.
      let n : Node = k.node in ground (arith, h, k.by_token, k.by_name, k.not_held, k.covering)),
  ground (arith, h, Option-cases (node_of m (lookup c.token m.by_token))),
)

pub lookup_claim-none :
    (name : Bytes) (cs : List Condition) (m : MemLs)
    → lookup_claim name cs m ≡ none
    → All (λ c. (x : Bytes) → ¬ (Claims name m c x)) cs
unfolding lookup_claim
lookup_claim-none name [] m h = tt
lookup_claim-none name (c ∷ cs) m h =
    let (p, q) = claim-none name m c (lookup_claim name cs m) h in
    (p, lookup_claim-none name cs m q)

-- A node goes from not held to held, and no other node changes.
pub record Holds (x : Bytes) (m m' : MemLs) : Type 0 where
  pub node : Node
  pub at : lookup x m'.by_name ≡ some node
  pub is_held : node.held ≡ true
  pub others : (y : Bytes) → y ≢ x → lookup y m'.by_name ≡ lookup y m.by_name
  pub tokens : m'.by_token ≡ m.by_token

inserted-Holds :
    (x : Bytes) (m m' : MemLs) (n : Node)
    → m'.by_name ≡ insert x n m.by_name
    → m'.by_token ≡ m.by_token
    → n.held ≡ true
    → Holds x m m'
inserted-Holds x m m' n put same is = record {
  node = n;
  at =
      ap (lookup x) put
      ∙ lookup-insert x x n m.by_name
      ∙ ap (λ b. if b then some n else lookup x m.by_name) (beq_refl x);
  is_held = is;
  others = λ y ne.
      ap (lookup y) put
      ∙ lookup-insert y x n m.by_name
      ∙ ap (λ b. if b then some n else lookup y m.by_name) (beq_ne y x ne);
  tokens = same;
}

pub hold-Holds :
    (x : Bytes) (m : MemLs) (n : Node)
    → lookup x m.by_name ≡ some n
    → n.held ≡ false
    → (m' : MemLs) × (hold x m ≡ some m') × Holds x m m'
unfolding hold hold_node heap_remove
hold-Holds x m n at free =
    let h : Node = record n { held = true } in
    let q : Node = record h { queued = false } in
    elim (Option-cases n.details.duration) [
      | inl p ↦ (set_node x h m, ground (arith, at, free, p), inserted-Holds x m _ h refl refl refl)
      | inr (d, p) ↦ elim (Bool-cases n.queued) [
        | inl r ↦ (
          heap_remove x h m,
          ground (arith, at, free, p, r),
          inserted-Holds x m _ q refl refl refl,
        )
        | inr r ↦
            (set_node x h m, ground (arith, at, free, p, r), inserted-Holds x m _ h refl refl refl)
      ]
    ]
