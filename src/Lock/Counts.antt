-- ===== src/Lock/Counts.antt =====
-- The reference counts of the nodes, which create raises and remove lowers (webdav/lock.go).
use mathlib.Core.Option.{some-injective}
use webdav_serverless.Base.{
  subst, sym, ℕ, ◌+◌, ◌-◌, ◌<◌, ◌≤◌, Option, none, some, List, [], ◌∷◌, ◌≡◌, refl, ap, ◌∙◌, Bytes,
  bytes_eq, beq, beq_refl, beq→eq, if◌then◌else◌, ◌==◌, arith, Option-cases, inl, inr,
}
use webdav_serverless.Base.Dict.{Dict, lookup, insert, erase, lookup-insert, lookup-erase}
use webdav_serverless.Lock.{Node, or_fresh, refer, unrefer, release_one, ◌>>=◌}

-- How often a name is in a list.
abbrev pub times : Bytes → List Bytes → ℕ
times k [] = 0
times k (x ∷ xs) = (if beq k x then 1 else 0) + times k xs

-- The references of a node, none where there is no node.
abbrev pub refs : Option Node → ℕ
refs none = 0
refs (some n) = n.ref_count

-- No node is without a reference.
abbrev pub AllReferred : Dict Bytes Node → Type 0
AllReferred nodes = (k : Bytes) (n : Node) → lookup k nodes ≡ some n → 0 < n.ref_count

pub refs-or_fresh : (x : Bytes) (o : Option Node) → (or_fresh x o).ref_count ≡ refs o
refs-or_fresh x none = refl
refs-or_fresh x (some n) = refl

pub refs-refer :
    (nodes : Dict Bytes Node) (ws : List Bytes) (k : Bytes)
    → refs (lookup k (refer nodes ws)) ≡ refs (lookup k nodes) + times k ws
unfolding refer
refs-refer nodes [] k = omega arith
refs-refer nodes (x ∷ ws) k =
    let n : Node = or_fresh x (lookup x nodes) in
    let m : Node = record n { ref_count = n.ref_count + 1 } in
    refs-refer (insert x m nodes) ws k
    ∙ ground (arith, lookup-insert k x m nodes, refs-or_fresh x (lookup x nodes), beq→eq k x)

pub refer-AllReferred :
    (nodes : Dict Bytes Node) (ws : List Bytes) → AllReferred nodes → AllReferred (refer nodes ws)
unfolding refer
refer-AllReferred nodes [] h = h
refer-AllReferred nodes (x ∷ ws) h =
    let n : Node = or_fresh x (lookup x nodes) in
    let m : Node = record n { ref_count = n.ref_count + 1 } in
    refer-AllReferred (insert x m nodes) ws
      (λ k i at. ground (arith, lookup-insert k x m nodes, h k i, at))

-- The nodes after one reference less for `x`, whose node is `n`.
abbrev pub lowered : Bytes → Node → Dict Bytes Node → Dict Bytes Node
lowered x n nodes =
    if n.ref_count == 1
    then erase x nodes
    else insert x (record n { ref_count = n.ref_count - 1 }) nodes

refs-lowered :
    (x : Bytes) (n : Node) (nodes : Dict Bytes Node) (k : Bytes)
    → lookup x nodes ≡ some n
    → 0 < n.ref_count
    → refs (lookup k (lowered x n nodes)) + (if beq k x then 1 else 0) ≡ refs (lookup k nodes)
refs-lowered x n nodes k at some_refs = ground (
  arith,
  at,
  some_refs,
  lookup-erase k x nodes,
  lookup-insert k x (record n { ref_count = n.ref_count - 1 }) nodes,
  beq→eq k x,
)

-- Where each name has enough references, no node is missed and the counts go down.
pub unrefer-refs :
    (nodes : Dict Bytes Node) (ws : List Bytes)
    → ((k : Bytes) → times k ws ≤ refs (lookup k nodes))
    → (rest : Dict Bytes Node) × (unrefer nodes ws ≡ some rest)
      × ((k : Bytes) → refs (lookup k rest) + times k ws ≡ refs (lookup k nodes))
unfolding unrefer release_one
unrefer-refs nodes [] enough = (nodes, refl, λ k. omega arith)
unrefer-refs nodes (x ∷ ws) enough = elim (Option-cases (lookup x nodes)) [
  | inl p ↦ absurd (ground (arith, p, enough x, beq_refl x))
  | inr (n, p) ↦
      let some_refs : 0 < n.ref_count = ground (arith, p, enough x, beq_refl x) in
      let step : (k : Bytes)
          → refs (lookup k (lowered x n nodes)) + (if beq k x then 1 else 0)
            ≡ refs (lookup k nodes) =
        λ k. refs-lowered x n nodes k p some_refs in
      let (rest, done, counts) =
        unrefer-refs (lowered x n nodes) ws (λ k. omega (arith, step k, enough k)) in
      (
        rest,
        ap (λ o. release_one x o nodes >>= λ rest. unrefer rest ws) p ∙ done,
        λ k. omega (arith, step k, counts k),
      )
]

-- The references of create, taken back by remove: no node is missed, and each name has the count that
-- it had.
pub unrefer-refer :
    (nodes : Dict Bytes Node) (ws : List Bytes)
    → (rest : Dict Bytes Node) × (unrefer (refer nodes ws) ws ≡ some rest)
      × ((k : Bytes) → refs (lookup k rest) ≡ refs (lookup k nodes))
unrefer-refer nodes ws =
    let (rest, done, counts) =
      unrefer-refs (refer nodes ws) ws (λ k. omega (arith, refs-refer nodes ws k)) in
    (rest, done, λ k. omega (arith, counts k, refs-refer nodes ws k))

lowered-AllReferred :
    (x : Bytes) (n : Node) (nodes : Dict Bytes Node)
    → lookup x nodes ≡ some n
    → AllReferred nodes
    → AllReferred (lowered x n nodes)
lowered-AllReferred x n nodes at h k i found =
    let positive : 0 < n.ref_count = h x n at in
    ground (
      arith,
      positive,
      h k i,
      found,
      lookup-erase k x nodes,
      lookup-insert k x (record n { ref_count = n.ref_count - 1 }) nodes,
    )

pub unrefer-AllReferred :
    (nodes rest : Dict Bytes Node) (ws : List Bytes)
    → unrefer nodes ws ≡ some rest
    → AllReferred nodes
    → AllReferred rest
unfolding unrefer release_one
unrefer-AllReferred nodes rest [] e h = subst AllReferred (some-injective nodes rest e) h
unrefer-AllReferred nodes rest (x ∷ ws) e h = elim (Option-cases (lookup x nodes)) [
  | inl p ↦
      let bad : none ≡ some rest =
        ap (λ o. release_one x o nodes >>= λ rest. unrefer rest ws) (sym p) ∙ e in
      cc
  | inr (n, p) ↦
      unrefer-AllReferred (lowered x n nodes) rest ws
        (ap (λ o. release_one x o nodes >>= λ rest. unrefer rest ws) (sym p) ∙ e)
        (lowered-AllReferred x n nodes p h)
]
