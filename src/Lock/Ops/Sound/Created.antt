-- ===== src/Lock/Ops/Sound/Created.antt =====
-- Create on a sound state (webdav/lock.go).
use webdav_serverless.Base.{
  ℕ, ◌+◌, Bool, true, false, Option, none, some, List, [], ◌∷◌, ◌≡◌, ◌≢◌, refl, sym, ap, ◌∙◌, Bytes,
  bytes_eq, beq, beq→eq, arith, contains, length, Bool-cases, inl, inr,
}
use webdav_serverless.Base.Dict.{Dict, lookup, insert}
use webdav_serverless.Path.{root}
use webdav_serverless.Lock.{
  up, Node, MemLs, LockDetails, push, heap_push, walk_to_root, walk, refer, or_fresh, can_create,
  can_walk, can_pass,
}
use webdav_serverless.Lock.Counts.{refs-or_fresh}
use webdav_serverless.Lock.Ops.{enqueue, lock_node}
use webdav_serverless.Lock.Ops.Sound.{IsSound, IsUnlocked}
use webdav_serverless.Lock.Ops.Sound.Changed.{contains-push, IsNodup-push}
use webdav_serverless.Lock.Ops.Sound.Referred.{refer-new}
use webdav_serverless.Lock.Ops.Sound.Added.{added-IsSound}

-- A new lock of `x`, that nobody has.
module _ (m : MemLs) (ls : List Bytes) (sound : IsSound m ls) (x : Bytes)
    (absent : contains ls x ≡ false) (t : Bytes) (new : lookup t m.by_token ≡ none)
    (named : t ≢ []) where
  abbrev referred : Dict Bytes Node
  referred = refer m.by_name (walk_to_root x)

  -- The node that create gives, with the heap.
  abbrev based : Node
  based = or_fresh x (lookup x referred)

  found-IsUnlocked : (o : Option Node) → lookup x referred ≡ o → IsUnlocked (or_fresh x o)
  found-IsUnlocked none at = record { token = refl; queued = refl; held = refl }
  found-IsUnlocked (some c) at = elim (refer-new m.by_name (walk_to_root x) x c at) [
    | inl u ↦ u
    | inr (b, at_b, same) ↦
        let f : IsUnlocked b = sound.rest x b at_b absent in
        record {
          token = same.token ∙ f.token;
          queued = same.queued ∙ f.queued;
          held = same.held ∙ f.held;
        }
  ]

  pub base-IsUnlocked : IsUnlocked based
  base-IsUnlocked = found-IsUnlocked (lookup x referred) refl

  not_queued : contains m.by_expiry x ≡ false
  not_queued = elim (Bool-cases (contains m.by_expiry x)) [
    | inl q ↦ let bad : true ≡ false = sym (sound.heap x q) ∙ absent in cc
    | inr q ↦ q
  ]

  abbrev began : ℕ → MemLs
  began gen = record m { by_name = referred; by_token = insert t x m.by_token; gen = gen }

  enqueue-as :
      (now : ℕ) (details : LockDetails) (gen : ℕ) (d : Option ℕ)
      → details.lock_root ≡ x
      → IsSound
          (enqueue x (lock_node (record details { duration = d }) t now based) (began gen))
          (x ∷ ls)
  unfolding enqueue heap_push
  enqueue-as now details gen none own =
      added-IsSound m ls sound x absent t new named gen
        (record based { details = record details { duration = none }; token = t }) m.by_expiry refl
        own (refs-or_fresh x (lookup x referred)) (ground (arith, base-IsUnlocked.queued))
        sound.nodup (λ y. ground (arith, base-IsUnlocked.queued, not_queued, beq→eq y x))
  enqueue-as now details gen (some d) own =
      added-IsSound m ls sound x absent t new named gen
        (record based {
          details = record details { duration = some d };
          token = t;
          expiry = now + d;
          queued = true;
        })
        (push referred x (now + d) m.by_expiry) refl own (refs-or_fresh x (lookup x referred))
        (ground (arith, base-IsUnlocked.held))
        (IsNodup-push referred x (now + d) m.by_expiry not_queued sound.nodup)
        (λ y. ground (arith, contains-push referred x y (now + d) m.by_expiry))

  pub enqueue-IsSound :
      (now : ℕ) (details : LockDetails) (gen : ℕ)
      → details.lock_root ≡ x
      → IsSound (enqueue x (lock_node details t now based) (began gen)) (x ∷ ls)
  enqueue-IsSound now details gen own = enqueue-as now details gen details.duration own

pub walk_to_root-cons : (x : Bytes) → (rest : List Bytes) × (walk_to_root x ≡ x ∷ rest)
unfolding walk_to_root walk
walk_to_root-cons x = elim (Bool-cases (beq x root)) [
  | inl p ↦ ([], rw p refl)
  | inr p ↦ (walk (length x) (up x), rw p refl)
]

can_walk-head :
    (zero_depth : Bool) (nodes : Dict Bytes Node) (x : Bytes) (rest : List Bytes) (n : Node)
    → can_walk zero_depth true nodes (x ∷ rest) ≡ true
    → lookup x nodes ≡ some n
    → beq n.token [] ≡ true
unfolding can_walk can_pass
can_walk-head zero_depth nodes x rest n h at = ground (arith, h, at)

-- canCreate refuses a name that is locked.
pub can_create-absent :
    (m : MemLs) (ls : List Bytes) (x : Bytes) (zero_depth : Bool)
    → IsSound m ls
    → can_create x zero_depth m ≡ true
    → contains ls x ≡ false
unfolding can_create
can_create-absent m ls x zero_depth sound h = elim (Bool-cases (contains ls x)) [
  | inr q ↦ q
  | inl q ↦
      let (rest, e) = walk_to_root-cons x in
      let (n, l) = sound.locks x q in
      let at : lookup x m.by_name ≡ some n = l.at in
      let bad : beq n.token [] ≡ true =
        can_walk-head zero_depth m.by_name x rest n
          (sym (ap (can_walk zero_depth true m.by_name) e) ∙ h) at in
      absurd (l.named (beq→eq n.token [] bad))
]
