-- ===== src/Lock/Ops/Sound.antt =====
-- The sound states of memLS: the reference counts are those of the locks, the tokens
-- lead to them, and the heap has those that can expire (webdav/lock.go).
pub mod Unlisted
pub mod Left
pub mod Removed
pub mod Expiry
pub mod Changed
pub mod Refreshed
pub mod Referred
pub mod Added
pub mod Created
pub mod Methods
pub mod Confirming
pub mod Held
pub mod Excluded
pub mod Shown
pub mod Granted
pub mod Compatible
pub mod Exact
use mathlib.Core.Option.{some-injective}
use webdav_serverless.Base.{
  ℕ, zero, suc, ◌+◌, ◌-◌, ◌<◌, ◌≤◌, Bool, true, false, ◌||◌, ◌&&◌, not, Option, none, some, List,
  [], ◌∷◌, ◌≡◌, ◌≢◌, refl, sym, ap, ◌∙◌, subst, Bytes, bytes_eq, beq, beq_refl, beq→eq,
  if◌then◌else◌, ◌==◌, arith, contains, Option-cases, Bool-cases, inl, inr, length,
}
use webdav_serverless.Base.Dict.{Dict, lookup, insert, erase, lookup-insert, lookup-erase}
use webdav_serverless.Path.{root}
use webdav_serverless.Lock.{
  Node, MemLs, walk, walk_to_root, unlist, unrefer, release_one, heap_remove, ◌>>=◌,
}
use webdav_serverless.Lock.Counts.{AllReferred, times, refs, lowered, unrefer-refs}

-- The references that locks of the names `ls` give to a name.
abbrev pub total : Bytes → List Bytes → ℕ
total k [] = 0
total k (l ∷ ls) = times k (walk_to_root l) + total k ls

abbrev pub IsNodup : List Bytes → Type 0
IsNodup [] = Unit
IsNodup (x ∷ xs) = (contains xs x ≡ false) × IsNodup xs

-- A lock that has an end.
abbrev pub expires : Option ℕ → Bool
expires none = false
expires (some d) = true

-- The node of a lock: its token leads to it, and it is in the heap unless it is held or has no end.
pub record IsLock (m : MemLs) (x : Bytes) (n : Node) : Type 0 where
  pub at : lookup x m.by_name ≡ some n
  pub own : n.details.lock_root ≡ x
  pub token : lookup n.token m.by_token ≡ some x
  pub named : n.token ≢ []
  pub queue : contains m.by_expiry x ≡ n.queued
  pub waits : n.queued ≡ (not n.held && expires n.details.duration)

-- A node that is not locked itself.
pub record IsUnlocked (n : Node) : Type 0 where
  pub token : n.token ≡ []
  pub queued : n.queued ≡ false
  pub held : n.held ≡ false

-- `ls` are the names that are locked.
pub record IsSound (m : MemLs) (ls : List Bytes) : Type 0 where
  pub counts : (k : Bytes) → refs (lookup k m.by_name) ≡ total k ls
  pub referred : AllReferred m.by_name
  pub nodup : IsNodup m.by_expiry
  pub unique : IsNodup ls
  pub locks : (x : Bytes) → contains ls x ≡ true → (n : Node) × IsLock m x n
  pub heap : (x : Bytes) → contains m.by_expiry x ≡ true → contains ls x ≡ true
  pub tokens :
      (t x : Bytes)
      → lookup t m.by_token ≡ some x
      → (contains ls x ≡ true) × ((n : Node) → lookup x m.by_name ≡ some n → n.token ≡ t)
  pub rest :
      (x : Bytes) (n : Node) → lookup x m.by_name ≡ some n → contains ls x ≡ false → IsUnlocked n

pub total-unlist :
    (k x : Bytes) (ls : List Bytes)
    → contains ls x ≡ true
    → total k (unlist x ls) + times k (walk_to_root x) ≡ total k ls
unfolding unlist contains
total-unlist k x [] h = cc
total-unlist k x (l ∷ ls) h = elim (Bool-cases (beq l x)) [
  | inl p ↦
      let same : times k (walk_to_root l) ≡ times k (walk_to_root x) =
        ap (λ n. times k (walk_to_root n)) (beq→eq l x p) in
      ap (λ b. total k (if b then ls else l ∷ unlist x ls) + times k (walk_to_root x)) p
      ∙ omega (arith, same)
  | inr p ↦
      let more : total k (unlist x ls) + times k (walk_to_root x) ≡ total k ls =
        total-unlist k x ls (ground (arith, h, p)) in
      ap (λ b. total k (if b then ls else l ∷ unlist x ls) + times k (walk_to_root x)) p
      ∙ omega (arith, more)
]

pub contains-unlist :
    (x y : Bytes) (ls : List Bytes) → y ≢ x → contains ls y ≡ true → contains (unlist x ls) y ≡ true
unfolding unlist contains
contains-unlist x y [] ne h = cc
contains-unlist x y (l ∷ ls) ne h = ground (arith, contains-unlist x y ls ne)

pub times-walk : (y : Bytes) → 0 < times y (walk_to_root y)
unfolding walk_to_root walk
times-walk y = elim (Bool-cases (beq y root)) [
  | inl p ↦ ground (arith, p, beq_refl y)
  | inr p ↦ ground (arith, p, beq_refl y)
]

pub contains-total : (y : Bytes) (ls : List Bytes) → contains ls y ≡ true → 0 < total y ls
unfolding contains
contains-total y [] h = cc
contains-total y (l ∷ ls) h = elim (Bool-cases (beq y l)) [
  | inl p ↦ omega (arith, times-walk y, ap (λ n. times y (walk_to_root n)) (beq→eq y l p))
  | inr p ↦
      let more : 0 < total y ls = contains-total y ls (ground (arith, h, p)) in omega (arith, more)
]

-- A node that is left after references are taken away is as it was, but for its count.
pub record IsSame (n n' : Node) : Type 0 where
  pub details : n'.details ≡ n.details
  pub token : n'.token ≡ n.token
  pub queued : n'.queued ≡ n.queued
  pub held : n'.held ≡ n.held
  pub expiry : n'.expiry ≡ n.expiry

pub IsSame-refl : (n : Node) → IsSame n n
IsSame-refl n = record { details = refl; token = refl; queued = refl; held = refl; expiry = refl }

pub IsSame-trans : (a b c : Node) → IsSame a b → IsSame b c → IsSame a c
IsSame-trans a b c h k = record {
  details = k.details ∙ h.details;
  token = k.token ∙ h.token;
  queued = k.queued ∙ h.queued;
  held = k.held ∙ h.held;
  expiry = k.expiry ∙ h.expiry;
}

lowered-IsSame :
    (nodes : Dict Bytes Node) (x k : Bytes) (n n' : Node)
    → lookup x nodes ≡ some n
    → lookup k (lowered x n nodes) ≡ some n'
    → (m : Node) × (lookup k nodes ≡ some m) × IsSame m n'
lowered-IsSame nodes x k n n' at left = elim (Bool-cases (beq k x)) [
  | inl p ↦
      let is : some (record n { ref_count = n.ref_count - 1 }) ≡ some n' = ground (
        arith,
        p,
        left,
        lookup-erase k x nodes,
        lookup-insert k x (record n { ref_count = n.ref_count - 1 }) nodes,
      ) in
      (
        n,
        ap (λ j. lookup j nodes) (beq→eq k x p) ∙ at,
        subst (IsSame n) (some-injective _ n' is)
            (record { details = refl; token = refl; queued = refl; held = refl; expiry = refl }),
      )
  | inr p ↦ (
    n',
    ground (
      arith,
      p,
      left,
      lookup-erase k x nodes,
      lookup-insert k x (record n { ref_count = n.ref_count - 1 }) nodes,
    ),
    IsSame-refl n',
  )
]

pub unrefer-IsSame :
    (nodes rest : Dict Bytes Node) (ws : List Bytes) (k : Bytes) (n' : Node)
    → unrefer nodes ws ≡ some rest
    → lookup k rest ≡ some n'
    → (n : Node) × (lookup k nodes ≡ some n) × IsSame n n'
unfolding unrefer release_one
unrefer-IsSame nodes rest [] k n' h at =
    (n', ap (lookup k) (some-injective nodes rest h) ∙ at, IsSame-refl n')
unrefer-IsSame nodes rest (x ∷ ws) k n' h at = elim (Option-cases (lookup x nodes)) [
  | inl p ↦
      let bad : none ≡ some rest =
        ap (λ o. release_one x o nodes >>= λ rest. unrefer rest ws) (sym p) ∙ h in
      cc
  | inr (n, p) ↦
      let step : unrefer (lowered x n nodes) ws ≡ some rest =
        ap (λ o. release_one x o nodes >>= λ rest. unrefer rest ws) (sym p) ∙ h in
      let (b, at_b, same) = unrefer-IsSame (lowered x n nodes) rest ws k n' step at in
      let (a, at_a, same') = lowered-IsSame nodes x k n b p at_b in
      (a, at_a, IsSame-trans a b n' same' same)
]
