-- ===== src/Lock/Ops/Sound/Compatible.antt =====
-- The locks that canCreate lets through (webdav/lock.go).
use mathlib.Core.Option.{some-injective}
use webdav_serverless.Base.{
  ◌<◌, ◌≤◌, Bool, true, false, some, List, [], ◌∷◌, ◌≡◌, ◌≢◌, refl, sym, ap, ◌∙◌, Bytes, bytes_eq,
  beq, beq→eq, arith, contains, Option-cases, Bool-cases, inl, inr,
}
use webdav_serverless.Base.Dict.{Dict, lookup}
use webdav_serverless.Lock.{Node, MemLs, walk_to_root, can_create, can_walk, can_pass}
use webdav_serverless.Lock.Counts.{refs, times}
use webdav_serverless.Lock.Ops.Sound.{total, IsSound}
use webdav_serverless.Lock.Ops.Sound.Created.{can_create-absent, walk_to_root-cons}

-- A lock of `l`, with the node `n`, beside a lock of `x` with the given depth: they are of two names;
-- one that is at or above the other has the depth zero.
pub record IsCompatible (x : Bytes) (zero_depth : Bool) (l : Bytes) (n : Node) : Type 0 where
  pub other : l ≢ x
  pub above : contains (walk_to_root x) l ≡ true → n.details.zero_depth ≡ true
  pub below : contains (walk_to_root l) x ≡ true → zero_depth ≡ true

can_walk-above :
    (zero_depth : Bool) (nodes : Dict Bytes Node) (ws : List Bytes) (l : Bytes) (n : Node)
    → can_walk zero_depth false nodes ws ≡ true
    → contains ws l ≡ true
    → lookup l nodes ≡ some n
    → n.token ≢ []
    → n.details.zero_depth ≡ true
unfolding can_walk can_pass contains
can_walk-above zero_depth nodes [] l n h is at named = cc
can_walk-above zero_depth nodes (w ∷ ws) l n h is at named = elim (Bool-cases (beq l w)) [
  | inl p ↦
      let here : lookup w nodes ≡ some n = ap (λ z. lookup z nodes) (sym (beq→eq l w p)) ∙ at in
      ground (arith, h, here, beq→eq n.token [], named)
  | inr p ↦
      can_walk-above zero_depth nodes ws l n (ground (arith, h)) (ground (arith, is, p)) at named
]

can_walk-first :
    (zero_depth : Bool) (nodes : Dict Bytes Node) (x : Bytes) (ws : List Bytes) (n : Node)
    → can_walk zero_depth true nodes (x ∷ ws) ≡ true
    → lookup x nodes ≡ some n
    → zero_depth ≡ true
unfolding can_walk can_pass
can_walk-first zero_depth nodes x ws n h at = ground (arith, h, at)

can_walk-rest :
    (zero_depth : Bool) (nodes : Dict Bytes Node) (x : Bytes) (ws : List Bytes)
    → can_walk zero_depth true nodes (x ∷ ws) ≡ true
    → can_walk zero_depth false nodes ws ≡ true
unfolding can_walk
can_walk-rest zero_depth nodes x ws h = ground (arith, h)

times-contains : (x : Bytes) (ws : List Bytes) → contains ws x ≡ true → 0 < times x ws
unfolding contains
times-contains x [] h = cc
times-contains x (w ∷ ws) h = ground (arith, h, times-contains x ws)

pub times-absent : (x : Bytes) (ws : List Bytes) → contains ws x ≡ false → times x ws ≡ 0
unfolding contains
times-absent x [] h = refl
times-absent x (w ∷ ws) h = ground (arith, h, times-absent x ws)

total-contains :
    (x l : Bytes) (ls : List Bytes) → contains ls l ≡ true → times x (walk_to_root l) ≤ total x ls
unfolding contains
total-contains x l [] h = cc
total-contains x l (k ∷ ls) h = elim (Bool-cases (beq l k)) [
  | inl p ↦ omega (arith, ap (λ z. times x (walk_to_root z)) (beq→eq l k p))
  | inr p ↦ omega (arith, total-contains x l ls (ground (arith, h, p)))
]

pub can_create-IsCompatible :
    (m : MemLs) (ls : List Bytes) (x : Bytes) (zero_depth : Bool)
    → IsSound m ls
    → can_create x zero_depth m ≡ true
    → (l : Bytes) (n : Node) → contains ls l ≡ true
    → lookup l m.by_name ≡ some n
    → IsCompatible x zero_depth l n
unfolding can_create contains
can_create-IsCompatible m ls x zero_depth sound h l n is_in at =
    let (rest, e) = walk_to_root-cons x in
    let walked : can_walk zero_depth true m.by_name (x ∷ rest) ≡ true =
      sym (ap (can_walk zero_depth true m.by_name) e) ∙ h in
    let (n', lock) = sound.locks l is_in in
    let is : n' ≡ n = some-injective n' n (sym lock.at ∙ at) in
    let named : n.token ≢ [] = λ z. lock.named (ap (λ (k : Node). k.token) is ∙ z) in
    let ne : l ≢ x = λ z.
      (let bad : true ≡ false =
          sym is_in ∙ ap (contains ls) z ∙ can_create-absent m ls x zero_depth sound h in
        cc) in
    record {
      other = ne;
      above = λ k.
          can_walk-above zero_depth m.by_name rest l n
            (can_walk-rest zero_depth m.by_name x rest walked)
            (tail-contains x l rest ne (sym (ap (λ ws. contains ws l) e) ∙ k)) at named;
      below = λ k.
          let (i, found) = referred x (
            let low : times x (walk_to_root l) ≤ total x ls = total-contains x l ls is_in in
            let some_refs : 0 < times x (walk_to_root l) = times-contains x (walk_to_root l) k in
            omega (arith, low, some_refs, sound.counts x)) in
          can_walk-first zero_depth m.by_name x rest i walked found;
    }
  where
    tail-contains :
        (x l : Bytes) (rest : List Bytes)
        → l ≢ x
        → contains (x ∷ rest) l ≡ true
        → contains rest l ≡ true
    tail-contains x l rest ne h = ground (arith, h, ne)

    referred :
        (y : Bytes) → 0 < refs (lookup y m.by_name) → (i : Node) × (lookup y m.by_name ≡ some i)
    referred y h = elim (Option-cases (lookup y m.by_name)) [
      | inl p ↦ absurd (ground (arith, p, h))
      | inr (i, p) ↦ (i, p)
    ]
