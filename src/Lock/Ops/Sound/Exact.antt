-- ===== src/Lock/Ops/Sound/Exact.antt =====
-- When Create grants a lock (webdav/lock.go, canCreate).
use webdav_serverless.Base.{
  ℕ, ◌<◌, Bool, true, false, ◌||◌, Option, some, List, [], ◌∷◌, ◌≡◌, ◌≢◌, ◌↔◌, ◌⊎◌, refl, sym, ap,
  ◌∙◌, Bytes, bytes_eq, beq, beq_refl, if◌then◌else◌, arith, contains, Option-cases, Bool-cases,
  inl, inr,
}
use webdav_serverless.Base.Dict.{Dict, lookup}
use webdav_serverless.Path.{slash_clean}
use webdav_serverless.Lock.{
  Node, MemLs, LockDetails, LockResult, LockError, granted, refused, locked, walk_to_root,
  can_create, can_walk, can_pass,
}
use webdav_serverless.Lock.Counts.{times}
use webdav_serverless.Lock.Ops.{create, create_lock, collect_expired_nodes}
use webdav_serverless.Lock.Ops.Sound.{total, IsUnlocked, IsSound}
use webdav_serverless.Lock.Ops.Sound.Created.{walk_to_root-cons}
use webdav_serverless.Lock.Ops.Sound.Compatible.{
  IsCompatible, can_create-IsCompatible, times-absent,
}

-- Where a name has a node, there is a lock at it or below it.
total-positive :
    (x : Bytes) (ls : List Bytes)
    → 0 < total x ls
    → (l : Bytes) × (contains ls l ≡ true) × (contains (walk_to_root l) x ≡ true)
unfolding contains
total-positive x [] h = absurd (omega (arith, h))
total-positive x (k ∷ ls) h = elim (Bool-cases (contains (walk_to_root k) x)) [
  | inl p ↦ (k, ground (arith, beq_refl k), p)
  | inr p ↦
      let (l, is_in, below) = total-positive x ls (
        let z : times x (walk_to_root k) ≡ 0 = times-absent x (walk_to_root k) p in
        omega (arith, z, h)) in
      (l, ground (arith, is_in), below)
]

can_walk-all :
    (zero_depth : Bool) (nodes : Dict Bytes Node) (ws : List Bytes)
    → ((w : Bytes) (n : Node)
        → contains ws w ≡ true
        → lookup w nodes ≡ some n
        → (beq n.token [] || n.details.zero_depth) ≡ true)
    → can_walk zero_depth false nodes ws ≡ true
unfolding can_walk can_pass contains
can_walk-all zero_depth nodes [] h = refl
can_walk-all zero_depth nodes (w ∷ ws) h =
    let more : can_walk zero_depth false nodes ws ≡ true =
      can_walk-all zero_depth nodes ws (λ v n is at. h v n (ground (arith, is)) at) in
    elim (Option-cases (lookup w nodes)) [
      | inl p ↦ ground (arith, p, more)
      | inr (n, p) ↦
          let pass : (beq n.token [] || n.details.zero_depth) ≡ true =
            h w n (ground (arith, beq_refl w)) p in
          rw (p, pass) more
    ]

can_walk-both :
    (zero_depth : Bool) (nodes : Dict Bytes Node) (x : Bytes) (ws : List Bytes)
    → ((n : Node) → lookup x nodes ≡ some n → (n.token ≡ []) × (zero_depth ≡ true))
    → can_walk zero_depth false nodes ws ≡ true
    → can_walk zero_depth true nodes (x ∷ ws) ≡ true
unfolding can_walk can_pass
can_walk-both zero_depth nodes x ws h more = elim (Option-cases (lookup x nodes)) [
  | inl p ↦ rw p more
  | inr (n, p) ↦ let (token, depth) = h n p in rw (p, token, beq_refl {A = Bytes} [], depth) more
]

Compatible-can_create :
    (m : MemLs) (ls : List Bytes) (x : Bytes) (zero_depth : Bool)
    → IsSound m ls
    → ((l : Bytes) (n : Node)
        → contains ls l ≡ true
        → lookup l m.by_name ≡ some n
        → IsCompatible x zero_depth l n)
    → can_create x zero_depth m ≡ true
unfolding can_create contains
Compatible-can_create m ls x zero_depth sound h =
    let (rest, e) = walk_to_root-cons x in
    ap (can_walk zero_depth true m.by_name) e
    ∙ can_walk-both zero_depth m.by_name x rest
        (λ n at.
          let positive : 0 < n.ref_count = sound.referred x n at in
          let many : 0 < total x ls = ground (arith, positive, at, sound.counts x) in
          let (l, is_in, below) = total-positive x ls many in
          let (k, lock) = sound.locks l is_in in
          let there : IsCompatible x zero_depth l k = h l k is_in lock.at in
          (
            unlocked x n at (λ is.
                (let (c, own) = sound.locks x is in
                  let self : IsCompatible x zero_depth x c = h x c is own.at in self.other refl)),
            there.below below,
          ))
        (can_walk-all zero_depth m.by_name rest (λ w n is at. elim (Bool-cases (contains ls w)) [
          | inl p ↦
              let there : IsCompatible x zero_depth w n = h w n p at in
              let depth : n.details.zero_depth ≡ true =
                there.above (ap (λ ws. contains ws w) e ∙ ground (arith, is)) in
              ground (arith, depth)
          | inr p ↦
              let free : IsUnlocked n = sound.rest w n at p in
              rw (free.token, beq_refl {A = Bytes} []) refl
        ]))
  where
    unlocked :
        (y : Bytes) (n : Node) → lookup y m.by_name ≡ some n → contains ls y ≢ true → n.token ≡ []
    unlocked y n at ne = elim (Bool-cases (contains ls y)) [
      | inl p ↦ absurd (ne p)
      | inr p ↦ let free : IsUnlocked n = sound.rest y n at p in free.token
    ]

create-answer :
    (now : ℕ) (details : LockDetails) (m m1 : MemLs) (b : Bool)
    → collect_expired_nodes now m ≡ some m1
    → can_create (slash_clean details.lock_root) details.zero_depth m1 ≡ b
    → create now details m
      ≡ some (
          if b
          then create_lock now (record details { lock_root = slash_clean details.lock_root }) m1
          else (refused locked, m1))
unfolding create
create-answer now details m m1 b ran h = rw (ran, h) refl

true-ne : true ≢ false
true-ne h = cc

refused-ne :
    (e : LockError) (m m' : MemLs) (t : Bytes)
    → Path (Option (LockResult Bytes × MemLs)) (some (refused e, m)) (some (granted t, m'))
    → ⊥
refused-ne e m m' t h = cc

-- On a state that is sound once the expired locks are removed, Create grants a lock exactly where no
-- lock that is left conflicts with it: each is of another name; one at a name above the new one has
-- the depth zero, and the new lock has the depth zero if one is at a name below. Else it is refused
-- with ErrLocked, and only the expired locks are gone.
pub create-IsCompatible :
    (now : ℕ) (details : LockDetails) (m m1 : MemLs) (ls : List Bytes)
    → collect_expired_nodes now m ≡ some m1
    → IsSound m1 ls
    → (((t : Bytes) × (m' : MemLs) × (create now details m ≡ some (granted t, m'))) ↔ (
        (l : Bytes) (n : Node)
        → contains ls l ≡ true
        → lookup l m1.by_name ≡ some n
        → IsCompatible (slash_clean details.lock_root) details.zero_depth l n))
      × ((create now details m ≡ some (refused locked, m1))
          ⊎ ((t : Bytes) × (m' : MemLs) × (create now details m ≡ some (granted t, m'))))
unfolding create_lock
create-IsCompatible now details m m1 ls ran sound =
    let x : Bytes = slash_clean details.lock_root in
    let d : LockDetails = record details { lock_root = x } in
    elim (Bool-cases (can_create x details.zero_depth m1)) [
      | inl p ↦
          let given : create now details m ≡ some (create_lock now d m1) =
            create-answer now details m m1 true ran p in
          let made : (t : Bytes) × (m' : MemLs) × (create now details m ≡ some (granted t, m')) =
            (_, _, given) in
          ((λ _. can_create-IsCompatible m1 ls x details.zero_depth sound p, λ _. made), inr made)
      | inr p ↦
          let answer : create now details m ≡ some (refused locked, m1) =
            create-answer now details m m1 false ran p in
          (
            (
              λ (t, m', g). absurd (refused-ne locked m1 m' t (sym answer ∙ g)),
              λ h.
                  (let bad : true ≡ false =
                      sym (Compatible-can_create m1 ls x details.zero_depth sound h) ∙ p in
                    absurd (true-ne bad)),
            ),
            inl answer,
          )
    ]
