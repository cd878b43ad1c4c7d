-- ===== src/Lock/Ops/Sound/Removed.antt =====
-- remove on a sound state (webdav/lock.go).
use mathlib.Core.Option.{some-injective}
use webdav_serverless.Base.{
  beq_refl, ◌<◌, true, false, Option, none, some, List, [], ◌≡◌, ◌≢◌, refl, sym, ap, ◌∙◌, subst,
  Bytes, bytes_eq, beq, beq→eq, if◌then◌else◌, arith, contains, Bool-cases, inl, inr,
}
use webdav_serverless.Base.Dict.{Dict, lookup, insert, erase, lookup-insert}
use webdav_serverless.Lock.{Node, MemLs, walk_to_root, unlist, unrefer, heap_remove, ◌>>=◌}
use webdav_serverless.Lock.Counts.{AllReferred, unrefer-AllReferred, refs, unrefer-refs}
use webdav_serverless.Lock.Ops.{unqueue, remove}
use webdav_serverless.Lock.Ops.Sound.{
  total, IsSound, IsLock, IsUnlocked, IsSame, total-unlist, unrefer-IsSame,
}
use webdav_serverless.Lock.Ops.Sound.Unlisted.{IsNodup-unlist, contains-unlist_eq}
use webdav_serverless.Lock.Ops.Sound.Left.{after-IsSound}

-- A state that remove leaves: without the lock of `x`, whose node was `n`, its token and its place in
-- the heap, and with the other nodes as they were.
pub record IsLess (m : MemLs) (ls : List Bytes) (x : Bytes) (n : Node) (m' : MemLs) : Type 0 where
  pub kept : IsSound m' (unlist x ls)
  pub queue : m'.by_expiry ≡ (if n.queued then unlist x m.by_expiry else m.by_expiry)
  pub tokens : m'.by_token ≡ erase n.token m.by_token
  pub others :
      (y : Bytes) (n' : Node)
      → y ≢ x
      → lookup y m'.by_name ≡ some n'
      → (c : Node) × (lookup y m.by_name ≡ some c) × IsSame c n'

-- Removal of the lock of `x`, whose node is `n`.
module _ (m : MemLs) (ls : List Bytes) (sound : IsSound m ls) (x : Bytes) (n : Node)
    (locked : contains ls x ≡ true) (lock : IsLock m x n) (unheld : n.held ≡ false) where
  abbrev bare : Dict Bytes Node
  bare = insert x (record n { token = [] }) m.by_name

  refs-bare : (k : Bytes) → refs (lookup k bare) ≡ refs (lookup k m.by_name)
  refs-bare k =
      ground (arith, lock.at, lookup-insert k x (record n { token = [] }) m.by_name, beq→eq k x)

  -- The state without the lock, before the node has left the heap.
  abbrev cut : Dict Bytes Node → MemLs
  cut rest = record m { by_name = rest; by_token = erase n.token m.by_token }

  module _ (rest : Dict Bytes Node) (done : unrefer bare (walk_to_root x) ≡ some rest)
      (counts : (k : Bytes) → refs (lookup k rest) ≡ total k (unlist x ls)) where
    others-rest :
        (y : Bytes) (n' : Node)
        → y ≢ x
        → lookup y rest ≡ some n'
        → (c : Node) × (lookup y m.by_name ≡ some c) × IsSame c n'
    others-rest y n' ne at =
        let (b, at_b, same) = unrefer-IsSame bare rest (walk_to_root x) y n' done at in
        (b, ground (arith, at_b, ne, lookup-insert y x (record n { token = [] }) m.by_name), same)

    bare-AllReferred : AllReferred bare
    bare-AllReferred k i found =
        let positive : 0 < n.ref_count = sound.referred x n lock.at in
        ground (
          arith,
          found,
          positive,
          sound.referred k i,
          lookup-insert k x (record n { token = [] }) m.by_name,
        )

    rest-AllReferred : AllReferred rest
    rest-AllReferred = unrefer-AllReferred bare rest (walk_to_root x) done bare-AllReferred

    own-rest :
        (n' : Node)
        → lookup x rest ≡ some n'
        → (n'.token ≡ []) × (n'.queued ≡ n.queued) × (n'.held ≡ false)
    own-rest n' at =
        let (b, at_b, same) = unrefer-IsSame bare rest (walk_to_root x) x n' done at in
        let is : record n { token = [] } ≡ b =
          some-injective (record n { token = [] }) b
            (ground
              (arith, at_b, beq_refl x, lookup-insert x x (record n { token = [] }) m.by_name)) in
        (
          same.token ∙ ap (λ (k : Node). k.token) (sym is),
          same.queued ∙ ap (λ (k : Node). k.queued) (sym is),
          same.held ∙ ap (λ (k : Node). k.held) (sym is) ∙ unheld,
        )

    left-queue :
        (y : Bytes)
        → contains (unlist x m.by_expiry) y ≡ (if beq y x then false else contains m.by_expiry y)
    left-queue y = contains-unlist_eq x y m.by_expiry sound.nodup

    unqueue-IsSound :
        (o : Option Node)
        → lookup x rest ≡ o
        → IsSound (unqueue x (cut rest) o) (unlist x ls)
          × ((unqueue x (cut rest) o).by_expiry ≡ unlist x m.by_expiry)
          × ((unqueue x (cut rest) o).by_token ≡ erase n.token m.by_token)
          × ((y : Bytes) (n' : Node)
              → y ≢ x
              → lookup y (unqueue x (cut rest) o).by_name ≡ some n'
              → (c : Node) × (lookup y m.by_name ≡ some c) × IsSame c n')
    unfolding unqueue heap_remove
    unqueue-IsSound none gone = (
      after-IsSound m ls sound x n locked lock unheld rest (unlist x m.by_expiry) counts
          rest-AllReferred others-rest (λ n' at. (let bad : none ≡ some n' = sym gone ∙ at in cc))
          (IsNodup-unlist x m.by_expiry sound.nodup) left-queue,
      refl,
      refl,
      others-rest,
    )
    unqueue-IsSound (some c) stays =
        let off : Node = record c { queued = false } in
        let (tok, _, held) = own-rest c stays in
        (
          after-IsSound m ls sound x n locked lock unheld (insert x off rest) (unlist x m.by_expiry)
              (λ k. ground (arith, counts k, stays, lookup-insert k x off rest, beq→eq k x))
              (λ k i found.
                let positive : 0 < c.ref_count = rest-AllReferred x c stays in
                ground (arith, found, positive, rest-AllReferred k i, lookup-insert k x off rest))
              (λ y n' ne at.
                others-rest y n' ne (ground (arith, at, ne, lookup-insert y x off rest)))
              (λ n' at.
                let is : off ≡ n' =
                  some-injective off n'
                    (ground (arith, at, beq_refl x, lookup-insert x x off rest)) in
                subst IsUnlocked is (record { token = tok; queued = refl; held = held }))
              (IsNodup-unlist x m.by_expiry sound.nodup) left-queue,
          refl,
          refl,
          λ y n' ne at. others-rest y n' ne (ground (arith, at, ne, lookup-insert y x off rest)),
        )

    cut-IsSound : n.queued ≡ false → IsSound (cut rest) (unlist x ls)
    cut-IsSound off =
        after-IsSound m ls sound x n locked lock unheld rest m.by_expiry counts rest-AllReferred
          others-rest
          (λ n' at.
            let (tok, queued, held) = own-rest n' at in
            record { token = tok; queued = queued ∙ off; held = held })
          sound.nodup (λ y. ground (arith, lock.queue, off, beq→eq y x))

  -- It does not panic, and what is left is sound.
  pub remove-IsSound : (m' : MemLs) × (remove x n m ≡ some m') × IsLess m ls x n m'
  unfolding remove
  remove-IsSound =
      let (rest, done, lower) =
        unrefer-refs bare (walk_to_root x)
          (λ k. omega (arith, refs-bare k, sound.counts k, total-unlist k x ls locked)) in
      let counts : (k : Bytes) → refs (lookup k rest) ≡ total k (unlist x ls) =
        λ k. omega (arith, lower k, refs-bare k, sound.counts k, total-unlist k x ls locked) in
      let ran : unrefer bare (walk_to_root n.details.lock_root) ≡ some rest =
        ap (λ r. unrefer bare (walk_to_root r)) lock.own ∙ done in
      let finish : Dict Bytes Node → Option MemLs =
        λ nodes. some (if n.queued then unqueue x (cut nodes) (lookup x nodes) else cut nodes) in
      elim (Bool-cases n.queued) [
        | inl p ↦
            let (ok_sound, queue, tokens, others) =
              unqueue-IsSound rest done counts (lookup x rest) refl in
            (
              unqueue x (cut rest) (lookup x rest),
              ap (λ o. o >>= finish) ran
                  ∙ ap (λ b. some (if b then unqueue x (cut rest) (lookup x rest) else cut rest)) p,
              record {
                kept = ok_sound;
                queue = queue ∙ ap (λ b. if b then unlist x m.by_expiry else m.by_expiry) (sym p);
                tokens = tokens;
                others = others;
              },
            )
        | inr p ↦ (
          cut rest,
          ap (λ o. o >>= finish) ran
              ∙ ap (λ b. some (if b then unqueue x (cut rest) (lookup x rest) else cut rest)) p,
          record {
            kept = cut-IsSound rest done counts p;
            queue = ap (λ b. if b then unlist x m.by_expiry else m.by_expiry) (sym p);
            tokens = refl;
            others = others-rest rest done counts;
          },
        )
      ]
