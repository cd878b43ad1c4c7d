-- ===== src/Lock/Ops/Sound/Refreshed.antt =====
-- Refresh on a sound state (webdav/lock.go).
use webdav_serverless.Base.{
  ℕ, ◌+◌, Bool, true, false, Option, none, some, List, ◌≡◌, refl, sym, subst, Bytes, bytes_eq, beq,
  beq_refl, beq→eq, if◌then◌else◌, arith, contains, Bool-cases, inl, inr,
}
use webdav_serverless.Base.Dict.{Dict, insert, insert-insert}
use webdav_serverless.Lock.{
  Node, MemLs, LockDetails, LockResult, unlist, push, heap_push, heap_remove,
}
use webdav_serverless.Lock.Ops.{enqueue, lock_node, refresh_node}
use webdav_serverless.Lock.Ops.Sound.{IsNodup, IsSound, IsLock}
use webdav_serverless.Lock.Ops.Sound.Unlisted.{contains-unlist_eq, IsNodup-unlist}
use webdav_serverless.Lock.Ops.Sound.Changed.{contains-push, IsNodup-push, changed-IsSound}

module _ (m : MemLs) (ls : List Bytes) (sound : IsSound m ls) (x : Bytes) (n : Node)
    (locked : contains ls x ≡ true) (lock : IsLock m x n) (unheld : n.held ≡ false) where
  -- The state from which the node has been taken off the heap.
  module _ (nodes : Dict Bytes Node) (heap : List Bytes)
      (over : (k : Node) → insert x k nodes ≡ insert x k m.by_name) (nodup : IsNodup heap)
      (left : (y : Bytes)
        → contains heap y ≡ (if beq y x then false else contains m.by_expiry y)) where
    abbrev off : MemLs
    off = record m { by_name = nodes; by_expiry = heap }

    abbrev renewed : ℕ → Option ℕ → Node
    renewed now duration =
        lock_node (record n.details { duration = duration }) n.token now
          (record n { queued = false })

    pub enqueue-IsSound :
        (now : ℕ) (duration : Option ℕ) → IsSound (enqueue x (renewed now duration) off) ls
    unfolding enqueue heap_push
    enqueue-IsSound now none =
        let k : Node = renewed now none in
        subst (λ b. IsSound (record m { by_name = b; by_expiry = heap }) ls) (sym (over k))
          (changed-IsSound m ls sound x n locked lock k
            (record { token = refl; own = lock.own; count = refl; waits = ground (arith, unheld) })
            heap nodup left)
    enqueue-IsSound now (some d) =
        let k : Node = record (renewed now (some d)) { queued = true } in
        let pushed : List Bytes = push nodes x (now + d) heap in
        subst (λ b. IsSound (record m { by_name = b; by_expiry = pushed }) ls) (sym (over k))
          (changed-IsSound m ls sound x n locked lock k
            (record { token = refl; own = lock.own; count = refl; waits = ground (arith, unheld) })
            pushed (IsNodup-push nodes x (now + d) heap (ground (arith, left x, beq_refl x)) nodup)
            (λ y. ground (arith, contains-push nodes x y (now + d) heap, left y)))

  -- The state after the node has been taken off the heap, if it is in it.
  abbrev taken : Bool → MemLs
  taken b = if b then heap_remove x n m else m

  abbrev again : ℕ → Option ℕ → MemLs → MemLs
  again now duration rest =
      enqueue x
        (lock_node (record n.details { duration = duration }) n.token now
          (record n { queued = false }))
        rest

  not_held :
      (b : Bool) (y z : LockResult LockDetails × MemLs)
      → b ≡ false
      → IsSound z.1 ls
      → IsSound (if b then y else z).1 ls
  not_held true y z e h = cc
  not_held false y z e h = h

  pub refresh_node-IsSound :
      (now : ℕ) (duration : Option ℕ) → IsSound (refresh_node now duration m (some (x, n))).1 ls
  unfolding refresh_node heap_remove
  refresh_node-IsSound now duration = not_held n.held _ _ unheld (elim (Bool-cases n.queued) [
    | inl q ↦
        subst (λ b. IsSound (again now duration (taken b)) ls) (sym q)
          (enqueue-IsSound (insert x (record n { queued = false }) m.by_name) (unlist x m.by_expiry)
            (λ k. insert-insert x k (record n { queued = false }) m.by_name)
            (IsNodup-unlist x m.by_expiry sound.nodup)
            (λ y. contains-unlist_eq x y m.by_expiry sound.nodup) now duration)
    | inr q ↦
        subst (λ b. IsSound (again now duration (taken b)) ls) (sym q)
          (enqueue-IsSound m.by_name m.by_expiry (λ k. refl) sound.nodup
            (λ y. ground (arith, q, lock.queue, beq→eq y x)) now duration)
  ])
