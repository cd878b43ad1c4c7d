-- ===== src/Lock/Ops/Sound/Expiry.antt =====
-- collectExpiredNodes on a sound state (webdav/lock.go).
use webdav_serverless.Base.{
  ℕ, zero, suc, true, false, ◌<◌, ◌≤◌, Option, some, List, [], ◌∷◌, ◌≡◌, refl, sym, ap, ◌∙◌, subst,
  Bytes, bytes_eq, beq_refl, if◌then◌else◌, ltb, arith, contains, Bool-cases, inl, inr, length,
}
use webdav_serverless.Base.Dict.{lookup}
use webdav_serverless.Lock.{Node, MemLs, unlist, expiry_of, ◌>>=◌}
use webdav_serverless.Lock.Ops.{remove_at, collect, collect_expired_nodes}
use webdav_serverless.Lock.Ops.Sound.{IsSound, IsLock}
use webdav_serverless.Lock.Ops.Sound.Removed.{IsLess, remove-IsSound}

-- No lock at the front of the heap has expired.
abbrev pub IsCurrent : ℕ → MemLs → List Bytes → Type 0
IsCurrent now m [] = Unit
IsCurrent now m (x ∷ xs) = now < expiry_of (lookup x m.by_name)

unlist-head : (x : Bytes) (xs : List Bytes) → unlist x (x ∷ xs) ≡ xs
unfolding unlist
unlist-head x xs = ap (λ b. if b then xs else x ∷ unlist x xs) (beq_refl x)

-- What holds of the state and is kept when a lock is removed that has expired.
module _ (P : MemLs → List Bytes → Type 0) (now : ℕ)
    (step : (m : MemLs) (ls : List Bytes) (sound : IsSound m ls) (x : Bytes) (n : Node)
      → contains ls x ≡ true
      → IsLock m x n
      → n.held ≡ false
      → (m' : MemLs) → IsLess m ls x n m'
      → n.queued ≡ true
      → n.expiry ≤ now
      → P m ls
      → P m' (unlist x ls)) where
  collect-IsSound :
      (fuel : ℕ) (m : MemLs) (ls heap : List Bytes)
      → IsSound m ls
      → P m ls
      → m.by_expiry ≡ heap
      → length heap < fuel
      → (m' : MemLs) × (left : List Bytes) × (collect fuel now m heap ≡ some m')
        × IsSound m' left
        × P m' left
        × IsCurrent now m' m'.by_expiry
  unfolding collect remove_at contains
  collect-IsSound zero m ls heap sound h is l = elim l [ ]
  collect-IsSound (suc fuel) m ls [] sound h is l =
      (m, ls, refl, sound, h, subst (IsCurrent now m) (sym is) tt)
  collect-IsSound (suc fuel) m ls (x ∷ xs) sound h is l =
      elim (Bool-cases (ltb now (expiry_of (lookup x m.by_name)))) [
        | inl p ↦ (
          m,
          ls,
          ap
              (λ b.
                if b
                then some m
                else (remove_at x m (lookup x m.by_name) >>= λ k. collect fuel now k k.by_expiry))
              p,
          sound,
          h,
          subst (IsCurrent now m) (sym is) (ground (arith, p)),
        )
        | inr p ↦
            let front : contains m.by_expiry x ≡ true =
              ap (λ q. contains q x) is ∙ ground (arith, beq_refl x) in
            let locked : contains ls x ≡ true = sound.heap x front in
            let (n, lock) = sound.locks x locked in
            let at : lookup x m.by_name ≡ some n = lock.at in
            let queued : n.queued ≡ true = sym lock.queue ∙ front in
            let unheld : n.held ≡ false = ground (arith, queued, lock.waits) in
            let (m1, done, less) = remove-IsSound m ls sound x n locked lock unheld in
            let rest : m1.by_expiry ≡ xs =
              less.queue
              ∙ ap (λ b. if b then unlist x m.by_expiry else m.by_expiry) queued
              ∙ ap (unlist x) is
              ∙ unlist-head x xs in
            let again : MemLs → Option MemLs = λ k. collect fuel now k k.by_expiry in
            let past : n.expiry ≤ now = ground (arith, p, at) in
            let (m', left, ran, sound', h', current) =
              collect-IsSound fuel m1 (unlist x ls) xs less.kept
                (step m ls sound x n locked lock unheld m1 less queued past h) rest
                (omega (arith, l)) in
            (
              m',
              left,
              ap (λ b. if b then some m else (remove_at x m (lookup x m.by_name) >>= again)) p
                  ∙ ap (λ o. remove_at x m o >>= again) at
                  ∙ ap (λ o. o >>= again) done
                  ∙ ap (collect fuel now m1) rest
                  ∙ ran,
              sound',
              h',
              current,
            )
      ]

  pub collect_expired_nodes-Kept :
      (m : MemLs) (ls : List Bytes)
      → IsSound m ls
      → P m ls
      → (m' : MemLs) × (left : List Bytes) × (collect_expired_nodes now m ≡ some m')
        × IsSound m' left
        × P m' left
        × IsCurrent now m' m'.by_expiry
  unfolding collect_expired_nodes
  collect_expired_nodes-Kept m ls sound h =
      collect-IsSound (suc (length m.by_expiry)) m ls m.by_expiry sound h refl (omega arith)

-- On a sound state collectExpiredNodes does not panic and ends, with fuel to spare: the state that it
-- leaves is sound, and its heap is empty or has a lock at its front that has not expired.
pub collect_expired_nodes-IsSound :
    (now : ℕ) (m : MemLs) (ls : List Bytes)
    → IsSound m ls
    → (m' : MemLs) × (left : List Bytes) × (collect_expired_nodes now m ≡ some m')
      × IsSound m' left
      × IsCurrent now m' m'.by_expiry
collect_expired_nodes-IsSound now m ls sound =
    let (m', left, ran, sound', _, current) =
      collect_expired_nodes-Kept (λ m ls. Unit) now
        (λ m ls sound x n locked lock unheld m' less queued past h. tt) m ls sound tt in
    (m', left, ran, sound', current)
