-- ===== src/Lock/Ops/Sound/Methods.antt =====
-- Create, Refresh and Unlock on a sound state (webdav/lock.go).
use webdav_serverless.Base.{
  ℕ, ◌%◌, ◌^◌, ◌+◌, true, false, Option, none, some, List, ◌∷◌, ◌≡◌, ◌⊎◌, refl, ap, ◌∙◌, Bytes,
  bytes_eq, if◌then◌else◌, arith, contains, Option-cases, Bool-cases, inl, inr,
}
use webdav_serverless.Base.Dict.{lookup}
use webdav_serverless.Path.{slash_clean}
use webdav_serverless.Lock.{
  Node, MemLs, LockDetails, LockResult, granted, refused, locked, no_such_lock, can_create, ◌>>=◌,
}
use webdav_serverless.Lock.Decimal.{format_uint-ne-nil}
use webdav_serverless.Lock.Ops.{
  create, create_lock, next_token, refresh, refresh_node, unlock, unlock_node, node_of,
  collect_expired_nodes,
}
use webdav_serverless.Lock.Ops.Sound.{IsSound, IsLock}
use webdav_serverless.Lock.Ops.Sound.Removed.{remove-IsSound}
use webdav_serverless.Lock.Ops.Sound.Expiry.{collect_expired_nodes-IsSound}
use webdav_serverless.Lock.Ops.Sound.Refreshed.{refresh_node-IsSound}
use webdav_serverless.Lock.Ops.Sound.Created.{can_create-absent, enqueue-IsSound}

-- What a method leaves.
abbrev pub Sound : {A : Type 0} → Option (A × MemLs) → Type 0
Sound {A} o = (a : A) × (m : MemLs) × (ls : List Bytes) × (o ≡ some (a, m)) × IsSound m ls

-- The node that a token leads to, of a lock.
pub node_of-cases :
    (m : MemLs) (ls : List Bytes) (t : Bytes)
    → IsSound m ls
    → (node_of m (lookup t m.by_token) ≡ none)
      ⊎ ((x : Bytes) × (n : Node) × (node_of m (lookup t m.by_token) ≡ some (x, n))
          × (contains ls x ≡ true)
          × IsLock m x n
          × (n.token ≡ t))
node_of-cases m ls t sound = elim (Option-cases (lookup t m.by_token)) [
  | inl p ↦ inl (rw p refl)
  | inr (x, p) ↦
      let (is_in, tok) = sound.tokens t x p in
      let (n, l) = sound.locks x is_in in
      let at : lookup x m.by_name ≡ some n = l.at in
      inr (x, n, ground (arith, p, at), is_in, l, tok n at)
]

unlock_node-Sound :
    (m : MemLs) (ls : List Bytes) (x : Bytes) (n : Node)
    → IsSound m ls
    → contains ls x ≡ true
    → IsLock m x n
    → Sound (unlock_node m (some (x, n)))
unfolding unlock_node
unlock_node-Sound m ls x n sound is_in l = elim (Bool-cases n.held) [
  | inl h ↦ (refused locked, m, ls, ground (arith, h), sound)
  | inr h ↦
      let (m', done, less) = remove-IsSound m ls sound x n is_in l h in
      (granted tt, m', _, ground (arith, h, done), less.kept)
]

pub unlock-Sound :
    (now : ℕ) (t : Bytes) (m : MemLs) (ls : List Bytes) → IsSound m ls → Sound (unlock now t m)
unfolding unlock unlock_node
unlock-Sound now t m ls sound =
    let (m1, ls1, ran, sound1, _) = collect_expired_nodes-IsSound now m ls sound in
    elim (node_of-cases m1 ls1 t sound1) [
      | inl p ↦ (refused no_such_lock, m1, ls1, rw (ran, p) refl, sound1)
      | inr (x, n, p, is_in, l, _) ↦
          let (a, m2, ls2, done, sound2) = unlock_node-Sound m1 ls1 x n sound1 is_in l in
          (a, m2, ls2, rw (ran, p) done, sound2)
    ]

module _ (now : ℕ) (duration : Option ℕ) where
  refresh_node-Sound :
      (m : MemLs) (ls : List Bytes) (x : Bytes) (n : Node)
      → IsSound m ls
      → contains ls x ≡ true
      → IsLock m x n
      → Sound (some (refresh_node now duration m (some (x, n))))
  unfolding refresh_node
  refresh_node-Sound m ls x n sound is_in l = elim (Bool-cases n.held) [
    | inl h ↦ (refused locked, m, ls, ground (arith, h), sound)
    | inr h ↦ (_, _, ls, refl, refresh_node-IsSound m ls sound x n is_in l h now duration)
  ]

pub refresh-Sound :
    (now : ℕ) (t : Bytes) (duration : Option ℕ) (m : MemLs) (ls : List Bytes)
    → IsSound m ls
    → Sound (refresh now t duration m)
unfolding refresh refresh_node
refresh-Sound now t duration m ls sound =
    let (m1, ls1, ran, sound1, _) = collect_expired_nodes-IsSound now m ls sound in
    elim (node_of-cases m1 ls1 t sound1) [
      | inl p ↦ (refused no_such_lock, m1, ls1, rw (ran, p) refl, sound1)
      | inr (x, n, p, is_in, l, _) ↦
          let (a, m2, ls2, done, sound2) =
            refresh_node-Sound now duration m1 ls1 x n sound1 is_in l in
          (a, m2, ls2, rw (ran, p) done, sound2)
    ]

pub create-Sound :
    (now : ℕ) (details : LockDetails) (m : MemLs) (ls : List Bytes)
    → IsSound m ls
    → ((rest : MemLs)
        → collect_expired_nodes now m ≡ some rest
        → lookup (next_token rest).0 rest.by_token ≡ none)
    → Sound (create now details m)
unfolding create create_lock next_token
create-Sound now details m ls sound new =
    let (m1, ls1, ran, sound1, _) = collect_expired_nodes-IsSound now m ls sound in
    let d : LockDetails = record details { lock_root = slash_clean details.lock_root } in
    let finish : MemLs → Option (LockResult Bytes × MemLs) = λ k. some (
      if can_create d.lock_root d.zero_depth k then create_lock now d k else (refused locked, k)) in
    elim (Bool-cases (can_create d.lock_root d.zero_depth m1)) [
      | inr p ↦ (refused locked, m1, ls1, rw ran (ground (arith, p)), sound1)
      | inl p ↦
          let absent : contains ls1 d.lock_root ≡ false =
            can_create-absent m1 ls1 d.lock_root d.zero_depth sound1 p in
          (
            (create_lock now d m1).0,
            (create_lock now d m1).1,
            d.lock_root ∷ ls1,
            ap (λ o. o >>= finish) ran
                ∙ ap (λ b. some (if b then create_lock now d m1 else (refused locked, m1))) p,
            enqueue-IsSound m1 ls1 sound1 d.lock_root absent (next_token m1).0 (new m1 ran)
                (format_uint-ne-nil ((m1.gen + 1) % 2 ^ 64)) now d ((m1.gen + 1) % 2 ^ 64) refl,
          )
    ]
