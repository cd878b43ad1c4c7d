-- ===== src/Lock/Ops/Sound/Excluded.antt =====
-- What a Confirm holds, through later calls of the methods of memLS (webdav/lock.go).
use mathlib.Core.Option.{some-injective}
use webdav_serverless.Base.{
  ℕ, ◌+◌, ◌%◌, ◌^◌, Bool, true, false, Option, none, some, List, ◌∷◌, ◌≡◌, ◌≢◌, refl, sym, ap, ◌∙◌,
  Bytes, bytes_eq, if◌then◌else◌, arith, contains, Bool-cases, inl, inr,
}
use webdav_serverless.Base.Dict.{Dict, lookup, lookup-insert}
use webdav_serverless.Path.{slash_clean}
use webdav_serverless.IfHeader.{Condition}
use webdav_serverless.Lock.{
  Node, MemLs, LockDetails, LockResult, granted, refused, locked, no_such_lock, heap_push,
  heap_remove, refer, walk_to_root, can_create, ◌>>=◌,
}
use webdav_serverless.Lock.Decimal.{format_uint-ne-nil}
use webdav_serverless.Lock.Ops.{
  create, create_lock, enqueue, lock_node, next_token, refresh, refresh_node, unlock, unlock_node,
  confirm, collect_expired_nodes,
}
use webdav_serverless.Lock.Ops.Sound.{IsSound, IsLock}
use webdav_serverless.Lock.Ops.Sound.Removed.{remove-IsSound}
use webdav_serverless.Lock.Ops.Sound.Referred.{refer-IsSame}
use webdav_serverless.Lock.Ops.Sound.Refreshed.{refresh_node-IsSound}
use webdav_serverless.Lock.Ops.Sound.Created.{can_create-absent, enqueue-IsSound}
use webdav_serverless.Lock.Ops.Sound.Methods.{node_of-cases}
use webdav_serverless.Lock.Ops.Sound.Confirming.{IsAs}
use webdav_serverless.Lock.Ops.Sound.Held.{
  StillHeld, IsOther, same-IsAs, IsAs-ne, less-IsAs, collect-IsAs, confirm-StillHeld,
}

abbrev pub Any : {A : Type 0} → A → Type 0
Any a = Unit

-- Unlock does not remove a lock that is held.
unlock_node-StillHeld :
    (m : MemLs) (ls : List Bytes) (x y : Bytes) (n : Node)
    → IsSound m ls
    → contains ls x ≡ true
    → IsLock m x n
    → IsAs true m ls y
    → StillHeld y Any (unlock_node m (some (x, n)))
unfolding unlock_node
unlock_node-StillHeld m ls x y n sound is_in l k = elim (Bool-cases n.held) [
  | inl h ↦ (refused locked, m, ls, ground (arith, h), sound, k, tt)
  | inr h ↦
      let (m', done, less) = remove-IsSound m ls sound x n is_in l h in
      (
        granted tt,
        m',
        _,
        ground (arith, h, done),
        less.kept,
        less-IsAs m m' ls x y n l h less k,
        tt,
      )
]

unlock-StillHeld :
    (now : ℕ) (t : Bytes) (m : MemLs) (ls : List Bytes) (y : Bytes)
    → IsSound m ls
    → IsAs true m ls y
    → StillHeld y Any (unlock now t m)
unfolding unlock unlock_node
unlock-StillHeld now t m ls y sound k =
    let (m1, ls1, ran, sound1, k1) = collect-IsAs now m ls y sound k in
    elim (node_of-cases m1 ls1 t sound1) [
      | inl p ↦ (refused no_such_lock, m1, ls1, rw (ran, p) refl, sound1, k1, tt)
      | inr (x, n, p, is_in, l, _) ↦
          let (a, m2, ls2, done, sound2, k2, _) =
            unlock_node-StillHeld m1 ls1 x y n sound1 is_in l k1 in
          (a, m2, ls2, rw (ran, p) done, sound2, k2, tt)
    ]

pub enqueue-other :
    (x y : Bytes) (n : Node) (m : MemLs)
    → y ≢ x
    → lookup y (enqueue x n m).by_name ≡ lookup y m.by_name
unfolding enqueue heap_push
enqueue-other x y n m ne = go n.details.duration refl
  where
    go :
        (d : Option ℕ)
        → n.details.duration ≡ d
        → lookup y (enqueue x n m).by_name ≡ lookup y m.by_name
    go none e = rw e (ground (arith, lookup-insert y x n m.by_name, ne))
    go (some d) e =
        rw e (ground (arith, lookup-insert y x (record n { queued = true }) m.by_name, ne))

refresh_node-other :
    (now : ℕ) (duration : Option ℕ) (m : MemLs) (x y : Bytes) (n : Node)
    → n.held ≡ false
    → y ≢ x
    → lookup y (refresh_node now duration m (some (x, n))).1.by_name ≡ lookup y m.by_name
unfolding refresh_node heap_remove
refresh_node-other now duration m x y n h ne =
    let d : LockDetails = record n.details { duration = duration } in
    let k : Node = lock_node d n.token now (record n { queued = false }) in
    let before : LockResult LockDetails × MemLs = (refused locked, m) in
    let off : Bool → MemLs = λ q. if q then heap_remove x n m else m in
    ap (λ b. lookup y (if b then before else (granted d, enqueue x k (off n.queued))).1.by_name) h
    ∙ enqueue-other x y k (off n.queued) ne
    ∙ off-other n.queued
  where
    off-other :
        (q : Bool) → lookup y (if q then heap_remove x n m else m).by_name ≡ lookup y m.by_name
    off-other true = ground (arith, lookup-insert y x (record n { queued = false }) m.by_name, ne)
    off-other false = refl

refresh_node-StillHeld :
    (now : ℕ) (duration : Option ℕ) (m : MemLs) (ls : List Bytes) (x y : Bytes) (n : Node)
    → IsSound m ls
    → contains ls x ≡ true
    → IsLock m x n
    → IsAs true m ls y
    → StillHeld y Any (some (refresh_node now duration m (some (x, n))))
unfolding refresh_node
refresh_node-StillHeld now duration m ls x y n sound is_in l k = elim (Bool-cases n.held) [
  | inl h ↦ (refused locked, m, ls, ground (arith, h), sound, k, tt)
  | inr h ↦
      let sound' = refresh_node-IsSound m ls sound x n is_in l h now duration in
      let ne : y ≢ x = IsAs-ne m ls x y n l h k in
      (
        _,
        _,
        ls,
        refl,
        sound',
        same-IsAs true m _ ls ls y sound' k k.is_in (λ n' at.
            ap (λ (q : Node). q.held)
              (some-injective n' k.node
                (sym at ∙ refresh_node-other now duration m x y n h ne ∙ k.lock.at))),
        tt,
      )
]

refresh-StillHeld :
    (now : ℕ) (t : Bytes) (duration : Option ℕ) (m : MemLs) (ls : List Bytes) (y : Bytes)
    → IsSound m ls
    → IsAs true m ls y
    → StillHeld y Any (refresh now t duration m)
unfolding refresh refresh_node
refresh-StillHeld now t duration m ls y sound k =
    let (m1, ls1, ran, sound1, k1) = collect-IsAs now m ls y sound k in
    elim (node_of-cases m1 ls1 t sound1) [
      | inl p ↦ (refused no_such_lock, m1, ls1, rw (ran, p) refl, sound1, k1, tt)
      | inr (x, n, p, is_in, l, _) ↦
          let (a, m2, ls2, done, sound2, k2, _) =
            refresh_node-StillHeld now duration m1 ls1 x y n sound1 is_in l k1 in
          (a, m2, ls2, rw (ran, p) done, sound2, k2, tt)
    ]

create_lock-StillHeld :
    (now : ℕ) (d : LockDetails) (m : MemLs) (ls : List Bytes) (y : Bytes)
    → contains ls d.lock_root ≡ false
    → IsSound (create_lock now d m).1 (d.lock_root ∷ ls)
    → IsAs true m ls y
    → IsAs true (create_lock now d m).1 (d.lock_root ∷ ls) y
unfolding create_lock next_token contains
create_lock-StillHeld now d m ls y absent sound k =
    let nodes : Dict Bytes Node = refer m.by_name (walk_to_root d.lock_root) in
    let ne : y ≢ d.lock_root =
      λ e. (let bad : true ≡ false = sym k.is_in ∙ ap (contains ls) e ∙ absent in cc) in
    let (n', at', same) = refer-IsSame m.by_name (walk_to_root d.lock_root) y k.node k.lock.at in
    same-IsAs true m _ ls _ y sound k (ground (arith, k.is_in)) (λ c at.
      let is : c ≡ n' = some-injective c n' (sym at ∙ enqueue-other d.lock_root y _ _ ne ∙ at') in
      ap (λ (q : Node). q.held) is ∙ same.held)

create-StillHeld :
    (now : ℕ) (details : LockDetails) (m : MemLs) (ls : List Bytes) (y : Bytes)
    → IsSound m ls
    → ((rest : MemLs)
        → collect_expired_nodes now m ≡ some rest
        → lookup (next_token rest).0 rest.by_token ≡ none)
    → IsAs true m ls y
    → StillHeld y Any (create now details m)
unfolding create create_lock next_token
create-StillHeld now details m ls y sound new k =
    let (m1, ls1, ran, sound1, k1) = collect-IsAs now m ls y sound k in
    let d : LockDetails = record details { lock_root = slash_clean details.lock_root } in
    let finish : MemLs → Option (LockResult Bytes × MemLs) = λ k. some (
      if can_create d.lock_root d.zero_depth k then create_lock now d k else (refused locked, k)) in
    elim (Bool-cases (can_create d.lock_root d.zero_depth m1)) [
      | inr p ↦ (refused locked, m1, ls1, rw ran (ground (arith, p)), sound1, k1, tt)
      | inl p ↦
          let absent : contains ls1 d.lock_root ≡ false =
            can_create-absent m1 ls1 d.lock_root d.zero_depth sound1 p in
          let sound2 : IsSound (create_lock now d m1).1 (d.lock_root ∷ ls1) =
            enqueue-IsSound m1 ls1 sound1 d.lock_root absent (next_token m1).0 (new m1 ran)
              (format_uint-ne-nil ((m1.gen + 1) % 2 ^ 64)) now d ((m1.gen + 1) % 2 ^ 64) refl in
          (
            (create_lock now d m1).0,
            (create_lock now d m1).1,
            d.lock_root ∷ ls1,
            ap (λ o. o >>= finish) ran
                ∙ ap (λ b. some (if b then create_lock now d m1 else (refused locked, m1))) p,
            sound2,
            create_lock-StillHeld now d m1 ls1 y absent sound2 k1,
            tt,
          )
    ]

-- While a lock is held in a sound state, no other Confirm is granted with it, and it is held in the
-- state that Confirm leaves, whether that grants or refuses. It is held, too, in the states that
-- Create, where the token that it makes is not one in use, Refresh and Unlock leave; all these states
-- are sound, and no call panics. Release is not one of the calls.
pub held-IsExcluded :
    (now : ℕ) (details : LockDetails) (token : Bytes) (duration : Option ℕ) (name0 name1 : Bytes)
    (conditions : List Condition) (m : MemLs) (ls : List Bytes) (x : Bytes)
    → IsSound m ls
    → ((rest : MemLs)
        → collect_expired_nodes now m ≡ some rest
        → lookup (next_token rest).0 rest.by_token ≡ none)
    → IsAs true m ls x
    → StillHeld x (IsOther x) (confirm now name0 name1 conditions m)
      × StillHeld x Any (create now details m)
      × StillHeld x Any (refresh now token duration m)
      × StillHeld x Any (unlock now token m)
held-IsExcluded now details token duration name0 name1 conditions m ls x sound new held = (
  confirm-StillHeld now name0 name1 conditions m ls x sound held,
  create-StillHeld now details m ls x sound new held,
  refresh-StillHeld now token duration m ls x sound held,
  unlock-StillHeld now token m ls x sound held,
)
