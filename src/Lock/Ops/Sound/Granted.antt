-- ===== src/Lock/Ops/Sound/Granted.antt =====
-- The locks of memLS by their tokens, after Create and Refresh (webdav/lock.go).
use mathlib.Core.Option.{some-injective}
use webdav_serverless.Base.{
  ℕ, ◌+◌, ◌%◌, ◌^◌, ◌≤◌, Bool, true, false, ◌&&◌, Option, none, some, List, [], ◌∷◌, ◌≡◌, ◌≢◌, refl,
  sym, ap, ◌∙◌, subst, Bytes, bytes_eq, beq_refl, if◌then◌else◌, leb, arith, contains, Option-cases,
  Bool-cases, inl, inr,
}
use webdav_serverless.Base.Dict.{Dict, lookup, insert, lookup-insert}
use webdav_serverless.Path.{slash_clean}
use webdav_serverless.Lock.{
  Node, MemLs, LockDetails, LockError, LockResult, granted, refused, locked, no_such_lock,
  heap_push, refer, walk_to_root, or_fresh, can_create, ◌>>=◌,
}
use webdav_serverless.Lock.Decimal.{format_uint-ne-nil}
use webdav_serverless.Lock.Ops.{
  create, create_lock, enqueue, lock_node, next_token, refresh, refresh_node, collect_expired_nodes,
}
use webdav_serverless.Lock.Ops.Sound.{IsSound, IsSame}
use webdav_serverless.Lock.Ops.Sound.Referred.{refer-IsSame}
use webdav_serverless.Lock.Ops.Sound.Created.{can_create-absent, enqueue-IsSound, base-IsUnlocked}
use webdav_serverless.Lock.Ops.Sound.Methods.{node_of-cases}
use webdav_serverless.Lock.Ops.Sound.Excluded.{enqueue-other}
use webdav_serverless.Lock.Ops.Sound.Shown.{
  show, shown, shown-at, shown-none, kept-shown, collect-shown, IsUnheld,
}

enqueue-by_token : (x : Bytes) (n : Node) (m : MemLs) → (enqueue x n m).by_token ≡ m.by_token
unfolding enqueue heap_push
enqueue-by_token x n m = go n.details.duration refl
  where
    go : (d : Option ℕ) → n.details.duration ≡ d → (enqueue x n m).by_token ≡ m.by_token
    go none e = rw e refl
    go (some d) e = rw e refl

enqueue-held :
    (x : Bytes) (n c : Node) (m : MemLs)
    → lookup x (enqueue x n m).by_name ≡ some c
    → c.held ≡ n.held
unfolding enqueue heap_push
enqueue-held x n c m at = go n.details.duration refl
  where
    held-at :
        (k : Node)
        → lookup x (enqueue x n m).by_name ≡ lookup x (insert x k m.by_name)
        → c.held ≡ k.held
    held-at k e =
        ap (λ (q : Node). q.held)
          (some-injective c k
            (sym at ∙ e ∙ ground (arith, lookup-insert x x k m.by_name, beq_refl x)))

    go : (d : Option ℕ) → n.details.duration ≡ d → c.held ≡ n.held
    go none e = held-at n (rw e refl)
    go (some d) e = held-at (record n { queued = true }) (rw e refl)

lock_node-held :
    (d : LockDetails) (t : Bytes) (now : ℕ) (n : Node) → (lock_node d t now n).held ≡ n.held
lock_node-held d t now n = go d.duration refl
  where
    go : (o : Option ℕ) → d.duration ≡ o → (lock_node d t now n).held ≡ n.held
    go none e = rw e refl
    go (some k) e = rw e refl

-- What Create makes of the locks.
unfoldable pub Creates : ℕ → MemLs → LockResult Bytes → MemLs → Type 0
Creates end m (refused e) m' = (t : Bytes) → shown end m' t ≡ shown end m t
Creates end m (granted x) m' =
    (x ≢ [])
    × (shown end m x ≡ none)
    × IsUnheld (shown end m' x)
    × ((t : Bytes) → t ≢ x → shown end m' t ≡ shown end m t)

show-IsUnheld :
    (end : ℕ) (x : Bytes) (n : Node) → n.held ≡ false → IsUnheld (show end (some (x, n)))
show-IsUnheld end x n h = elim (Bool-cases (n.queued && leb n.expiry end)) [
  | inl p ↦ rw p tt
  | inr p ↦ rw p h
]

create_lock-Creates :
    (end now : ℕ) (d : LockDetails) (m : MemLs) (ls : List Bytes) (sound : IsSound m ls)
    (absent : contains ls d.lock_root ≡ false) (new : lookup (next_token m).0 m.by_token ≡ none)
    → IsSound (create_lock now d m).1 (d.lock_root ∷ ls)
    → Creates end m (create_lock now d m).0 (create_lock now d m).1
unfolding create_lock next_token contains Creates
create_lock-Creates end now d m ls sound absent new sound' =
    let x : Bytes = d.lock_root in
    let t : Bytes = (next_token m).0 in
    let named : t ≢ [] = format_uint-ne-nil ((m.gen + 1) % 2 ^ 64) in
    let m' : MemLs = (create_lock now d m).1 in
    let nodes : Dict Bytes Node = refer m.by_name (walk_to_root x) in
    let base : Node = or_fresh x (lookup x nodes) in
    let new_node : Node = lock_node d t now base in
    let began : MemLs = record m {
      by_name = nodes;
      by_token = insert t x m.by_token;
      gen = (m.gen + 1) % 2 ^ 64;
    } in
    let tokens : m'.by_token ≡ insert t x m.by_token = enqueue-by_token x new_node began in
    let here : lookup t m'.by_token ≡ some x =
      ap (lookup t) tokens ∙ ground (arith, lookup-insert t t x m.by_token, beq_refl t) in
    let (is_in, _) = sound'.tokens t x here in
    let (n, l) = sound'.locks x is_in in
    let free : n.held ≡ false =
      enqueue-held x new_node n began l.at
      ∙ lock_node-held d t now base
      ∙ (base-IsUnlocked m ls sound x absent t new named).held in
    (
      named,
      shown-none end m t new,
      subst IsUnheld (sym (shown-at end m' t x n here l.at)) (show-IsUnheld end x n free),
      λ u ne.
          let same : lookup u m'.by_token ≡ lookup u m.by_token =
            ap (lookup u) tokens ∙ ground (arith, lookup-insert u t x m.by_token, ne) in
          elim (Option-cases (lookup u m.by_token)) [
            | inl p ↦ shown-none end m' u (same ∙ p) ∙ sym (shown-none end m u p)
            | inr (y, p) ↦
                let (old, _) = sound.tokens u y p in
                let other : y ≢ x =
                  λ e. (let bad : true ≡ false = sym old ∙ ap (contains ls) e ∙ absent in cc) in
                kept-shown end m m' ls (x ∷ ls) u y sound sound' p (same ∙ p) (λ n' at.
                  let (c, l) = sound.locks y old in
                  let (k, at_k, is) = refer-IsSame m.by_name (walk_to_root x) y c l.at in
                  let eq : k ≡ n' =
                    some-injective k n'
                      (sym at_k ∙ sym (enqueue-other x y new_node began other) ∙ at) in
                  (c, l.at, subst (IsSame c) eq is))
          ],
    )

pub create-Creates :
    (end now : ℕ) (details : LockDetails) (m : MemLs) (ls : List Bytes)
    → now ≤ end
    → IsSound m ls
    → ((rest : MemLs)
        → collect_expired_nodes now m ≡ some rest
        → lookup (next_token rest).0 rest.by_token ≡ none)
    → (a : LockResult Bytes) × (m' : MemLs) × (left : List Bytes) × (create now details m
        ≡ some (a, m'))
      × IsSound m' left
      × Creates end m a m'
unfolding create create_lock next_token Creates
create-Creates end now details m ls early sound new =
    let (m1, ls1, ran, sound1, same) = collect-shown end now m ls early sound in
    let d : LockDetails = record details { lock_root = slash_clean details.lock_root } in
    let finish : MemLs → Option (LockResult Bytes × MemLs) = λ k. some (
      if can_create d.lock_root d.zero_depth k then create_lock now d k else (refused locked, k)) in
    elim (Bool-cases (can_create d.lock_root d.zero_depth m1)) [
      | inr p ↦ (refused locked, m1, ls1, rw ran (ground (arith, p)), sound1, same)
      | inl p ↦
          let absent : contains ls1 d.lock_root ≡ false =
            can_create-absent m1 ls1 d.lock_root d.zero_depth sound1 p in
          let t : Bytes = (next_token m1).0 in
          let sound2 : IsSound (create_lock now d m1).1 (d.lock_root ∷ ls1) =
            enqueue-IsSound m1 ls1 sound1 d.lock_root absent t (new m1 ran)
              (format_uint-ne-nil ((m1.gen + 1) % 2 ^ 64)) now d ((m1.gen + 1) % 2 ^ 64) refl in
          let (named, gone, free, others) =
            create_lock-Creates end now d m1 ls1 sound1 absent (new m1 ran) sound2 in
          (
            (create_lock now d m1).0,
            (create_lock now d m1).1,
            d.lock_root ∷ ls1,
            ap (λ o. o >>= finish) ran
                ∙ ap (λ b. some (if b then create_lock now d m1 else (refused locked, m1))) p,
            sound2,
            (named, sym (same t) ∙ gone, free, λ u ne. others u ne ∙ same u),
          )
    ]

abbrev absent_answer : MemLs → LockResult LockDetails × MemLs
absent_answer k = (refused no_such_lock, k)

abbrev present_answer : Bool → MemLs → MemLs → LockDetails → LockResult LockDetails × MemLs
present_answer held k l d = if held then (refused locked, k) else (granted d, l)

-- A Refresh that is refused changes no lock.
pub refresh-refused :
    (end now : ℕ) (t : Bytes) (duration : Option ℕ) (m m' : MemLs) (ls : List Bytes) (e : LockError)
    → now ≤ end
    → IsSound m ls
    → refresh now t duration m ≡ some (refused e, m')
    → (u : Bytes) → shown end m' u ≡ shown end m u
unfolding refresh refresh_node
refresh-refused end now t duration m m' ls e early sound h u =
    let (m1, ls1, ran, sound1, same) = collect-shown end now m ls early sound in
    let left : m' ≡ m1 = go m1 ls1 ran sound1 in ap (λ k. shown end k u) left ∙ same u
  where
    from_pair :
        (a : LockResult LockDetails) (k : MemLs) (p : LockResult LockDetails × MemLs)
        → p ≡ (a, k)
        → some p ≡ some (refused e, m')
        → (a ≡ refused e) × (k ≡ m')
    from_pair a k p is eq = (cc, cc)

    absent : (k : MemLs) → some (absent_answer k) ≡ some (refused e, m') → m' ≡ k
    absent k eq = let (_, p) = from_pair _ k (absent_answer k) refl eq in sym p

    present :
        (held : Bool) (k l : MemLs) (d : LockDetails)
        → some (present_answer held k l d) ≡ some (refused e, m')
        → m' ≡ k
    present true k l d eq = let (_, p) = from_pair _ k (present_answer true k l d) refl eq in sym p
    present false k l d eq =
        let (p, _) = from_pair (granted d) l (present_answer false k l d) refl eq in cc

    go :
        (m1 : MemLs) (ls1 : List Bytes)
        → collect_expired_nodes now m ≡ some m1
        → IsSound m1 ls1
        → m' ≡ m1
    go m1 ls1 ran sound1 = elim (node_of-cases m1 ls1 t sound1) [
      | inl p ↦ absent m1 (rw (ran, p) at h)
      | inr (x, n, p, _, _, _) ↦ present n.held m1 _ _ (rw (ran, p) at h)
    ]
