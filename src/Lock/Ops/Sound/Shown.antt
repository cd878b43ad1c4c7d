-- ===== src/Lock/Ops/Sound/Shown.antt =====
-- The locks of memLS by their tokens, and what the removal of locks makes of them (webdav/lock.go).
use webdav_serverless.Base.{
  ℕ, ◌≤◌, Bool, true, false, ◌&&◌, Option, none, some, List, ◌≡◌, ◌≢◌, refl, sym, ap, subst, ◌∙◌,
  Bytes, bytes_eq, bytes_dec, beq, beq_ne, beq_refl, if◌then◌else◌, leb, arith, contains,
  Option-cases, Bool-cases, inl, inr,
}
use webdav_serverless.Base.Dict.{lookup, lookup-erase}
use webdav_serverless.Lock.{
  Node, MemLs, LockDetails, LockResult, granted, refused, no_such_lock, unlist,
}
use webdav_serverless.Lock.Ops.{node_of, unlock, unlock_node, collect_expired_nodes}
use webdav_serverless.Lock.Ops.Sound.{IsSound, IsLock, IsSame}
use webdav_serverless.Lock.Ops.Sound.Removed.{IsLess, remove-IsSound}
use webdav_serverless.Lock.Ops.Sound.Expiry.{collect_expired_nodes-Kept}
use webdav_serverless.Lock.Ops.Sound.Methods.{node_of-cases}

-- A lock: its name, its details, whether it is held, and its expiry.
abbrev pub Lock : Type 0
Lock = Bytes × LockDetails × Bool × ℕ

-- A lock that ends by the time `end` is left out.
abbrev pub show : ℕ → Option (Bytes × Node) → Option Lock
show end none = none
show end (some (x, n)) =
    if n.queued && leb n.expiry end then none else some (x, n.details, n.held, n.expiry)

-- The lock that a token leads to.
unfoldable pub shown : ℕ → MemLs → Bytes → Option Lock
shown end m t = show end (node_of m (lookup t m.by_token))

show-IsSame :
    (end : ℕ) (y : Bytes) (c n' : Node)
    → IsSame c n'
    → show end (some (y, n')) ≡ show end (some (y, c))
show-IsSame end y c n' same = rw (same.queued, same.expiry, same.details, same.held) refl

pub shown-at :
    (end : ℕ) (m : MemLs) (t y : Bytes) (c : Node)
    → lookup t m.by_token ≡ some y
    → lookup y m.by_name ≡ some c
    → shown end m t ≡ show end (some (y, c))
unfolding shown
shown-at end m t y c h k =
    ap (λ o. show end (node_of m o)) h
    ∙ ap (λ (o : Option Node). show end (elim o [ none ↦ none | some n ↦ some (y, n) ])) k

pub shown-none :
    (end : ℕ) (m : MemLs) (t : Bytes) → lookup t m.by_token ≡ none → shown end m t ≡ none
unfolding shown
shown-none end m t h = rw h refl

-- In a state that keeps a lock, its token leads to the same.
pub kept-shown :
    (end : ℕ) (m m' : MemLs) (ls left : List Bytes) (t y : Bytes)
    → IsSound m ls
    → IsSound m' left
    → lookup t m.by_token ≡ some y
    → lookup t m'.by_token ≡ some y
    → ((n' : Node)
        → lookup y m'.by_name ≡ some n'
        → (c : Node) × (lookup y m.by_name ≡ some c) × IsSame c n')
    → shown end m' t ≡ shown end m t
kept-shown end m m' ls left t y sound sound' h h' same =
    let (is_in, _) = sound'.tokens t y h' in
    let (n', l) = sound'.locks y is_in in
    let (c, at, is) = same n' l.at in
    shown-at end m' t y n' h' l.at ∙ show-IsSame end y c n' is ∙ sym (shown-at end m t y c h at)

-- The removal of a lock takes its token away, and leaves the others.
less-shown :
    (end : ℕ) (m m' : MemLs) (ls : List Bytes) (x : Bytes) (n : Node)
    → IsSound m ls
    → IsLock m x n
    → IsLess m ls x n m'
    → (t : Bytes) → shown end m' t ≡ (if beq t n.token then none else shown end m t)
less-shown end m m' ls x n sound l less t = elim (bytes_dec t n.token) [
  | yes e ↦
      shown-none end m' t (
        ap (lookup t) less.tokens
        ∙ ground (arith, lookup-erase t n.token m.by_token, e, beq_refl t))
      ∙ rw (e, beq_refl n.token) refl
  | no ne ↦
      let same : lookup t m'.by_token ≡ lookup t m.by_token =
        ap (lookup t) less.tokens ∙ ground (arith, lookup-erase t n.token m.by_token, ne) in
      rw (beq_ne t n.token ne) (elim (Option-cases (lookup t m.by_token)) [
        | inl p ↦ shown-none end m' t (same ∙ p) ∙ sym (shown-none end m t p)
        | inr (y, p) ↦
            let (_, tok) = sound.tokens t y p in
            let other : y ≢ x = λ e. ne (sym (tok n (ap (λ z. lookup z m.by_name) e ∙ l.at))) in
            kept-shown end m m' ls (unlist x ls) t y sound less.kept p (same ∙ p)
              (λ n' at. less.others y n' other at)
      ])
]

-- collectExpiredNodes at a time before `end` leaves the locks that do not end by then.
pub collect-shown :
    (end now : ℕ) (m : MemLs) (ls : List Bytes)
    → now ≤ end
    → IsSound m ls
    → (m' : MemLs) × (left : List Bytes) × (collect_expired_nodes now m ≡ some m')
      × IsSound m' left
      × ((t : Bytes) → shown end m' t ≡ shown end m t)
collect-shown end now m0 ls0 early sound0 =
    let (m', left, ran, sound', same, _) =
      collect_expired_nodes-Kept (λ m ls. (t : Bytes) → shown end m t ≡ shown end m0 t) now step m0
        ls0 sound0 (λ t. refl) in
    (m', left, ran, sound', same)
  where
    step :
        (m : MemLs) (ls : List Bytes)
        → IsSound m ls
        → (x : Bytes) (n : Node) → contains ls x ≡ true
        → IsLock m x n
        → n.held ≡ false
        → (m' : MemLs) → IsLess m ls x n m'
        → n.queued ≡ true
        → n.expiry ≤ now
        → ((t : Bytes) → shown end m t ≡ shown end m0 t)
        → (t : Bytes) → shown end m' t ≡ shown end m0 t
    step m ls sound x n is_in l unheld m' less queued past same t =
        less-shown end m m' ls x n sound l less t ∙ (elim (bytes_dec t n.token) [
          | no ne ↦ rw (beq_ne t n.token ne) (same t)
          | yes e ↦
              let gone : shown end m t ≡ none =
                shown-at end m t x n (ap (λ t. lookup t m.by_token) e ∙ l.token) l.at
                ∙ ground (arith, queued, past, early) in
              ap (λ b. if b then none else shown end m t)
                (ap (λ u. beq u n.token) e ∙ beq_refl n.token)
              ∙ sym gone
              ∙ same t
        ])

-- Unlock of a token that does not lead to a held lock takes it away, and leaves the other locks.
abbrev pub IsUnheld : Option Lock → Type 0
IsUnheld none = Unit
IsUnheld (some (x, d, held, e)) = held ≡ false

unlock_node-shown :
    (end : ℕ) (m : MemLs) (ls : List Bytes) (x t : Bytes) (n : Node)
    → IsSound m ls
    → contains ls x ≡ true
    → IsLock m x n
    → n.token ≡ t
    → IsUnheld (shown end m t)
    → (a : LockResult (Unit {0})) × (m' : MemLs) × (unlock_node m (some (x, n)) ≡ some (a, m'))
      × ((u : Bytes) → shown end m' u ≡ (if beq u t then none else shown end m u))
unfolding unlock_node
unlock_node-shown end m ls x t n sound is_in l token free = elim (Bool-cases n.held) [
  | inl h ↦
      let here : shown end m t ≡ some (x, n.details, n.held, n.expiry) =
        shown-at end m t x n (ap (λ t. lookup t m.by_token) (sym token) ∙ l.token) l.at
        ∙ ground (arith, l.waits, h) in
      let no : n.held ≡ false = subst IsUnheld here free in
      let bad : true ≡ false = sym h ∙ no in cc
  | inr h ↦
      let (m', done, less) = remove-IsSound m ls sound x n is_in l h in
      (
        granted tt,
        m',
        ground (arith, h, done),
        λ u.
            less-shown end m m' ls x n sound l less u
            ∙ ap (λ t. if beq u t then none else shown end m u) token,
      )
]

pub unlock-shown :
    (end now : ℕ) (t : Bytes) (m : MemLs) (ls : List Bytes)
    → now ≤ end
    → IsSound m ls
    → IsUnheld (shown end m t)
    → (a : LockResult (Unit {0})) × (m' : MemLs) × (unlock now t m ≡ some (a, m'))
      × ((u : Bytes) → shown end m' u ≡ (if beq u t then none else shown end m u))
unfolding unlock unlock_node shown
unlock-shown end now t m ls early sound free =
    let (m1, ls1, ran, sound1, same) = collect-shown end now m ls early sound in
    elim (node_of-cases m1 ls1 t sound1) [
      | inl p ↦ (
        refused no_such_lock,
        m1,
        rw (ran, p) refl,
        λ u. same u ∙ missing u (sym (same t) ∙ missing_node m1 p),
      )
      | inr (x, n, p, is_in, l, token) ↦
          let (a, m2, done, rest) =
            unlock_node-shown end m1 ls1 x t n sound1 is_in l token
              (subst IsUnheld (sym (same t)) free) in
          (a, m2, rw (ran, p) done, λ u. rest u ∙ ap (λ o. if beq u t then none else o) (same u))
    ]
  where
    missing_node : (k : MemLs) → node_of k (lookup t k.by_token) ≡ none → shown end k t ≡ none
    missing_node k p = ap (show end) p

    missing :
        (u : Bytes)
        → shown end m t ≡ none
        → shown end m u ≡ (if beq u t then none else shown end m u)
    missing u h = elim (bytes_dec u t) [
      | yes e ↦ rw (e, beq_refl t) h
      | no ne ↦ rw (beq_ne u t ne) refl
    ]
