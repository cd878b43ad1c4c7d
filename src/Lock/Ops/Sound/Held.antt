-- ===== src/Lock/Ops/Sound/Held.antt =====
-- A lock that is held, through the calls of the other methods of memLS (webdav/lock.go).
use mathlib.Core.Option.{some-injective}
use webdav_serverless.Base.{
  ℕ, Bool, true, false, Option, none, some, List, ◌≡◌, ◌≢◌, refl, sym, ap, ◌∙◌, subst, Bytes,
  bytes_eq, beq, beq_refl, arith, contains, Bool-cases, inl, inr,
}
use webdav_serverless.Base.Dict.{lookup}
use webdav_serverless.IfHeader.{Condition}
use webdav_serverless.Lock.{Node, MemLs, LockResult, granted, refused, unlist, ◌>>=◌}
use webdav_serverless.Lock.Ops.{
  confirm, hold_both, claim_name, hold, not_twice, on_some, Release, collect_expired_nodes,
}
use webdav_serverless.Lock.Ops.Sound.{IsSound, IsLock, contains-unlist}
use webdav_serverless.Lock.Ops.Sound.Removed.{IsLess}
use webdav_serverless.Lock.Ops.Sound.Expiry.{collect_expired_nodes-Kept}
use webdav_serverless.Lock.Ops.Sound.Changed.{hold-IsHeld}
use webdav_serverless.Lock.Ops.Sound.Confirming.{
  IsAs, OnAs, others-IsAs, claim_name-OnAs, pair-with,
}

-- In a state that keeps the locks a lock is held as its node is.
pub same-IsAs :
    (b : Bool) (m m' : MemLs) (ls left : List Bytes) (y : Bytes)
    → IsSound m' left
    → (k : IsAs b m ls y) → contains left y ≡ true
    → ((n' : Node) → lookup y m'.by_name ≡ some n' → n'.held ≡ k.node.held)
    → IsAs b m' left y
same-IsAs b m m' ls left y sound k is_in same =
    let (n', l) = sound.locks y is_in in
    record { is_in = is_in; node = n'; lock = l; is_held = same n' l.at ∙ k.is_held }

pub IsAs-ne :
    (m : MemLs) (ls : List Bytes) (x y : Bytes) (n : Node)
    → IsLock m x n
    → n.held ≡ false
    → IsAs true m ls y
    → y ≢ x
IsAs-ne m ls x y n l free k e =
    let is : k.node ≡ n =
      some-injective k.node n (sym k.lock.at ∙ ap (λ z. lookup z m.by_name) e ∙ l.at) in
    let bad : true ≡ false = sym k.is_held ∙ ap (λ (q : Node). q.held) is ∙ free in cc

pub less-IsAs :
    (m m' : MemLs) (ls : List Bytes) (x y : Bytes) (n : Node)
    → IsLock m x n
    → n.held ≡ false
    → IsLess m ls x n m'
    → IsAs true m ls y
    → IsAs true m' (unlist x ls) y
less-IsAs m m' ls x y n l free less k =
    let ne : y ≢ x = IsAs-ne m ls x y n l free k in
    same-IsAs true m m' ls _ y less.kept k (contains-unlist x y ls ne k.is_in) (λ n' at.
      let (c, at_c, same) = less.others y n' ne at in
      same.held ∙ ap (λ (q : Node). q.held) (some-injective c k.node (sym at_c ∙ k.lock.at)))

-- What collectExpiredNodes leaves.
pub collect-IsAs :
    (now : ℕ) (m : MemLs) (ls : List Bytes) (y : Bytes)
    → IsSound m ls
    → IsAs true m ls y
    → (m' : MemLs) × (left : List Bytes) × (collect_expired_nodes now m ≡ some m')
      × IsSound m' left
      × IsAs true m' left y
collect-IsAs now m ls y sound k =
    let (m', left, ran, sound', k', _) =
      collect_expired_nodes-Kept (λ m ls. IsAs true m ls y) now
        (λ m ls sound x n locked lock unheld m' less queued past k.
          less-IsAs m m' ls x y n lock unheld less k)
        m ls sound k in
    (m', left, ran, sound', k')

-- Two nodes that are not held are held, and neither is that of `y`.
hold-kept :
    (m : MemLs) (ls : List Bytes) (o : Option Bytes) (y : Bytes)
    → IsSound m ls
    → OnAs false m ls o
    → IsAs true m ls y
    → (m' : MemLs) × (on_some hold o m ≡ some m') × IsSound m' ls × IsAs true m' ls y
hold-kept m ls none y sound h k = (m, refl, sound, k)
hold-kept m ls (some x) y sound h k =
    let (m', done, g) = hold-IsHeld m ls sound x h.node h.is_in h.lock h.is_held in
    let ne : y ≢ x = IsAs-ne m ls x y h.node h.lock h.is_held k in
    (
      m',
      done,
      g.kept,
      same-IsAs true m m' ls ls y g.kept k k.is_in (λ n' at.
          ap (λ (q : Node). q.held)
            (some-injective n' k.node (sym at ∙ g.others y ne ∙ k.lock.at))),
    )

hold_two-kept :
    (m : MemLs) (ls : List Bytes) (o u : Option Bytes) (y : Bytes)
    → IsSound m ls
    → OnAs false m ls o
    → OnAs false m ls u
    → IsAs true m ls y
    → (m' : MemLs) × ((on_some hold o m >>= λ k. on_some hold (not_twice o u) k) ≡ some m')
      × IsSound m' ls
      × IsAs true m' ls y
hold_two-kept m ls none u y sound h j k = hold-kept m ls u y sound j k
hold_two-kept m ls (some x) none y sound h j k =
    let (m', done, g, k') = hold-kept m ls (some x) y sound h k in (m', rw done refl, g, k')
hold_two-kept m ls (some x) (some z) y sound h j k = elim (Bool-cases (beq z x)) [
  | inl p ↦
      let (m', done, g, k') = hold-kept m ls (some x) y sound h k in (m', rw (done, p) refl, g, k')
  | inr p ↦
      let (m1, done1, g) = hold-IsHeld m ls sound x h.node h.is_in h.lock h.is_held in
      let (m1', done1', sound1, k1) = hold-kept m ls (some x) y sound h k in
      let same : m1' ≡ m1 = some-injective m1' m1 (sym done1' ∙ done1) in
      let ne : z ≢ x = λ e. ground (arith, p, e, beq_refl x) in
      let (m2, done2, sound2, k2) =
        hold-kept m1 ls (some z) y g.kept (others-IsAs true false m m1 ls x z sound h ne g j)
          (subst (λ m. IsAs true m ls y) same k1) in
      (m2, rw (done1, p) done2, sound2, k2)
]

claimed-ne :
    (m : MemLs) (ls : List Bytes) (o : Option Bytes) (y : Bytes)
    → OnAs false m ls o
    → IsAs true m ls y
    → o ≢ some y
claimed-ne m ls none y h k e = cc
claimed-ne m ls (some x) y h k e =
    IsAs-ne m ls x y h.node h.lock h.is_held k (some-injective y x (sym e))

not_twice-ne : (o u : Option Bytes) (y : Bytes) → u ≢ some y → not_twice o u ≢ some y
not_twice-ne none u y h = h
not_twice-ne (some x) none y h = λ e. cc
not_twice-ne (some x) (some z) y h = elim (Bool-cases (beq z x)) [
  | inl p ↦ rw p (λ e. cc)
  | inr p ↦ rw p h
]

-- What a method leaves of the lock of `y`, which is held.
abbrev pub StillHeld : {A : Type 0} → Bytes → (A → Type 0) → Option (A × MemLs) → Type 0
StillHeld {A} y Q o =
    (a : A) × (m : MemLs) × (ls : List Bytes) × (o ≡ some (a, m))
    × IsSound m ls
    × IsAs true m ls y
    × Q a

-- Confirm grants others.
unfoldable pub IsOther : Bytes → LockResult Release → Type 0
IsOther y (refused e) = Unit
IsOther y (granted (n0, n1)) = (n0 ≢ some y) × (n1 ≢ some y)

hold_both-kept :
    (m : MemLs) (ls : List Bytes) (r0 r1 : LockResult (Option Bytes)) (y : Bytes)
    → IsSound m ls
    → ((o : Option Bytes) → r0 ≡ granted o → OnAs false m ls o)
    → ((o : Option Bytes) → r1 ≡ granted o → OnAs false m ls o)
    → IsAs true m ls y
    → StillHeld y (IsOther y) (hold_both r0 r1 m)
unfolding hold_both IsOther
hold_both-kept m ls (refused e) r1 y sound h j k = (refused e, m, ls, refl, sound, k, tt)
hold_both-kept m ls (granted n0) (refused e) y sound h j k = (refused e, m, ls, refl, sound, k, tt)
hold_both-kept m ls (granted n0) (granted n1) y sound h j k =
    let (m', done, sound', k') = hold_two-kept m ls n0 n1 y sound (h n0 refl) (j n1 refl) k in
    (
      granted (n0, not_twice n0 n1),
      m',
      ls,
      pair-with (on_some hold n0 m) (on_some hold (not_twice n0 n1)) (granted (n0, not_twice n0 n1))
          m' done,
      sound',
      k',
      (
        claimed-ne m ls n0 y (h n0 refl) k,
        not_twice-ne n0 n1 y (claimed-ne m ls n1 y (j n1 refl) k),
      ),
    )

pub confirm-StillHeld :
    (now : ℕ) (name0 name1 : Bytes) (conditions : List Condition) (m : MemLs) (ls : List Bytes)
    (y : Bytes)
    → IsSound m ls
    → IsAs true m ls y
    → StillHeld y (IsOther y) (confirm now name0 name1 conditions m)
unfolding confirm
confirm-StillHeld now name0 name1 conditions m ls y sound k =
    let (m1, ls1, ran, sound1, k1) = collect-IsAs now m ls y sound k in
    let (a, m2, ls2, done, sound2, k2, other) =
      hold_both-kept m1 ls1 (claim_name name0 conditions m1) (claim_name name1 conditions m1) y
        sound1 (λ o. claim_name-OnAs name0 conditions m1 ls1 o sound1)
        (λ o. claim_name-OnAs name1 conditions m1 ls1 o sound1) k1 in
    (a, m2, ls2, rw ran done, sound2, k2, other)
