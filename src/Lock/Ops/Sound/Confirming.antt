-- ===== src/Lock/Ops/Sound/Confirming.antt =====
-- Confirm and the release of what it holds on a sound state (webdav/lock.go).
use mathlib.Core.Option.{some-injective}
use webdav_serverless.Base.{
  ℕ, Bool, true, false, Option, none, some, List, [], ◌∷◌, ◌≡◌, ◌≢◌, refl, sym, ap, ◌∙◌, Bytes,
  bytes_eq, beq, beq_refl, arith, contains, Bool-cases, inl, inr,
}
use webdav_serverless.Base.Dict.{lookup}
use webdav_serverless.Path.{slash_clean}
use webdav_serverless.IfHeader.{Condition}
use webdav_serverless.Lock.{
  Node, MemLs, LockDetails, LockResult, granted, refused, confirmation_failed, ◌>>=◌,
}
use webdav_serverless.Lock.Ops.{
  create, refresh, unlock, next_token, confirm, hold_both, claim_name, lookup_claim, hold, release,
  unhold, not_twice, on_some, Release, collect_expired_nodes,
}
use webdav_serverless.Lock.Ops.Confirmed.{Claims, Some, lookup_claim-Claims}
use webdav_serverless.Lock.Ops.Sound.{IsSound, IsLock}
use webdav_serverless.Lock.Ops.Sound.Expiry.{collect_expired_nodes-IsSound}
use webdav_serverless.Lock.Ops.Sound.Changed.{IsHeld, hold-IsHeld, unhold-IsHeld}
use webdav_serverless.Lock.Ops.Sound.Methods.{Sound, create-Sound, refresh-Sound, unlock-Sound}

-- A lock that is held, or is not.
pub record IsAs (held : Bool) (m : MemLs) (ls : List Bytes) (x : Bytes) : Type 0 where
  pub is_in : contains ls x ≡ true
  pub node : Node
  pub lock : IsLock m x node
  pub is_held : node.held ≡ held

Some-IsAs :
    (name : Bytes) (cs : List Condition) (m : MemLs) (ls : List Bytes) (x : Bytes)
    → IsSound m ls
    → Some (λ c. Claims name m c x) cs
    → IsAs false m ls x
Some-IsAs name [] m ls x sound h = absurd h
Some-IsAs name (c ∷ cs) m ls x sound (inr h) = Some-IsAs name cs m ls x sound h
Some-IsAs name (c ∷ cs) m ls x sound (inl k) =
    let (is_in, _) = sound.tokens c.token x k.by_token in
    let (n, l) = sound.locks x is_in in
    let is : k.node ≡ n = some-injective k.node n (sym k.by_name ∙ l.at) in
    record {
      is_in = is_in;
      node = n;
      lock = l;
      is_held = ap (λ (q : Node). q.held) (sym is) ∙ k.not_held;
    }

-- The claims of a Confirm.
abbrev pub OnAs : Bool → MemLs → List Bytes → Option Bytes → Type 0
OnAs held m ls none = Unit
OnAs held m ls (some x) = IsAs held m ls x

lookup_claim-OnAs :
    (name : Bytes) (cs : List Condition) (m : MemLs) (ls : List Bytes) (o : Option Bytes)
    → IsSound m ls
    → lookup_claim name cs m ≡ o
    → OnAs false m ls o
lookup_claim-OnAs name cs m ls none sound h = tt
lookup_claim-OnAs name cs m ls (some x) sound h =
    Some-IsAs name cs m ls x sound (lookup_claim-Claims name cs m x h)

-- hold or unhold leaves the other locks as they are.
pub others-IsAs :
    (b c : Bool) (m m' : MemLs) (ls : List Bytes) (x y : Bytes) (sound : IsSound m ls)
    (k : IsAs c m ls x)
    → y ≢ x
    → IsHeld m ls sound x k.node k.is_in k.lock b m'
    → IsAs c m ls y
    → IsAs c m' ls y
others-IsAs b c m m' ls x y sound k ne h j =
    let kept : IsSound m' ls = h.kept in
    let (n, l) = kept.locks y j.is_in in
    let is : j.node ≡ n = some-injective j.node n (sym j.lock.at ∙ sym (h.others y ne) ∙ l.at) in
    record {
      is_in = j.is_in;
      node = n;
      lock = l;
      is_held = ap (λ (q : Node). q.held) (sym is) ∙ j.is_held;
    }

hold-Sound :
    (m : MemLs) (ls : List Bytes) (o : Option Bytes)
    → IsSound m ls
    → OnAs false m ls o
    → (m' : MemLs) × (on_some hold o m ≡ some m') × IsSound m' ls
hold-Sound m ls none sound h = (m, refl, sound)
hold-Sound m ls (some x) sound k =
    let (m', done, h) = hold-IsHeld m ls sound x k.node k.is_in k.lock k.is_held in
    (m', done, h.kept)

hold_two :
    (m : MemLs) (ls : List Bytes) (o u : Option Bytes)
    → IsSound m ls
    → OnAs false m ls o
    → OnAs false m ls u
    → (m' : MemLs) × ((on_some hold o m >>= λ k. on_some hold (not_twice o u) k) ≡ some m')
      × IsSound m' ls
hold_two m ls none u sound h k = hold-Sound m ls u sound k
hold_two m ls (some x) none sound h k =
    let (m', done, g) = hold-Sound m ls (some x) sound h in (m', rw done refl, g)
hold_two m ls (some x) (some y) sound h k = elim (Bool-cases (beq y x)) [
  | inl p ↦ let (m', done, g) = hold-Sound m ls (some x) sound h in (m', rw (done, p) refl, g)
  | inr p ↦
      let (m1, done1, g) = hold-IsHeld m ls sound x h.node h.is_in h.lock h.is_held in
      let ne : y ≢ x = λ e. ground (arith, p, e, beq_refl x) in
      let (m2, done2, sound2) =
        hold-Sound m1 ls (some y) g.kept (others-IsAs true false m m1 ls x y sound h ne g k) in
      (m2, rw (done1, p) done2, sound2)
]

abbrev answering : LockResult Release → MemLs → Option (LockResult Release × MemLs)
answering a k = some (a, k)

pub pair-with :
    (o : Option MemLs) (f : MemLs → Option MemLs) (a : LockResult Release) (m' : MemLs)
    → (o >>= f) ≡ some m'
    → (o >>= λ k. f k >>= answering a) ≡ some (a, m')
pair-with none f a m' h = cc
pair-with (some k) f a m' h = ap (λ o. o >>= answering a) h

found :
    (o : Option Bytes) (x : Bytes)
    → elim o [ none ↦ refused confirmation_failed | some y ↦ granted (some y) ] ≡ granted (some x)
    → o ≡ some x
found none x h = cc
found (some y) x h = cc

hold_both-Sound :
    (m : MemLs) (ls : List Bytes) (r0 r1 : LockResult (Option Bytes))
    → IsSound m ls
    → ((o : Option Bytes) → r0 ≡ granted o → OnAs false m ls o)
    → ((o : Option Bytes) → r1 ≡ granted o → OnAs false m ls o)
    → Sound (hold_both r0 r1 m)
unfolding hold_both
hold_both-Sound m ls (refused e) r1 sound h k = (refused e, m, ls, refl, sound)
hold_both-Sound m ls (granted n0) (refused e) sound h k = (refused e, m, ls, refl, sound)
hold_both-Sound m ls (granted n0) (granted n1) sound h k =
    let (m', done, sound') = hold_two m ls n0 n1 sound (h n0 refl) (k n1 refl) in
    (
      granted (n0, not_twice n0 n1),
      m',
      ls,
      pair-with (on_some hold n0 m) (on_some hold (not_twice n0 n1)) (granted (n0, not_twice n0 n1))
          m' done,
      sound',
    )

pub claim_name-OnAs :
    (name : Bytes) (cs : List Condition) (m : MemLs) (ls : List Bytes) (o : Option Bytes)
    → IsSound m ls
    → claim_name name cs m ≡ granted o
    → OnAs false m ls o
claim_name-OnAs [] cs m ls none sound h = tt
claim_name-OnAs [] cs m ls (some x) sound h = cc
claim_name-OnAs (c ∷ name) cs m ls none sound h = tt
claim_name-OnAs (c ∷ name) cs m ls (some x) sound h =
    lookup_claim-OnAs (slash_clean (c ∷ name)) cs m ls (some x) sound
      (found (lookup_claim (slash_clean (c ∷ name)) cs m) x h)

pub confirm-Sound :
    (now : ℕ) (name0 name1 : Bytes) (conditions : List Condition) (m : MemLs) (ls : List Bytes)
    → IsSound m ls
    → Sound (confirm now name0 name1 conditions m)
unfolding confirm
confirm-Sound now name0 name1 conditions m ls sound =
    let (m1, ls1, ran, sound1, _) = collect_expired_nodes-IsSound now m ls sound in
    let (a, m2, ls2, done, sound2) =
      hold_both-Sound m1 ls1 (claim_name name0 conditions m1) (claim_name name1 conditions m1)
        sound1 (λ o. claim_name-OnAs name0 conditions m1 ls1 o sound1)
        (λ o. claim_name-OnAs name1 conditions m1 ls1 o sound1) in
    (a, m2, ls2, rw ran done, sound2)

-- Release of what a Confirm holds.
unhold-Sound :
    (m : MemLs) (ls : List Bytes) (o : Option Bytes)
    → IsSound m ls
    → OnAs true m ls o
    → (m' : MemLs) × (on_some unhold o m ≡ some m') × IsSound m' ls
unhold-Sound m ls none sound h = (m, refl, sound)
unhold-Sound m ls (some x) sound k =
    let (m', done, h) = unhold-IsHeld m ls sound x k.node k.is_in k.lock k.is_held in
    (m', done, h.kept)

-- Two nodes, or fewer, that are held, and are not the same.
unfoldable pub IsHolding : MemLs → List Bytes → Release → Type 0
IsHolding m ls (n0, n1) =
    OnAs true m ls n0 × OnAs true m ls n1 × ((x : Bytes) → n1 ≡ some x → n0 ≢ some x)

pub release-Sound :
    (r : Release) (m : MemLs) (ls : List Bytes)
    → IsSound m ls
    → IsHolding m ls r
    → (m' : MemLs) × (release r m ≡ some m') × IsSound m' ls
unfolding release IsHolding
release-Sound (n0, none) m ls sound (h, k, ne) = unhold-Sound m ls n0 sound h
release-Sound (none, some y) m ls sound (h, k, ne) =
    let (m1, done, sound1) = unhold-Sound m ls (some y) sound k in (m1, rw done refl, sound1)
release-Sound (some x, some y) m ls sound (h, k, ne) =
    let (m1, done1, g) = unhold-IsHeld m ls sound y k.node k.is_in k.lock k.is_held in
    let other : x ≢ y = λ e. ne y refl (ap some e) in
    let (m2, done2, sound2) =
      unhold-Sound m1 ls (some x) g.kept (others-IsAs false true m m1 ls y x sound k other g h) in
    (m2, rw done1 done2, sound2)

-- On a sound state no method of memLS panics, and each leaves a sound state, whether it grants or
-- refuses: Create, where the token that it makes is not one that is in use, Refresh, Unlock, Confirm,
-- and the release of what a Confirm holds. In a sound state every name has the references of the locks
-- at it and below it, each lock has one node, to which its token leads, every token is that of a lock,
-- and the heap has the locks that have an end and are not held, each of them once.
pub methods-IsSound :
    (now : ℕ) (details : LockDetails) (token : Bytes) (duration : Option ℕ) (name0 name1 : Bytes)
    (conditions : List Condition) (r : Release) (m : MemLs) (ls : List Bytes)
    → IsSound m ls
    → ((rest : MemLs)
        → collect_expired_nodes now m ≡ some rest
        → lookup (next_token rest).0 rest.by_token ≡ none)
    → IsHolding m ls r
    → Sound (create now details m)
      × Sound (refresh now token duration m)
      × Sound (unlock now token m)
      × Sound (confirm now name0 name1 conditions m)
      × ((m' : MemLs) × (release r m ≡ some m') × IsSound m' ls)
methods-IsSound now details token duration name0 name1 conditions r m ls sound new holding = (
  create-Sound now details m ls sound new,
  refresh-Sound now token duration m ls sound,
  unlock-Sound now token m ls sound,
  confirm-Sound now name0 name1 conditions m ls sound,
  release-Sound r m ls sound holding,
)
