-- ===== src/Lock/Ops/Released.antt =====
-- The function that Confirm returns (webdav/lock.go).
use mathlib.Core.Option.{some-injective}
use webdav_serverless.Base.{
  ℕ, true, false, Option, none, some, List, ◌≡◌, ◌≢◌, inl, inr, refl, sym, ap, ◌∙◌, subst, Bytes,
  bytes_eq, beq, beq_refl, beq_ne, if◌then◌else◌, arith, Option-cases, Bool-cases,
}
use webdav_serverless.Base.Dict.{lookup, insert, lookup-insert}
use webdav_serverless.IfHeader.{Condition}
use webdav_serverless.Lock.{LockResult, granted, refused, Node, MemLs, ◌>>=◌, set_node, heap_push}
use webdav_serverless.Lock.Ops.{
  unhold, unhold_node, on_some, Release, not_twice, confirm, release, collect_expired_nodes,
}
use webdav_serverless.Lock.Ops.Confirm.{IsHeld, IsFree, ConfirmPost, confirm-Post}
use webdav_serverless.Lock.Ops.Exclusive.{granted-injective, granted-IsHeld}

-- A node goes from held to not held, and no other node changes.
record Frees (x : Bytes) (m m' : MemLs) : Type 0 where
  node : Node
  at : lookup x m'.by_name ≡ some node
  is_free : node.held ≡ false
  others : (y : Bytes) → y ≢ x → lookup y m'.by_name ≡ lookup y m.by_name

inserted-Frees :
    (x : Bytes) (m m' : MemLs) (n : Node)
    → m'.by_name ≡ insert x n m.by_name
    → n.held ≡ false
    → Frees x m m'
inserted-Frees x m m' n put is = record {
  node = n;
  at =
      ap (lookup x) put
      ∙ lookup-insert x x n m.by_name
      ∙ ap (λ b. if b then some n else lookup x m.by_name) (beq_refl x);
  is_free = is;
  others = λ y ne.
      ap (lookup y) put
      ∙ lookup-insert y x n m.by_name
      ∙ ap (λ b. if b then some n else lookup y m.by_name) (beq_ne y x ne);
}

unhold-Frees :
    (x : Bytes) (m : MemLs)
    → IsHeld m (some x)
    → (m' : MemLs) × (unhold x m ≡ some m') × Frees x m m'
unfolding unhold unhold_node heap_push
unhold-Frees x m (n, at, held) =
    let f : Node = record n { held = false } in
    let q : Node = record f { queued = true } in
    elim (Option-cases n.details.duration) [
      | inl p ↦ (set_node x f m, ground (arith, at, held, p), inserted-Frees x m _ f refl refl)
      | inr (d, p) ↦
          (heap_push x f m, ground (arith, at, held, p), inserted-Frees x m _ q refl refl)
    ]

-- The second node is not the first.
AreApart : Option Bytes → Option Bytes → Type 0
AreApart none n1 = Unit
AreApart (some x) none = Unit
AreApart (some x) (some y) = y ≢ x

not_twice-AreApart : (n0 o : Option Bytes) → AreApart n0 (not_twice n0 o)
unfolding AreApart
not_twice-AreApart none o = tt
not_twice-AreApart (some x) none = tt
not_twice-AreApart (some x) (some y) = elim (Bool-cases (beq y x)) [
  | inl p ↦ subst (λ b. AreApart (some x) (if b then none else some y)) (sym p) tt
  | inr p ↦
      subst (λ b. AreApart (some x) (if b then none else some y)) (sym p) (λ e. cc (beq_refl y))
]

release-IsFree :
    (m : MemLs) (n0 n1 : Option Bytes)
    → AreApart n0 n1
    → IsHeld m n0
    → IsHeld m n1
    → (m' : MemLs) × (release (n0, n1) m ≡ some m') × IsFree m' n0 × IsFree m' n1
unfolding release AreApart
release-IsFree m none none a h0 h1 = (m, refl, tt, tt)
release-IsFree m none (some y) a h0 h1 =
    let (m', done, f) = unhold-Frees y m h1 in
    (m', ap (λ o. o >>= on_some unhold none) done, tt, (f.node, f.at, f.is_free))
release-IsFree m (some x) none a h0 h1 =
    let (m', done, f) = unhold-Frees x m h0 in (m', done, (f.node, f.at, f.is_free), tt)
release-IsFree m (some x) (some y) a (n, at, held) h1 =
    let (m', done, f) = unhold-Frees y m h1 in
    let (m'', done', g) = unhold-Frees x m' (n, f.others x (λ e. a (sym e)) ∙ at, held) in
    (
      m'',
      ap (λ o. o >>= unhold x) done ∙ done',
      (g.node, g.at, g.is_free),
      (f.node, g.others y a ∙ f.at, f.is_free),
    )

granted-AreApart :
    (name0 name1 : Bytes) (cs : List Condition) (m m' : MemLs) (r : LockResult Release)
    (n0 n1 : Option Bytes)
    → r ≡ granted (n0, n1)
    → ConfirmPost name0 name1 cs m r m'
    → AreApart n0 n1
granted-AreApart name0 name1 cs m m' (refused e) n0 n1 h post = cc
granted-AreApart name0 name1 cs m m' (granted (k0, k1)) n0 n1 h (o, _, _, twice, _, _, _) =
    let (p, q) = granted-injective (k0, k1) (n0, n1) h in
    subst (λ a. AreApart a n1) p (subst (AreApart k0) (sym twice ∙ q) (not_twice-AreApart k0 o))

-- After a Confirm is granted, its release function does not panic, and none of the nodes is held then.
pub confirm-release :
    (now : ℕ) (name0 name1 : Bytes) (cs : List Condition) (m m1 m' : MemLs) (n0 n1 : Option Bytes)
    → collect_expired_nodes now m ≡ some m1
    → confirm now name0 name1 cs m ≡ some (granted (n0, n1), m')
    → (m'' : MemLs) × (release (n0, n1) m' ≡ some m'') × IsFree m'' n0 × IsFree m'' n1
confirm-release now name0 name1 cs m m1 m' n0 n1 alive done =
    let (r, m2, ran, post) = confirm-Post now name0 name1 cs m m1 alive in
    let same : ◌≡◌ {A = LockResult Release × MemLs} (r, m2) (granted (n0, n1), m') =
      some-injective _ _ (sym ran ∙ done) in
    let result : r ≡ granted (n0, n1) = ap (λ (p : LockResult Release × MemLs). p.0) same in
    let there : m2 ≡ m' = ap (λ (p : LockResult Release × MemLs). p.1) same in
    let (held0, held1) = granted-IsHeld name0 name1 cs m1 m2 r n0 n1 result post in
    release-IsFree m' n0 n1 (granted-AreApart name0 name1 cs m1 m2 r n0 n1 result post)
      (subst (λ m. IsHeld m n0) there held0) (subst (λ m. IsHeld m n1) there held1)
