-- ===== src/Lock/Ops/Confirm.antt =====
-- Confirm on each of its branches (webdav/lock.go).
use webdav_serverless.Base.{
  ℕ, true, false, Option, none, some, List, [], ◌∷◌, ◌≡◌, ◌≢◌, ◌⊎◌, inl, inr, refl, sym, ap, ◌∙◌,
  Bytes, bytes_eq, beq, beq_refl, beq→eq, if◌then◌else◌, Bool-cases, All,
}
use webdav_serverless.Base.Dict.{lookup}
use webdav_serverless.Path.{slash_clean}
use webdav_serverless.IfHeader.{Condition}
use webdav_serverless.Lock.{confirmation_failed, LockResult, granted, refused, Node, MemLs, ◌>>=◌}
use webdav_serverless.Lock.Ops.{
  lookup_claim, hold, on_some, Release, not_twice, claim_name, hold_both, confirm,
  collect_expired_nodes,
}
use webdav_serverless.Lock.Ops.Confirmed.{
  Claims, Some, lookup_claim-Claims, lookup_claim-none, hold-Holds,
}

-- What Confirm finds for a name: nothing for an empty one, and else the node of a lock that one of
-- the conditions claims.
abbrev pub Claimed : Bytes → List Condition → MemLs → Option Bytes → Type 0
Claimed [] cs m o = o ≡ none
Claimed (c ∷ name) cs m none = ⊥
Claimed (c ∷ name) cs m (some x) = Some (λ k. Claims (slash_clean (c ∷ name)) m k x) cs

-- None of the conditions claims the name.
abbrev pub Unclaimed : Bytes → List Condition → MemLs → Type 0
Unclaimed [] cs m = ⊥
Unclaimed (c ∷ name) cs m = All (λ k. (x : Bytes) → ¬ (Claims (slash_clean (c ∷ name)) m k x)) cs

abbrev NamePost : Bytes → List Condition → MemLs → LockResult (Option Bytes) → Type 0
NamePost name cs m (granted o) = Claimed name cs m o
NamePost name cs m (refused e) = (e ≡ confirmation_failed) × Unclaimed name cs m

claim_name-Post :
    (name : Bytes) (cs : List Condition) (m : MemLs) → NamePost name cs m (claim_name name cs m)
claim_name-Post [] cs m = refl
claim_name-Post (c ∷ name) cs m = go (lookup_claim (slash_clean (c ∷ name)) cs m) refl
  where
    go :
        (o : Option Bytes)
        → lookup_claim (slash_clean (c ∷ name)) cs m ≡ o
        → NamePost
            (c ∷ name)
            cs
            m
            (elim o [ none ↦ refused confirmation_failed | some x ↦ granted (some x) ])
    go none h = (refl, lookup_claim-none (slash_clean (c ∷ name)) cs m h)
    go (some x) h = lookup_claim-Claims (slash_clean (c ∷ name)) cs m x h

abbrev pub IsHeld : MemLs → Option Bytes → Type 0
IsHeld m none = Unit
IsHeld m (some x) = (n : Node) × (lookup x m.by_name ≡ some n) × (n.held ≡ true)

-- A claimed node is there, and not held.
abbrev pub IsFree : MemLs → Option Bytes → Type 0
IsFree m none = Unit
IsFree m (some x) = (n : Node) × (lookup x m.by_name ≡ some n) × (n.held ≡ false)

pub Some-IsFree :
    (name : Bytes) (cs : List Condition) (m : MemLs) (x : Bytes)
    → Some (λ k. Claims name m k x) cs
    → IsFree m (some x)
Some-IsFree name [] m x h = elim h [ ]
Some-IsFree name (c ∷ cs) m x (inl k) = (k.node, k.by_name, k.not_held)
Some-IsFree name (c ∷ cs) m x (inr h) = Some-IsFree name cs m x h

Claimed-IsFree :
    (name : Bytes) (cs : List Condition) (m : MemLs) (o : Option Bytes)
    → Claimed name cs m o
    → IsFree m o
Claimed-IsFree [] cs m none h = tt
Claimed-IsFree [] cs m (some x) h = cc
Claimed-IsFree (c ∷ name) cs m none h = elim h [ ]
Claimed-IsFree (c ∷ name) cs m (some x) h = Some-IsFree (slash_clean (c ∷ name)) cs m x h

-- Holding both nodes, the second one if it is another.
hold_two :
    (m : MemLs) (n0 n1 : Option Bytes)
    → IsFree m n0
    → IsFree m n1
    → (m' : MemLs) × ((on_some hold n0 m >>= on_some hold (not_twice n0 n1)) ≡ some m')
      × IsHeld m' n0
      × IsHeld m' n1
      × (m'.by_token ≡ m.by_token)
hold_two m none none f0 f1 = (m, refl, tt, tt, refl)
hold_two m none (some y) f0 (n, at, free) =
    let (m', done, h) = hold-Holds y m n at free in
    (m', done, tt, (h.node, h.at, h.is_held), h.tokens)
hold_two m (some x) none (n, at, free) f1 =
    let (m', done, h) = hold-Holds x m n at free in
    (m', ap (λ o. o >>= on_some hold none) done, (h.node, h.at, h.is_held), tt, h.tokens)
hold_two m (some x) (some y) (n, at, free) (n', at', free') =
    let (m', done, h) = hold-Holds x m n at free in
    elim (Bool-cases (beq y x)) [
      | inl p ↦
          let same : y ≡ x = beq→eq y x p in
          (
            m',
            ap (λ o. o >>= on_some hold (if beq y x then none else some y)) done
                ∙ ap (λ b. on_some hold (if b then none else some y) m') p,
            (h.node, h.at, h.is_held),
            (h.node, ap (λ k. lookup k m'.by_name) same ∙ h.at, h.is_held),
            h.tokens,
          )
      | inr p ↦
          let apart : y ≢ x = λ e. cc (beq_refl y) in
          let (m'', done', h') = hold-Holds y m' n' (h.others y apart ∙ at') free' in
          (
            m'',
            ap (λ o. o >>= on_some hold (if beq y x then none else some y)) done
                ∙ ap (λ b. on_some hold (if b then none else some y) m') p
                ∙ done',
            (h.node, h'.others x (λ e. apart (sym e)) ∙ h.at, h.is_held),
            (h'.node, h'.at, h'.is_held),
            h'.tokens ∙ h.tokens,
          )
    ]

-- The outcome of Confirm on the locks `m` that have not expired.
abbrev pub ConfirmPost :
    Bytes → Bytes → List Condition → MemLs → LockResult Release → MemLs → Type 0
ConfirmPost name0 name1 cs m (granted (n0, n1)) m' =
    (o : Option Bytes) × Claimed name0 cs m n0
    × Claimed name1 cs m o
    × (n1 ≡ not_twice n0 o)
    × IsHeld m' n0
    × IsHeld m' o
    × (m'.by_token ≡ m.by_token)
ConfirmPost name0 name1 cs m (refused e) m' =
    (e ≡ confirmation_failed) × (Unclaimed name0 cs m ⊎ Unclaimed name1 cs m) × (m' ≡ m)

bind_assoc :
    {A B C : Type 0} (a : Option A) (f : A → Option B) (g : B → Option C)
    → (a >>= λ x. f x >>= g) ≡ ((a >>= f) >>= g)
bind_assoc none f g = refl
bind_assoc (some x) f g = refl

hold_both-Post :
    (name0 name1 : Bytes) (cs : List Condition) (m : MemLs) (r0 r1 : LockResult (Option Bytes))
    → NamePost name0 cs m r0
    → NamePost name1 cs m r1
    → (r : LockResult Release) × (m' : MemLs) × (hold_both r0 r1 m ≡ some (r, m'))
      × ConfirmPost name0 name1 cs m r m'
unfolding hold_both
hold_both-Post name0 name1 cs m (refused e) r1 (p, h) k = (refused e, m, refl, (p, inl h, refl))
hold_both-Post name0 name1 cs m (granted n0) (refused e) h (p, k) =
    (refused e, m, refl, (p, inr k, refl))
hold_both-Post name0 name1 cs m (granted n0) (granted o) h k =
    let (m', done, held0, held1, same) =
      hold_two m n0 o (Claimed-IsFree name0 cs m n0 h) (Claimed-IsFree name1 cs m o k) in
    (
      granted (n0, not_twice n0 o),
      m',
      bind_assoc (on_some hold n0 m) (on_some hold (not_twice n0 o))
            (λ m. some (granted (n0, not_twice n0 o), m))
          ∙ ap (λ r. r >>= λ m. some (granted (n0, not_twice n0 o), m)) done,
      (o, h, k, refl, held0, held1, same),
    )

-- Confirm does not panic where the removal of the expired locks does not. It is granted where each of
-- the names that are not empty is locked by a node that some condition's token names, and that is not
-- held; then the nodes are held. Otherwise it is refused with ErrConfirmationFailed, for a name that no
-- condition claims, and no lock changes.
pub confirm-Post :
    (now : ℕ) (name0 name1 : Bytes) (cs : List Condition) (m m1 : MemLs)
    → collect_expired_nodes now m ≡ some m1
    → (r : LockResult Release) × (m' : MemLs) × (confirm now name0 name1 cs m ≡ some (r, m'))
      × ConfirmPost name0 name1 cs m1 r m'
unfolding confirm
confirm-Post now name0 name1 cs m m1 alive =
    let (r, m', done, post) =
      hold_both-Post name0 name1 cs m1 (claim_name name0 cs m1) (claim_name name1 cs m1)
        (claim_name-Post name0 cs m1) (claim_name-Post name1 cs m1) in
    (
      r,
      m',
      ap (λ o. o >>= λ m. hold_both (claim_name name0 cs m) (claim_name name1 cs m) m) alive ∙ done,
      post,
    )
