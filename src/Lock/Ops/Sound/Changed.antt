-- ===== src/Lock/Ops/Sound/Changed.antt =====
-- hold, unhold and a new expiry on a sound state (webdav/lock.go).
use mathlib.Core.Option.{some-injective}
use webdav_serverless.Base.{
  ◌<◌, ℕ, Bool, true, false, ◌||◌, ◌&&◌, not, some, List, [], ◌∷◌, ◌≡◌, ◌≢◌, refl, sym, ap, ◌∙◌,
  subst, Bytes, bytes_eq, bytes_dec, beq, beq_ne, beq_refl, beq→eq, if◌then◌else◌, ltb, arith,
  contains, Option-cases, Bool-cases, inl, inr,
}
use webdav_serverless.Base.Dict.{Dict, lookup, insert, lookup-insert}
use webdav_serverless.Lock.{Node, MemLs, unlist, push, heap_push, heap_remove, set_node, expiry_of}
use webdav_serverless.Lock.Ops.{hold_node, hold, unhold_node, unhold}
use webdav_serverless.Lock.Ops.Sound.{IsNodup, IsSound, IsLock, expires}
use webdav_serverless.Lock.Ops.Sound.Unlisted.{contains-unlist_eq, IsNodup-unlist}

pub contains-push :
    (nodes : Dict Bytes Node) (x y : Bytes) (e : ℕ) (xs : List Bytes)
    → contains (push nodes x e xs) y ≡ (beq y x || contains xs y)
unfolding push contains
contains-push nodes x y e [] = refl
contains-push nodes x y e (z ∷ xs) = ground (arith, contains-push nodes x y e xs)

pub IsNodup-push :
    (nodes : Dict Bytes Node) (x : Bytes) (e : ℕ) (xs : List Bytes)
    → contains xs x ≡ false
    → IsNodup xs
    → IsNodup (push nodes x e xs)
unfolding push contains
IsNodup-push nodes x e [] h u = (refl, tt)
IsNodup-push nodes x e (z ∷ xs) h (fresh, u) =
    elim (Bool-cases (ltb e (expiry_of (lookup z nodes)))) [
      | inl p ↦
          subst (λ b. IsNodup (if b then x ∷ z ∷ xs else z ∷ push nodes x e xs)) (sym p)
            (h, (fresh, u))
      | inr p ↦
          subst (λ b. IsNodup (if b then x ∷ z ∷ xs else z ∷ push nodes x e xs)) (sym p)
            (
              ground (arith, contains-push nodes x z e xs, fresh, h, beq→eq z x, beq_refl x),
              IsNodup-push nodes x e xs (ground (arith, h)) u,
            )
    ]

-- The lock of `x` has the node `n`, and gets another.
module _ (m : MemLs) (ls : List Bytes) (sound : IsSound m ls) (x : Bytes) (n : Node)
    (locked : contains ls x ≡ true) (lock : IsLock m x n) where
  -- A node with the same token and count.
  pub record IsNew (n' : Node) : Type 0 where
    pub token : n'.token ≡ n.token
    pub own : n'.details.lock_root ≡ x
    pub count : n'.ref_count ≡ n.ref_count
    pub waits : n'.queued ≡ (not n'.held && expires n'.details.duration)

  module _ (n' : Node) (new : IsNew n') (heap : List Bytes) (nodup : IsNodup heap)
      (left : (y : Bytes)
        → contains heap y ≡ (if beq y x then n'.queued else contains m.by_expiry y)) where
    abbrev changed : MemLs
    changed = record m { by_name = insert x n' m.by_name; by_expiry = heap }

    changed-at : lookup x changed.by_name ≡ some n'
    changed-at = ground (arith, lookup-insert x x n' m.by_name, beq_refl x)

    pub changed-other : (y : Bytes) → y ≢ x → lookup y changed.by_name ≡ lookup y m.by_name
    changed-other y ne = ground (arith, lookup-insert y x n' m.by_name, ne)

    changed-lock : (y : Bytes) → contains ls y ≡ true → (c : Node) × IsLock changed y c
    changed-lock y h = elim (bytes_dec y x) [
      | yes e ↦ (
        n',
        subst (λ z. IsLock changed z n') (sym e)
            (record {
              at = changed-at;
              own = new.own;
              token = rw new.token lock.token;
              named = λ k. lock.named (sym new.token ∙ k);
              queue = left x ∙ rw (beq_refl x) refl;
              waits = new.waits;
            }),
      )
      | no ne ↦
          let (c, l) = sound.locks y h in
          (
            c,
            record {
              at = changed-other y ne ∙ l.at;
              own = l.own;
              token = l.token;
              named = l.named;
              queue = left y ∙ rw (beq_ne y x ne) l.queue;
              waits = l.waits;
            },
          )
    ]

    changed-heap : (y : Bytes) → contains heap y ≡ true → contains ls y ≡ true
    changed-heap y h = ground (arith, left y, h, locked, sound.heap y, beq→eq y x)

    changed-tokens :
        (t y : Bytes)
        → lookup t m.by_token ≡ some y
        → (contains ls y ≡ true) × ((c : Node) → lookup y changed.by_name ≡ some c → c.token ≡ t)
    changed-tokens t y h =
        let (old, tok) = sound.tokens t y h in
        (
          old,
          λ c at. elim (bytes_dec y x) [
            | yes e ↦
                let is : n' ≡ c =
                  some-injective n' c
                    (sym changed-at ∙ ap (λ z. lookup z changed.by_name) (sym e) ∙ at) in
                ap (λ (k : Node). k.token) (sym is)
                ∙ new.token
                ∙ tok n (ap (λ z. lookup z m.by_name) e ∙ lock.at)
            | no ne ↦ tok c (sym (changed-other y ne) ∙ at)
          ],
        )

    pub changed-IsSound : IsSound changed ls
    changed-IsSound = record {
      referred = λ k i found.
          let positive : 0 < n.ref_count = sound.referred x n lock.at in
          ground
            (arith, found, positive, new.count, sound.referred k i, lookup-insert k x n' m.by_name);
      counts = λ k.
          ground
            (arith, sound.counts k, lock.at, new.count, lookup-insert k x n' m.by_name, beq→eq k x);
      nodup = nodup;
      unique = sound.unique;
      locks = changed-lock;
      heap = changed-heap;
      tokens = changed-tokens;
      rest = λ y c at h.
          sound.rest y c (sym (changed-other y (λ e. ground (arith, e, h, locked))) ∙ at) h;
    }

  -- Three ways to change the heap with the node: not at all, out of it, and into it.
  pub stay-IsSound : (n' : Node) → IsNew n' → n'.queued ≡ n.queued → IsSound (set_node x n' m) ls
  stay-IsSound n' new same =
      changed-IsSound n' new m.by_expiry sound.nodup
        (λ y. ground (arith, same, lock.queue, beq→eq y x))

  pub off-IsSound :
      (n' : Node) → IsNew (record n' { queued = false }) → IsSound (heap_remove x n' m) ls
  unfolding heap_remove
  off-IsSound n' new =
      changed-IsSound (record n' { queued = false }) new (unlist x m.by_expiry)
        (IsNodup-unlist x m.by_expiry sound.nodup)
        (λ y. contains-unlist_eq x y m.by_expiry sound.nodup)

  pub on-IsSound :
      (n' : Node)
      → IsNew (record n' { queued = true })
      → n.queued ≡ false
      → IsSound (heap_push x n' m) ls
  unfolding heap_push
  on-IsSound n' new off =
      changed-IsSound (record n' { queued = true }) new (push m.by_name x n'.expiry m.by_expiry)
        (IsNodup-push m.by_name x n'.expiry m.by_expiry (lock.queue ∙ off) sound.nodup)
        (λ y. ground (arith, contains-push m.by_name x y n'.expiry m.by_expiry))

  -- What hold and unhold leave of the other nodes.
  pub record IsHeld (held : Bool) (m' : MemLs) : Type 0 where
    pub kept : IsSound m' ls
    pub node : Node
    pub at : lookup x m'.by_name ≡ some node
    pub is_held : node.held ≡ held
    pub others : (y : Bytes) → y ≢ x → lookup y m'.by_name ≡ lookup y m.by_name

  placed :
      (held : Bool) (n' : Node) (m' : MemLs)
      → m'.by_name ≡ insert x n' m.by_name
      → n'.held ≡ held
      → IsSound m' ls
      → IsHeld held m'
  placed held n' m' is h kept = record {
    kept = kept;
    node = n';
    at = ap (lookup x) is ∙ ground (arith, lookup-insert x x n' m.by_name, beq_refl x);
    is_held = h;
    others = λ y ne. ap (lookup y) is ∙ ground (arith, lookup-insert y x n' m.by_name, ne);
  }

  abbrev with_held : Bool → Node
  with_held b = record n { held = b }

  pub hold-IsHeld : n.held ≡ false → (m' : MemLs) × (hold x m ≡ some m') × IsHeld true m'
  unfolding hold hold_node heap_remove
  hold-IsHeld h = elim (Option-cases n.details.duration) [
    | inl p ↦ (
      set_node x (with_held true) m,
      ap (hold_node x m) lock.at ∙ ground (arith, h, p),
      placed true (with_held true) _ refl refl (
          stay-IsSound (with_held true)
            (record {
              token = refl;
              own = lock.own;
              count = refl;
              waits = lock.waits ∙ ground (arith, p);
            })
            refl),
    )
    | inr (d, p) ↦ (
      heap_remove x (with_held true) m,
      ap (hold_node x m) lock.at
          ∙ (let q : n.queued ≡ true = lock.waits ∙ ground (arith, h, p) in
              ground (arith, h, p, q)),
      placed true _ _ refl refl (
          off-IsSound (with_held true)
            (record { token = refl; own = lock.own; count = refl; waits = refl })),
    )
  ]

  pub unhold-IsHeld : n.held ≡ true → (m' : MemLs) × (unhold x m ≡ some m') × IsHeld false m'
  unfolding unhold unhold_node heap_push
  unhold-IsHeld h = elim (Option-cases n.details.duration) [
    | inl p ↦ (
      set_node x (with_held false) m,
      ap (unhold_node x m) lock.at ∙ ground (arith, h, p),
      placed false (with_held false) _ refl refl (
          stay-IsSound (with_held false)
            (record {
              token = refl;
              own = lock.own;
              count = refl;
              waits = lock.waits ∙ ground (arith, p);
            })
            refl),
    )
    | inr (d, p) ↦ (
      heap_push x (with_held false) m,
      ap (unhold_node x m) lock.at ∙ ground (arith, h, p),
      placed false _ _ refl refl (
          on-IsSound (with_held false)
            (record { token = refl; own = lock.own; count = refl; waits = ground (arith, p) })
            (lock.waits ∙ ground (arith, h))),
    )
  ]
