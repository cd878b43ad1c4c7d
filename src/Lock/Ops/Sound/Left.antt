-- ===== src/Lock/Ops/Sound/Left.antt =====
-- A state with one lock less (webdav/lock.go).
use mathlib.Core.Option.{some-injective}
use webdav_serverless.Base.{
  bytes_dec, beq_ne, beq_refl, ◌<◌, true, false, some, List, ◌≡◌, ◌≢◌, sym, ap, ◌∙◌, subst, Bytes,
  bytes_eq, beq, if◌then◌else◌, arith, contains, Option-cases, inl, inr,
}
use webdav_serverless.Base.Dict.{Dict, lookup, erase, lookup-erase}
use webdav_serverless.Lock.{Node, MemLs, unlist}
use webdav_serverless.Lock.Counts.{AllReferred, refs}
use webdav_serverless.Lock.Ops.Sound.{
  total, IsNodup, IsSound, IsLock, IsUnlocked, IsSame, contains-unlist, contains-total,
}
use webdav_serverless.Lock.Ops.Sound.Unlisted.{contains-unlist_rev, unlist-ne, IsNodup-unlist}

-- The lock of `x`, whose node is `n`, is taken away.
module _ (m : MemLs) (ls : List Bytes) (sound : IsSound m ls) (x : Bytes) (n : Node)
    (locked : contains ls x ≡ true) (lock : IsLock m x n) (unheld : n.held ≡ false) where
  -- The state that is left has these nodes, and what it has in its heap.
  module _ (nodes : Dict Bytes Node) (heap : List Bytes)
      (counts : (k : Bytes) → refs (lookup k nodes) ≡ total k (unlist x ls))
      (referred : AllReferred nodes)
      (others : (y : Bytes) (n' : Node)
        → y ≢ x
        → lookup y nodes ≡ some n'
        → (c : Node) × (lookup y m.by_name ≡ some c) × IsSame c n')
      (own : (n' : Node) → lookup x nodes ≡ some n' → IsUnlocked n') (nodup : IsNodup heap)
      (left : (y : Bytes)
        → contains heap y ≡ (if beq y x then false else contains m.by_expiry y)) where
    abbrev after : MemLs
    after = record m { by_name = nodes; by_token = erase n.token m.by_token; by_expiry = heap }

    other-token :
        (y : Bytes) (c : Node)
        → y ≢ x
        → IsLock m y c
        → lookup c.token (erase n.token m.by_token) ≡ some y
    other-token y c ne l =
        ground (arith, lookup-erase c.token n.token m.by_token, l.token, lock.token, ne)

    unlisted : (y : Bytes) → contains (unlist x ls) y ≡ true → (y ≢ x) × (contains ls y ≡ true)
    unlisted y h = (unlist-ne x y ls sound.unique h, contains-unlist_rev x y ls h)

    same-lock :
        (y : Bytes) (n' c : Node)
        → y ≢ x
        → lookup y nodes ≡ some n'
        → IsLock m y c
        → IsSame c n'
        → IsLock after y n'
    same-lock y n' c ne at l same = record {
      at = at;
      own = ap (λ d. d.lock_root) same.details ∙ l.own;
      token = rw same.token (other-token y c ne l);
      named = λ e. l.named (sym same.token ∙ e);
      queue = left y ∙ rw (beq_ne y x ne) l.queue ∙ sym same.queued;
      waits = rw (same.queued, same.held, same.details) l.waits;
    }

    after-lock : (y : Bytes) → contains (unlist x ls) y ≡ true → (n' : Node) × IsLock after y n'
    after-lock y h =
        let (ne, old) = unlisted y h in
        let (c, l) = sound.locks y old in
        let positive : 0 < total y (unlist x ls) = contains-total y (unlist x ls) h in
        elim (Option-cases (lookup y nodes)) [
          | inl p ↦ absurd (ground (arith, p, counts y, positive))
          | inr (n', p) ↦
              let (b, at_b, same) = others y n' ne p in
              let is : b ≡ c = some-injective b c (sym at_b ∙ l.at) in
              (n', same-lock y n' c ne p l (subst (λ k. IsSame k n') is same))
        ]

    erased :
        (t y : Bytes)
        → lookup t (erase n.token m.by_token) ≡ some y
        → (t ≢ n.token) × (lookup t m.by_token ≡ some y)
    erased t y h = (
      λ e. ground (arith, lookup-erase t n.token m.by_token, h, e, beq_refl t),
      ground (arith, lookup-erase t n.token m.by_token, h),
    )

    after-tokens :
        (t y : Bytes)
        → lookup t after.by_token ≡ some y
        → (contains (unlist x ls) y ≡ true)
          × ((n' : Node) → lookup y nodes ≡ some n' → n'.token ≡ t)
    after-tokens t y h =
        let (other, k) = erased t y h in
        let (old, tok) = sound.tokens t y k in
        let ne : y ≢ x = λ e. other (sym (tok n (ap (λ z. lookup z m.by_name) e ∙ lock.at))) in
        (
          contains-unlist x y ls ne old,
          λ n' at. let (c, at_c, same) = others y n' ne at in same.token ∙ tok c at_c,
        )

    after-rest :
        (y : Bytes) (n' : Node)
        → lookup y nodes ≡ some n'
        → contains (unlist x ls) y ≡ false
        → IsUnlocked n'
    after-rest y n' at h = elim (bytes_dec y x) [
      | yes e ↦ own n' (ap (λ z. lookup z nodes) (sym e) ∙ at)
      | no ne ↦
          let (c, at_c, same) = others y n' ne at in
          let f : IsUnlocked c =
            sound.rest y c at_c (ground (arith, contains-unlist x y ls ne, h)) in
          record {
            token = same.token ∙ f.token;
            queued = same.queued ∙ f.queued;
            held = same.held ∙ f.held;
          }
    ]

    pub after-IsSound : IsSound after (unlist x ls)
    after-IsSound = record {
      counts = counts;
      referred = referred;
      nodup = nodup;
      unique = IsNodup-unlist x ls sound.unique;
      locks = after-lock;
      heap = λ y h.
          (let ne : y ≢ x = λ e. ground (arith, left y, h, e, beq_refl y) in
            contains-unlist x y ls ne (sound.heap y (ground (arith, left y, h))));
      tokens = after-tokens;
      rest = after-rest;
    }
