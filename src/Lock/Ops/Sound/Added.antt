-- ===== src/Lock/Ops/Sound/Added.antt =====
-- A state with one lock more (webdav/lock.go).
use mathlib.Core.Option.{some-injective}
use webdav_serverless.Base.{
  ◌<◌, ℕ, true, false, ◌&&◌, not, none, some, List, [], ◌∷◌, ◌≡◌, ◌≢◌, refl, sym, ap, ◌∙◌, subst,
  Bytes, bytes_eq, bytes_dec, beq, beq_ne, beq_refl, beq→eq, if◌then◌else◌, arith, contains, inl,
  inr,
}
use webdav_serverless.Base.Dict.{Dict, lookup, insert, lookup-insert}
use webdav_serverless.Lock.{Node, MemLs, walk_to_root, refer}
use webdav_serverless.Lock.Counts.{AllReferred, refer-AllReferred, refs, refs-refer}
use webdav_serverless.Lock.Ops.Sound.{times-walk, IsNodup, IsSound, IsLock, IsUnlocked, expires}
use webdav_serverless.Lock.Ops.Sound.Referred.{refer-IsSame, refer-new}

-- A new lock of `x`, that nobody has.
module _ (m : MemLs) (ls : List Bytes) (sound : IsSound m ls) (x : Bytes)
    (absent : contains ls x ≡ false) (t : Bytes) (new : lookup t m.by_token ≡ none)
    (named : t ≢ []) where
  abbrev referred : Dict Bytes Node
  referred = refer m.by_name (walk_to_root x)

  module _ (gen : ℕ) (n : Node) (heap : List Bytes) (token : n.token ≡ t)
      (own : n.details.lock_root ≡ x) (count : n.ref_count ≡ refs (lookup x referred))
      (waits : n.queued ≡ (not n.held && expires n.details.duration)) (nodup : IsNodup heap)
      (left : (y : Bytes)
        → contains heap y ≡ (if beq y x then n.queued else contains m.by_expiry y)) where
    abbrev added : MemLs
    added = record m {
      by_name = insert x n referred;
      by_token = insert t x m.by_token;
      gen = gen;
      by_expiry = heap;
    }

    other-token :
        (y : Bytes) (c : Node) → IsLock m y c → lookup c.token (insert t x m.by_token) ≡ some y
    other-token y c l = ground (arith, lookup-insert c.token t x m.by_token, l.token, new)

    added-lock : (y : Bytes) → contains (x ∷ ls) y ≡ true → (c : Node) × IsLock added y c
    unfolding contains
    added-lock y h = elim (bytes_dec y x) [
      | yes e ↦ (
        n,
        subst (λ z. IsLock added z n) (sym e)
            (record {
              at = ground (arith, lookup-insert x x n referred, beq_refl x);
              own = own;
              token = ground (arith, token, lookup-insert n.token t x m.by_token, beq_refl t);
              named = λ k. named (sym token ∙ k);
              queue = left x ∙ rw (beq_refl x) refl;
              waits = waits;
            }),
      )
      | no ne ↦
          let (c, l) = sound.locks y (ground (arith, h, ne)) in
          let (c', at, same) = refer-IsSame m.by_name (walk_to_root x) y c l.at in
          (
            c',
            record {
              at = ground (arith, at, lookup-insert y x n referred, ne);
              own = ap (λ d. d.lock_root) same.details ∙ l.own;
              token = rw same.token (other-token y c l);
              named = λ e. l.named (sym same.token ∙ e);
              queue = left y ∙ rw (beq_ne y x ne) l.queue ∙ sym same.queued;
              waits = rw (same.queued, same.held, same.details) l.waits;
            },
          )
    ]

    added-tokens :
        (s y : Bytes)
        → lookup s (insert t x m.by_token) ≡ some y
        → (contains (x ∷ ls) y ≡ true)
          × ((c : Node) → lookup y (insert x n referred) ≡ some c → c.token ≡ s)
    unfolding contains
    added-tokens s y h = elim (bytes_dec s t) [
      | yes e ↦
          let is : x ≡ y =
            some-injective x y
              (sym (ground (arith, e, lookup-insert s t x m.by_token, beq_refl t)) ∙ h) in
          (
            ground (arith, is, beq_refl y),
            λ c at.
                (let own_node : n ≡ c =
                    some-injective n c
                      (sym (ground (arith, lookup-insert y x n referred, is, beq_refl x)) ∙ at) in
                  ap (λ (q : Node). q.token) (sym own_node) ∙ token ∙ sym e),
          )
      | no ne ↦
          let (old, tok) =
            sound.tokens s y (ground (arith, ne, h, lookup-insert s t x m.by_token)) in
          (
            ground (arith, old),
            λ c at.
                (let ne_x : y ≢ x = λ k. ground (arith, k, old, absent) in
                  let (b, l) = sound.locks y old in
                  let (c', at', same) = refer-IsSame m.by_name (walk_to_root x) y b l.at in
                  let one : c' ≡ c =
                    some-injective c' c
                      (sym at' ∙ ground (arith, at, ne_x, lookup-insert y x n referred)) in
                  ap (λ (q : Node). q.token) (sym one) ∙ same.token ∙ tok b l.at),
          )
    ]

    added-rest :
        (y : Bytes) (c : Node)
        → lookup y (insert x n referred) ≡ some c
        → contains (x ∷ ls) y ≡ false
        → IsUnlocked c
    unfolding contains
    added-rest y c at h =
        let ne : y ≢ x = λ e. ground (arith, h, e, beq_refl x) in
        elim (refer-new m.by_name (walk_to_root x) y c
          (ground (arith, at, ne, lookup-insert y x n referred))) [
            | inl u ↦ u
            | inr (b, at_b, same) ↦
                let f : IsUnlocked b = sound.rest y b at_b (ground (arith, h)) in
                record {
                  token = same.token ∙ f.token;
                  queued = same.queued ∙ f.queued;
                  held = same.held ∙ f.held;
                }
          ]

    pub added-IsSound : IsSound added (x ∷ ls)
    unfolding contains
    added-IsSound = record {
      referred = λ k i found.
          let old : AllReferred referred =
            refer-AllReferred m.by_name (walk_to_root x) sound.referred in
          let positive : 0 < n.ref_count =
            omega (arith, count, refs-refer m.by_name (walk_to_root x) x, times-walk x) in
          ground (arith, found, positive, old k i, lookup-insert k x n referred);
      counts = λ k. ground (
        arith,
        sound.counts k,
        count,
        lookup-insert k x n referred,
        refs-refer m.by_name (walk_to_root x) k,
        beq→eq k x,
      );
      nodup = nodup;
      unique = (absent, sound.unique);
      locks = added-lock;
      heap = λ y h. ground (arith, left y, h, sound.heap y);
      tokens = added-tokens;
      rest = added-rest;
    }
