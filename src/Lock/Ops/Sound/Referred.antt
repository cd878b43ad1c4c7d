-- ===== src/Lock/Ops/Sound/Referred.antt =====
-- The nodes after the references of a new lock (webdav/lock.go).
use mathlib.Core.Option.{some-injective}
use webdav_serverless.Base.{
  ◌+◌, some, List, [], ◌∷◌, ◌≡◌, ◌⊎◌, refl, sym, ap, ◌∙◌, subst, Bytes, bytes_eq, bytes_dec,
  beq_refl, arith, Option-cases, inl, inr,
}
use webdav_serverless.Base.Dict.{Dict, lookup, insert, lookup-insert}
use webdav_serverless.Lock.{Node, refer, or_fresh}
use webdav_serverless.Lock.Ops.Sound.{IsUnlocked, IsSame, IsSame-refl, IsSame-trans}

-- A node after the references of a new lock is as it was, but for its count, or a fresh one.
pub refer-IsSame :
    (nodes : Dict Bytes Node) (ws : List Bytes) (k : Bytes) (n : Node)
    → lookup k nodes ≡ some n
    → (n' : Node) × (lookup k (refer nodes ws) ≡ some n') × IsSame n n'
unfolding refer
refer-IsSame nodes [] k n at = (n, at, IsSame-refl n)
refer-IsSame nodes (x ∷ ws) k n at =
    let r : Node = or_fresh x (lookup x nodes) in
    let up : Node = record r { ref_count = r.ref_count + 1 } in
    elim (bytes_dec k x) [
      | yes e ↦
          let is : n ≡ r = ap (or_fresh x) (sym at ∙ ap (λ z. lookup z nodes) e) in
          let (n', found, same) =
            refer-IsSame (insert x up nodes) ws k up
              (ground (arith, e, lookup-insert k x up nodes, beq_refl x)) in
          (
            n',
            found,
            IsSame-trans n up n'
                (subst (λ z. IsSame z up) (sym is)
                  (record {
                    details = refl;
                    token = refl;
                    queued = refl;
                    held = refl;
                    expiry = refl;
                  }))
                same,
          )
      | no ne ↦
          refer-IsSame (insert x up nodes) ws k n
            (ground (arith, ne, at, lookup-insert k x up nodes))
    ]

pub refer-new :
    (nodes : Dict Bytes Node) (ws : List Bytes) (k : Bytes) (n' : Node)
    → lookup k (refer nodes ws) ≡ some n'
    → IsUnlocked n' ⊎ ((n : Node) × (lookup k nodes ≡ some n) × IsSame n n')
unfolding refer
refer-new nodes [] k n' at = inr (n', at, IsSame-refl n')
refer-new nodes (x ∷ ws) k n' at =
    let r : Node = or_fresh x (lookup x nodes) in
    let up : Node = record r { ref_count = r.ref_count + 1 } in
    elim (refer-new (insert x up nodes) ws k n' at) [
      | inl u ↦ inl u
      | inr (n, found, same) ↦ elim (bytes_dec k x) [
        | yes e ↦
            let is : up ≡ n =
              some-injective up n
                (sym (ground (arith, e, lookup-insert k x up nodes, beq_refl x)) ∙ found) in
            elim (Option-cases (lookup x nodes)) [
              | inl p ↦ inl (record {
                token =
                    same.token
                    ∙ ap (λ (q : Node). q.token) (sym is)
                    ∙ ap (λ o. (or_fresh x o).token) p;
                queued =
                    same.queued
                    ∙ ap (λ (q : Node). q.queued) (sym is)
                    ∙ ap (λ o. (or_fresh x o).queued) p;
                held =
                    same.held
                    ∙ ap (λ (q : Node). q.held) (sym is)
                    ∙ ap (λ o. (or_fresh x o).held) p;
              })
              | inr (o, p) ↦ inr (
                o,
                ap (λ z. lookup z nodes) e ∙ p,
                IsSame-trans o n n'
                    (subst (IsSame o) is (record {
                      details = ap (λ o. (or_fresh x o).details) p;
                      token = ap (λ o. (or_fresh x o).token) p;
                      queued = ap (λ o. (or_fresh x o).queued) p;
                      held = ap (λ o. (or_fresh x o).held) p;
                      expiry = ap (λ o. (or_fresh x o).expiry) p;
                    }))
                    same,
              )
            ]
        | no ne ↦ inr (n, ground (arith, ne, found, lookup-insert k x up nodes), same)
      ]
    ]
