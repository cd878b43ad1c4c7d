-- ===== src/Lock/Ops/Exclusive.antt =====
-- The nodes that a Confirm holds (webdav/lock.go).
use webdav_serverless.Base.{
  Option, none, some, List, ◌≡◌, inl, inr, sym, ◌∙◌, subst, Bytes, bytes_eq, beq, if◌then◌else◌,
  Bool-cases,
}
use webdav_serverless.IfHeader.{Condition}
use webdav_serverless.Lock.{LockResult, granted, refused, MemLs}
use webdav_serverless.Lock.Ops.{Release, not_twice}
use webdav_serverless.Lock.Ops.Confirm.{IsHeld, ConfirmPost}

not_twice-IsHeld : (n0 o : Option Bytes) (m : MemLs) → IsHeld m o → IsHeld m (not_twice n0 o)
not_twice-IsHeld none o m h = h
not_twice-IsHeld (some x) none m h = tt
not_twice-IsHeld (some x) (some y) m h = elim (Bool-cases (beq y x)) [
  | inl p ↦ subst (λ b. IsHeld m (if b then none else some y)) (sym p) tt
  | inr p ↦ subst (λ b. IsHeld m (if b then none else some y)) (sym p) h
]

pub granted-injective : (a b : Release) → granted a ≡ granted b → (a.0 ≡ b.0) × (a.1 ≡ b.1)
granted-injective a b h = (cc, cc)

pub granted-IsHeld :
    (name0 name1 : Bytes) (cs : List Condition) (m m' : MemLs) (r : LockResult Release)
    (n0 n1 : Option Bytes)
    → r ≡ granted (n0, n1)
    → ConfirmPost name0 name1 cs m r m'
    → IsHeld m' n0 × IsHeld m' n1
granted-IsHeld name0 name1 cs m m' (refused e) n0 n1 h post = cc
granted-IsHeld name0 name1 cs m m' (granted (k0, k1)) n0 n1 h (o, _, _, twice, held0, held1, _) =
    let (p, q) = (granted-injective (k0, k1) (n0, n1) h) in
    (subst (IsHeld m') p held0, subst (IsHeld m') (sym twice ∙ q) (not_twice-IsHeld k0 o m' held1))
