-- ===== src/Lock/Ops/Sound/Unlisted.antt =====
-- The heap of memLS without a name (webdav/lock.go).
use webdav_serverless.Base.{
  true, false, List, [], ◌∷◌, ◌≡◌, ◌≢◌, sym, subst, Bytes, bytes_eq, beq, beq→eq, if◌then◌else◌,
  arith, contains, Bool-cases, inl, inr,
}
use webdav_serverless.Lock.{unlist}
use webdav_serverless.Lock.Ops.Sound.{IsNodup}

pub contains-unlist_rev :
    (x y : Bytes) (xs : List Bytes) → contains (unlist x xs) y ≡ true → contains xs y ≡ true
unfolding unlist contains
contains-unlist_rev x y [] h = h
contains-unlist_rev x y (z ∷ xs) h = ground (arith, contains-unlist_rev x y xs)

pub unlist-ne :
    (x y : Bytes) (xs : List Bytes) → IsNodup xs → contains (unlist x xs) y ≡ true → y ≢ x
unfolding unlist contains
unlist-ne x y [] u h e = cc
unlist-ne x y (z ∷ xs) (fresh, u) h e = ground (arith, unlist-ne x y xs u, beq→eq z x)

pub IsNodup-unlist : (x : Bytes) (xs : List Bytes) → IsNodup xs → IsNodup (unlist x xs)
unfolding unlist
IsNodup-unlist x [] u = tt
IsNodup-unlist x (z ∷ xs) (fresh, u) = elim (Bool-cases (beq z x)) [
  | inl p ↦ subst (λ b. IsNodup (if b then xs else z ∷ unlist x xs)) (sym p) u
  | inr p ↦
      subst (λ b. IsNodup (if b then xs else z ∷ unlist x xs)) (sym p)
        (ground (arith, fresh, contains-unlist_rev x z xs), IsNodup-unlist x xs u)
]

pub contains-unlist_eq :
    (x y : Bytes) (xs : List Bytes)
    → IsNodup xs
    → contains (unlist x xs) y ≡ (if beq y x then false else contains xs y)
unfolding unlist contains
contains-unlist_eq x y [] u = ground arith
contains-unlist_eq x y (z ∷ xs) (fresh, u) =
    ground (arith, contains-unlist_eq x y xs u, fresh, beq→eq z x, beq→eq y x, beq→eq y z)
