-- ===== src/Requests/Accepted.antt =====
-- webdav/xml.go: which bodies of PROPFIND and LOCK requests are accepted.
use webdav_serverless.Base.{
  ℕ, ◌+◌, Bool, true, false, not, some, List, [], ◌∷◌, ◌≡◌, ◌↔◌, Bytes, bytes_eq, arith, beq,
  if◌then◌else◌,
}
use webdav_serverless.Answers.{proceed, answer}
use webdav_serverless.Property.{Name}
use webdav_serverless.Requests.{
  LockInfo, Propfind, Decoded, decoded, at_eof, malformed, read_propfind, read_lock_info,
  checked_propfind, is_nil, all_properties,
}

abbrev count : Bool → ℕ
count true = 1
count false = 0

-- One of the three kinds of PROPFIND is given, and an include element only with allprop.
abbrev pub IsPropfind : Propfind → Type 0
IsPropfind pf =
    (count pf.allprop + count pf.propname + count (not (is_nil pf.prop)) ≡ 1)
    × (pf.allprop ≡ false → pf.include ≡ [])

abbrev pf_of : Bool → Bool → List Name → List Name → Propfind
pf_of all names props include = record {
  allprop = all;
  propname = names;
  prop = props;
  include = include;
}

accepted_fields :
    (all names : Bool) (props include : List Name)
    → ((q : Propfind)
        → checked_propfind (pf_of all names props include) ≡ proceed q
        → IsPropfind (pf_of all names props include))
      × (IsPropfind (pf_of all names props include)
          → checked_propfind (pf_of all names props include)
            ≡ proceed (pf_of all names props include))
accepted_fields true true [] [] = (λ q e. ground arith, λ k. ground arith)
accepted_fields true true [] (c ∷ cs) = (λ q e. ground arith, λ k. ground arith)
accepted_fields true true (p ∷ ps) [] = (λ q e. ground arith, λ k. ground arith)
accepted_fields true true (p ∷ ps) (c ∷ cs) = (λ q e. ground arith, λ k. ground arith)
accepted_fields true false [] [] = (λ q e. ground arith, λ k. ground arith)
accepted_fields true false [] (c ∷ cs) = (λ q e. ground arith, λ k. ground arith)
accepted_fields true false (p ∷ ps) [] = (λ q e. ground arith, λ k. ground arith)
accepted_fields true false (p ∷ ps) (c ∷ cs) = (λ q e. ground arith, λ k. ground arith)
accepted_fields false true [] [] = (λ q e. ground arith, λ k. ground arith)
accepted_fields false true [] (c ∷ cs) = (λ q e. ground arith, λ k. ground arith)
accepted_fields false true (p ∷ ps) [] = (λ q e. ground arith, λ k. ground arith)
accepted_fields false true (p ∷ ps) (c ∷ cs) = (λ q e. ground arith, λ k. ground arith)
accepted_fields false false [] [] = (λ q e. ground arith, λ k. ground arith)
accepted_fields false false [] (c ∷ cs) = (λ q e. ground arith, λ k. ground arith)
accepted_fields false false (p ∷ ps) [] = (λ q e. ground arith, λ k. ground arith)
accepted_fields false false (p ∷ ps) (c ∷ cs) = (λ q e. ground arith, λ k. ground arith)

-- A propfind that is decoded from the body is accepted exactly when one of allprop, propname and prop
-- is given, and no include without allprop.
pub read_propfind-IsPropfind :
    (decode : Bytes → Decoded Propfind) (body : Bytes) (pf : Propfind)
    → decode body ≡ decoded pf
    → (read_propfind decode body ≡ proceed pf) ↔ IsPropfind pf
unfolding read_propfind
read_propfind-IsPropfind decode body pf e =
    let (found, kept) = accepted_fields pf.allprop pf.propname pf.prop pf.include in
    rw (e, read_propfind) (found pf, kept)

allprop_alone :
    (pf q : Propfind)
    → checked_propfind pf ≡ proceed q
    → q.allprop ≡ true
    → (q.prop ≡ []) × (q.propname ≡ false)
allprop_alone pf q e a = alone pf.allprop pf.propname pf.prop pf.include q e a
  where
    alone :
        (all names : Bool) (props include : List Name) (r : Propfind)
        → checked_propfind (pf_of all names props include) ≡ proceed r
        → r.allprop ≡ true
        → (r.prop ≡ []) × (r.propname ≡ false)
    alone true true [] include r f b = ground arith
    alone true false [] include r f b = ground arith
    alone true names (p ∷ ps) include r f b = ground arith
    alone false names props include r f b = ground arith

-- An accepted propfind with allprop has no prop element, and no propname.
pub read_propfind-allprop :
    (decode : Bytes → Decoded Propfind) (body : Bytes) (pf : Propfind)
    → read_propfind decode body ≡ proceed pf
    → pf.allprop ≡ true
    → (pf.prop ≡ []) × (pf.propname ≡ false)
unfolding read_propfind
read_propfind-allprop decode body pf e a = go (decode body) e
  where
    go :
        (d : Decoded Propfind)
        → (elim d [
          | at_eof ↦ if beq body [] then proceed all_properties else answer 400
          | malformed ↦ answer 400
          | decoded q ↦ checked_propfind q
        ])
          ≡ proceed pf
        → (pf.prop ≡ []) × (pf.propname ≡ false)
    go at_eof f = ground arith
    go malformed f = cc
    go (decoded q) f = allprop_alone q pf f a

-- Only a request for an exclusive write lock is accepted, or none at all, to refresh a lock, exactly
-- when the body is empty.
pub read_lock_info-accepts :
    (decode : Bytes → Decoded LockInfo) (body : Bytes) (li : LockInfo)
    → decode body ≡ decoded li
    → (read_lock_info decode body ≡ proceed (some li))
      ↔ ((li.exclusive ≡ true) × (li.shared ≡ false) × (li.write ≡ true))
unfolding read_lock_info
read_lock_info-accepts decode body li e =
    rw (e, read_lock_info) (λ k. ground arith, λ k. ground arith)
