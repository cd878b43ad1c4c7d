-- ===== src/Handler/Prefix.antt =====
-- webdav/webdav.go: what stripPrefix accepts.
use webdav_serverless.Base.{
  ◌+◌, false, [], ◌∷◌, ◌++◌, ◌≡◌, inl, inr, refl, Bytes, length, ◌↔◌, ap, ◌∙◌, trim_prefix,
  trim_prefix-append, has_prefix, append-of-has_prefix, Bool-cases, arith,
}
use webdav_serverless.Answers.{proceed}
use webdav_serverless.Handler.{strip_prefix}

length-suffix : (p r : Bytes) → length (p ++ r) ≡ length p + length r
length-suffix [] r = ground arith
length-suffix (c ∷ p) r = ground (arith, length-suffix p r)

strip_prefix-append : (prefix r : Bytes) → strip_prefix prefix (prefix ++ r) ≡ proceed r
unfolding strip_prefix
strip_prefix-append [] r = refl
strip_prefix-append (c ∷ p) r = rw (trim_prefix-append (c ∷ p) r) ground (arith, length-suffix p r)

trim_prefix-other : (p prefix : Bytes) → has_prefix p prefix ≡ false → trim_prefix p prefix ≡ p
unfolding trim_prefix
trim_prefix-other p prefix h = rw h refl

only_prefix : (prefix p r : Bytes) → strip_prefix prefix p ≡ proceed r → p ≡ prefix ++ r
unfolding strip_prefix
only_prefix [] p r h = cc
only_prefix (c ∷ prefix) p r h = elim (Bool-cases (has_prefix p (c ∷ prefix))) [
  | inl begins ↦
      let (x, e) = append-of-has_prefix p (c ∷ prefix) begins in
      let stripped = ap (strip_prefix (c ∷ prefix)) e ∙ strip_prefix-append (c ∷ prefix) x in
      let same : x ≡ r = cc in e ∙ ap (λ y. (c ∷ prefix) ++ y) same
  | inr other ↦ let kept = trim_prefix-other p (c ∷ prefix) other in ground arith
]

-- stripPrefix gives a rest exactly when the path is the prefix and that rest; every other path is
-- answered by an error.
pub strip_prefix-rest :
    (prefix p r : Bytes) → (strip_prefix prefix p ≡ proceed r) ↔ (p ≡ prefix ++ r)
strip_prefix-rest prefix p r =
    (only_prefix prefix p r, λ e. ap (strip_prefix prefix) e ∙ strip_prefix-append prefix r)
