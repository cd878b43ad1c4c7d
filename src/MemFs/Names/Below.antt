-- ===== src/MemFs/Names/Below.antt =====
-- webdav/file.go: the prefix test of Rename, against the paths.
use mathlib.Core.List.{reverse, reverse-reverse, reverse-append, reverse-cons}
use webdav_serverless.Base.{
  ℕ, true, false, some, Bool-cases, List, [], ◌∷◌, ◌++◌, Bytes, ◌≡◌, inl, inr, refl, All, sym, ap,
  ◌∙◌, beq→eq, bytes_eq, has_prefix, has_prefix-append, append_assoc,
}
use webdav_serverless.Errors.{ok}
use webdav_serverless.Path.{slash, split, slash_clean, slashes, rooted, IsElement, IsClean}
use webdav_serverless.Path.Clean.{split-slashes, slash_clean-IsClean}
use webdav_serverless.MemFs.{MemFs, find_from, find, without_slash}
use webdav_serverless.MemFs.Paths.{path_eq, is_under}
use webdav_serverless.MemFs.Names.{path_of}

-- A name that find comes to, with its elements.
pub record IsNamed (name : Bytes) : Type 0 where
  pub elements : List Bytes
  pub clean : slash_clean name ≡ slashes elements
  pub path : path_of name ≡ reverse elements

named-elements :
    (fs : MemFs) (name : Bytes) (p : ℕ × Bytes) (ws : List Bytes)
    → All IsElement ws
    → slash_clean name ≡ rooted ws
    → find fs name ≡ ok (some p)
    → IsNamed name
unfolding rooted find find_from split path_of
named-elements fs name p [] h e k =
    let z : find_from fs 0 (split (without_slash (rooted []))) ≡ ok (some p) = rw e at k in cc
named-elements fs name p (w ∷ ws) h e k = record {
  elements = w ∷ ws;
  clean = e;
  path =
      ap (λ l. reverse (split (without_slash l))) e
      ∙ ap reverse (split-slashes w ws h.0.no_slash h.1);
}

pub find-IsNamed :
    (fs : MemFs) (name : Bytes) (p : ℕ × Bytes) → find fs name ≡ ok (some p) → IsNamed name
unfolding IsClean
find-IsNamed fs name p h =
    let (ws, k, e) = slash_clean-IsClean name in named-elements fs name p ws k e h

is_under-append : (p q : List Bytes) → is_under p q ≡ true → (r : List Bytes) × (q ≡ r ++ p)
unfolding is_under
is_under-append p [] h = ([], beq→eq [] p h)
is_under-append p (m ∷ q) h = elim (Bool-cases (is_under p q)) [
  | inl z ↦ let (r, e) = is_under-append p q z in (m ∷ r, ap (λ l. m ∷ l) e)
  | inr z ↦ ([], beq→eq (m ∷ q) p (rw z at h))
]

slashes-append : (xs ys : List Bytes) → slashes (xs ++ ys) ≡ slashes xs ++ slashes ys
unfolding slashes
slashes-append [] ys = refl
slashes-append (x ∷ xs) ys =
    ap (λ l. slash ∷ x ++ l) (slashes-append xs ys)
    ∙ ap (λ l. slash ∷ l) (sym (append_assoc x (slashes xs) (slashes ys)))

slashes-slash : (xs : List Bytes) (g : Bytes) → (s : Bytes) × (slashes (xs ++ g ∷ []) ≡ slash ∷ s)
unfolding slashes
slashes-slash [] g = (g ++ [], refl)
slashes-slash (x ∷ xs) g = (x ++ slashes (xs ++ g ∷ []), refl)

elements-append :
    (ws vs r : List Bytes) (g : Bytes)
    → reverse vs ≡ (g ∷ r) ++ reverse ws
    → vs ≡ ws ++ (reverse r ++ g ∷ [])
elements-append ws vs r g h =
    sym (reverse-reverse vs)
    ∙ ap reverse h
    ∙ reverse-append (g ∷ r) (reverse ws)
    ∙ rw (reverse-reverse ws, reverse-cons g r) refl

-- Where the text of the new name does not begin with that of the old one and a slash, the new path is
-- not below the old one.
pub no_prefix-away :
    (old new : Bytes) (src dst : List Bytes) (g n : Bytes)
    → IsNamed old
    → IsNamed new
    → path_of old ≡ n ∷ src
    → path_of new ≡ g ∷ dst
    → has_prefix (slash_clean new) (slash_clean old ++ slash ∷ []) ≡ false
    → is_under (n ∷ src) dst ≡ false
no_prefix-away old new src dst g n o w p q h = elim (Bool-cases (is_under (n ∷ src) dst)) [
  | inr z ↦ z
  | inl z ↦
      let (r, e) = is_under-append (n ∷ src) dst z in
      let f : w.elements ≡ o.elements ++ (reverse r ++ g ∷ []) =
        elements-append o.elements w.elements r g
          (sym w.path ∙ q ∙ ap (λ l. g ∷ l) (e ∙ ap (λ l. r ++ l) (sym p ∙ o.path))) in
      let (s, k) = slashes-slash (reverse r) g in
      let l : slash_clean new ≡ (slash_clean old ++ slash ∷ []) ++ s =
        w.clean
        ∙ ap slashes f
        ∙ slashes-append o.elements (reverse r ++ g ∷ [])
        ∙ ap (λ l. slashes o.elements ++ l) k
        ∙ sym (append_assoc (slashes o.elements) (slash ∷ []) s)
        ∙ ap (λ l. (l ++ slash ∷ []) ++ s) (sym o.clean) in
      let m : true ≡ false =
        sym (has_prefix-append (slash_clean old ++ slash ∷ []) s)
        ∙ ap (λ t. has_prefix t (slash_clean old ++ slash ∷ [])) (sym l)
        ∙ h in
      cc
]
