-- ===== src/Path/Clean.antt =====
-- slashClean of webdav/file.go and awsfs/fs.go against path.Clean.
use mathlib.Core.List.{reverse, reverse_aux, tail, reverse-reverse}
use mathlib.Core.Logic.{if_pos, if_neg}
use webdav_serverless.Base.{
  ℕ, List, [], ◌∷◌, ◌++◌, append-nil, Bool-cases, inl, inr, ◌==◌, Bytes, codes, ◌≡◌, ◌≢◌, refl, ap,
  sym, subst, ◌∙◌, All, arith, bytes_eq,
}
use webdav_serverless.Path.{
  slash, root, prepend, split, clean_step, clean_all, slashes, rooted, path_clean, clean, add_slash,
  slash_clean, IsElement, IsClean,
}

abbrev pub NoSlash : Bytes → Type 0
NoSlash = All (λ c. c ≢ slash)

split-word : (w : Bytes) → NoSlash w → split w ≡ w ∷ []
unfolding split
split-word [] h = refl
split-word (c ∷ w) (n, h) = ground (arith, split-word w h)

pub split-append : (w s : Bytes) → NoSlash w → split (w ++ slash ∷ s) ≡ w ∷ split s
unfolding split
split-append [] s h = refl
split-append (c ∷ w) s (n, h) = ground (arith, split-append w s h)

pub split-slashes :
    (w : Bytes) (ws : List Bytes) → NoSlash w → All IsElement ws → split (w ++ slashes ws) ≡ w ∷ ws
unfolding slashes
split-slashes w [] h k = rw append-nil (split-word w h)
split-slashes w (v ∷ ws) h (e, k) =
    split-append w (v ++ slashes ws) h ∙ ap (λ l. w ∷ l) (split-slashes v ws e.no_slash k)

clean_step-element : (done : List Bytes) (w : Bytes) → IsElement w → clean_step done w ≡ w ∷ done
unfolding clean_step
clean_step-element done w e = ground (arith, e.not_empty, e.not_dot, e.not_dots)

pub clean_all-elements :
    (done ws : List Bytes) → All IsElement ws → clean_all done ws ≡ reverse_aux ws done
unfolding clean_all
clean_all-elements done [] h = refl
clean_all-elements done (w ∷ ws) (e, h) =
    ap (λ d. clean_all d ws) (clean_step-element done w e) ∙ clean_all-elements (w ∷ done) ws h

pub path_clean-rooted : (ws : List Bytes) → All IsElement ws → path_clean (rooted ws) ≡ rooted ws
unfolding path_clean
path_clean-rooted [] h = refl
path_clean-rooted (w ∷ ws) h =
    ap (λ l. rooted (reverse (clean_all [] l))) (split-slashes [] (w ∷ ws) tt h)
    ∙ ap (λ l. rooted (reverse l)) (clean_all-elements [] (w ∷ ws) h)
    ∙ ap rooted (reverse-reverse (w ∷ ws))

prepend-NoSlash :
    (c : ℕ) (ws : List Bytes) → c ≢ slash → All NoSlash ws → All NoSlash (prepend c ws)
prepend-NoSlash c [] n h = ((n, tt), tt)
prepend-NoSlash c (w ∷ ws) n (k, h) = ((n, k), h)

split-NoSlash : (s : Bytes) → All NoSlash (split s)
unfolding split
split-NoSlash [] = (tt, tt)
split-NoSlash (c ∷ s) = elim (Bool-cases (c == slash)) [
  | inl e ↦ rw e (tt, split-NoSlash s)
  | inr e ↦ rw e (prepend-NoSlash c (split s) (ground arith) (split-NoSlash s))
]

tail-elements : (ws : List Bytes) → All IsElement ws → All IsElement (tail ws)
tail-elements [] h = tt
tail-elements (w ∷ ws) (e, h) = h

clean_step-elements :
    (done : List Bytes) (w : Bytes)
    → All IsElement done
    → NoSlash w
    → All IsElement (clean_step done w)
unfolding clean_step
clean_step-elements done w h n = elim (bytes_eq.dec w []) [
  | yes e ↦ rw (if_pos _ e) h
  | no e ↦ rw (if_neg _ e) (elim (bytes_eq.dec w (codes ".")) [
    | yes d ↦ rw (if_pos _ d) h
    | no d ↦ rw (if_neg _ d) (elim (bytes_eq.dec w (codes "..")) [
      | yes dd ↦ rw (if_pos _ dd) (tail-elements done h)
      | no dd ↦
          rw (if_neg _ dd) (record { not_empty = e; not_dot = d; not_dots = dd; no_slash = n }, h)
    ])
  ])
]

All-reverse_aux :
    (ws done : List Bytes)
    → All IsElement ws
    → All IsElement done
    → All IsElement (reverse_aux ws done)
All-reverse_aux [] done h k = k
All-reverse_aux (w ∷ ws) done (e, h) k = All-reverse_aux ws (w ∷ done) h (e, k)

clean_all-IsElement :
    (done ws : List Bytes) → All IsElement done → All NoSlash ws → All IsElement (clean_all done ws)
unfolding clean_all
clean_all-IsElement done [] h k = h
clean_all-IsElement done (w ∷ ws) h (n, k) =
    clean_all-IsElement (clean_step done w) ws (clean_step-elements done w h n) k

-- The elements that path.Clean leaves of a rooted path.
pub root-IsClean : IsClean root
unfolding IsClean rooted
root-IsClean = ([], tt, refl)

pub path_clean-IsClean : (s : Bytes) → IsClean (path_clean s)
unfolding path_clean IsClean
path_clean-IsClean s = (
  reverse (clean_all [] (split s)),
  All-reverse_aux _ [] (clean_all-IsElement [] (split s) tt (split-NoSlash s)) tt,
  refl,
)

-- slashClean gives path.Clean a path that begins with a slash.
slash_clean-path_clean : (name : Bytes) → slash_clean name ≡ path_clean (add_slash name)
unfolding slash_clean clean add_slash
slash_clean-path_clean [] = refl
slash_clean-path_clean (c ∷ s) = elim (Bool-cases (c == slash)) [
  | inl e ↦ rw (e, e) refl
  | inr e ↦ rw e refl
]

pub slash_clean-IsClean : (name : Bytes) → IsClean (slash_clean name)
slash_clean-IsClean name =
    subst IsClean (sym (slash_clean-path_clean name)) (path_clean-IsClean (add_slash name))

slash_clean-clean : (name : Bytes) → slash_clean name ≡ clean (slash ∷ name)
unfolding slash_clean clean add_slash
slash_clean-clean [] = refl
slash_clean-clean (c ∷ s) = elim (Bool-cases (c == slash)) [
  | inl e ↦
      let is : c ≡ slash = ground arith in
      subst (λ c. slash_clean (c ∷ s) ≡ clean (slash ∷ c ∷ s)) (sym is) refl
  | inr e ↦ ground (arith, e)
]

add_slash-rooted : (ws : List Bytes) → add_slash (rooted ws) ≡ rooted ws
unfolding add_slash rooted
add_slash-rooted [] = refl
add_slash-rooted (w ∷ ws) = refl

slash_clean-rooted : (ws : List Bytes) → All IsElement ws → slash_clean (rooted ws) ≡ rooted ws
slash_clean-rooted ws h =
    slash_clean-path_clean (rooted ws)
    ∙ ap path_clean (add_slash-rooted ws)
    ∙ path_clean-rooted ws h

pub slash_clean-IsClean_self : (p : Bytes) → IsClean p → slash_clean p ≡ p
unfolding IsClean
slash_clean-IsClean_self p (ws, h, e) = rw e (slash_clean-rooted ws h)

-- slashClean of a name is path.Clean of a slash and the name, whether the name begins with a slash or
-- not. The result is a rooted path of elements that are not empty, ".", ".." or with a slash in them,
-- and slashClean leaves its own results as they are.
pub slash_clean_lem :
    (name : Bytes)
    → (slash_clean name ≡ clean (slash ∷ name))
      × IsClean (slash_clean name)
      × (slash_clean (slash_clean name) ≡ slash_clean name)
slash_clean_lem name = (
  slash_clean-clean name,
  slash_clean-IsClean name,
  slash_clean-IsClean_self _ (slash_clean-IsClean name),
)

pub rooted-ne-nil : (ws : List Bytes) → rooted ws ≢ []
unfolding rooted
rooted-ne-nil [] e = cc
rooted-ne-nil (w ∷ ws) e = cc

pub slash_clean-ne-nil : (name : Bytes) → slash_clean name ≢ []
unfolding path_clean
slash_clean-ne-nil name e = rooted-ne-nil _ (sym (slash_clean-path_clean name) ∙ e)
