-- ===== src/Path/Parent.antt =====
-- filepath.Dir and filepath.Base on clean paths.
use mathlib.Core.List.{reverse, reverse_aux, reverse-reverse, reverse-append, reverse-cons}
use webdav_serverless.Base.{
  ◌⊎◌, inl, inr, List, [], ◌∷◌, ◌++◌, append-nil, append_assoc, if◌then◌else◌, Bytes, ◌≡◌, ◌≢◌,
  refl, ap, ◌∙◌, sym, All, arith, beq, beq_refl, beq_ne, bytes_eq,
}
use webdav_serverless.Path.{
  slash, root, split, clean_step, clean_all, slashes, rooted, path_clean, until_slash, base_or_root,
  filepath_dir, filepath_base, IsElement, IsClean,
}
use webdav_serverless.Path.Clean.{NoSlash, split-append, clean_all-elements}

slashes-append : (vs ws : List Bytes) → slashes (vs ++ ws) ≡ slashes vs ++ slashes ws
unfolding slashes
slashes-append [] ws = refl
slashes-append (v ∷ vs) ws =
    ap (λ s. slash ∷ v ++ s) (slashes-append vs ws)
    ∙ sym (append_assoc (slash ∷ v) (slashes vs) (slashes ws))

pub rooted-eq-slashes :
    (ws : List Bytes) (w : Bytes) → rooted (ws ++ w ∷ []) ≡ slashes ws ++ slash ∷ w
unfolding rooted
rooted-eq-slashes [] w = ap (λ s. slash ∷ s) (append-nil w)
rooted-eq-slashes (v ∷ ws) w =
    slashes-append (v ∷ ws) (w ∷ []) ∙ ap (λ s. slashes (v ∷ ws) ++ slash ∷ s) (append-nil w)

until_slash-append :
    (b u v : Bytes) → NoSlash u → until_slash b (u ++ slash ∷ v) ≡ (reverse_aux u b, slash ∷ v)
unfolding until_slash
until_slash-append b [] v h = refl
until_slash-append b (c ∷ u) v (n, h) = ground (arith, until_slash-append (c ∷ b) u v h)

NoSlash-reverse_aux : (s b : Bytes) → NoSlash s → NoSlash b → NoSlash (reverse_aux s b)
NoSlash-reverse_aux [] b h k = k
NoSlash-reverse_aux (c ∷ s) b (n, h) k = NoSlash-reverse_aux s (c ∷ b) h (n, k)

-- The text after the last slash, and what is before it, turned round.
pub until_slash-slashes :
    (x w : Bytes) → NoSlash w → until_slash [] (reverse (x ++ slash ∷ w)) ≡ (w, slash ∷ reverse x)
until_slash-slashes x w h =
    let turned : reverse (x ++ slash ∷ w) ≡ reverse w ++ slash ∷ reverse x =
      reverse-append x (slash ∷ w)
      ∙ ap (λ s. s ++ reverse x) (reverse-cons slash w)
      ∙ append_assoc (reverse w) (slash ∷ []) (reverse x) in
    rw turned (
      until_slash-append [] (reverse w) (reverse x) (NoSlash-reverse_aux w [] h tt)
      ∙ ap (λ (u : Bytes). (u, slash ∷ reverse x)) (reverse-reverse w))

split-slashes_then :
    (w : Bytes) (ws : List Bytes) (s : Bytes)
    → NoSlash w
    → All IsElement ws
    → split (w ++ (slashes ws ++ slash ∷ s)) ≡ w ∷ ws ++ split s
unfolding slashes
split-slashes_then w [] s h k = split-append w s h
split-slashes_then w (v ∷ ws) s h (e, k) =
    ap (λ t. split (w ++ (slash ∷ t))) (append_assoc v (slashes ws) (slash ∷ s))
    ∙ split-append w (v ++ (slashes ws ++ slash ∷ s)) h
    ∙ ap (λ l. w ∷ l) (split-slashes_then v ws s e.no_slash k)

clean_all-append :
    (done vs ws : List Bytes) → clean_all done (vs ++ ws) ≡ clean_all (clean_all done vs) ws
unfolding clean_all
clean_all-append done [] ws = refl
clean_all-append done (v ∷ vs) ws = clean_all-append (clean_step done v) vs ws

path_clean-slash :
    (ws : List Bytes) → All IsElement ws → path_clean (slashes ws ++ slash ∷ []) ≡ rooted ws
unfolding path_clean
path_clean-slash ws h =
    ap (λ l. rooted (reverse (clean_all [] l))) (split-slashes_then [] ws [] tt h)
    ∙ ap (λ d. rooted (reverse d)) (clean_all-append [] ws ([] ∷ []))
    ∙ ap (λ d. rooted (reverse d)) (clean_all-elements [] ws h)
    ∙ ap rooted (reverse-reverse ws)

filepath_dir-rooted :
    (ws : List Bytes) (w : Bytes)
    → All IsElement ws
    → IsElement w
    → filepath_dir (rooted (ws ++ w ∷ [])) ≡ rooted ws
unfolding filepath_dir
filepath_dir-rooted ws w h e =
    ap (λ p. path_clean (reverse (until_slash [] (reverse p)).1)) (rooted-eq-slashes ws w)
    ∙ ap (λ (u : Bytes × Bytes). path_clean (reverse u.1))
        (until_slash-slashes (slashes ws) w e.no_slash)
    ∙ ap path_clean (
        reverse-cons slash (reverse (slashes ws))
        ∙ ap (λ s. s ++ slash ∷ []) (reverse-reverse (slashes ws)))
    ∙ path_clean-slash ws h

base_or_root-ne : (w : Bytes) → w ≢ [] → base_or_root w ≡ w
base_or_root-ne [] h = absurd (h refl)
base_or_root-ne (c ∷ w) h = refl

filepath_base-rooted :
    (ws : List Bytes) (w : Bytes) → IsElement w → filepath_base (rooted (ws ++ w ∷ [])) ≡ w
unfolding filepath_base
filepath_base-rooted ws w e =
    ap (λ p. base_or_root (until_slash [] (reverse p)).0) (rooted-eq-slashes ws w)
    ∙ ap (λ (u : Bytes × Bytes). base_or_root u.0) (until_slash-slashes (slashes ws) w e.no_slash)
    ∙ base_or_root-ne w e.not_empty

-- A list is empty, or has a last item.
pub last_of :
    (ws : List Bytes)
    → All IsElement ws
    → (ws ≡ [])
      ⊎ ((vs : List Bytes) × (w : Bytes) × (ws ≡ vs ++ w ∷ []) × All IsElement vs × IsElement w)
last_of [] h = inl refl
last_of (v ∷ ws) (e, h) = elim (last_of ws h) [
  | inl p ↦ inr ([], v, rw p, tt, e)
  | inr (vs, w, p, k, l) ↦ inr (v ∷ vs, w, rw p, (e, k), l)
]

-- The elements in front of the last slash.
slashes-eq :
    (ws : List Bytes)
    → All IsElement ws
    → slashes ws ≡ (if beq (rooted ws) root then [] else rooted ws)
unfolding rooted slashes
slashes-eq [] h = rw (beq_refl root)
slashes-eq ([] ∷ ws) (e, h) = absurd (e.not_empty refl)
slashes-eq ((c ∷ w) ∷ ws) (e, h) = rw (beq_ne (slash ∷ c ∷ w ++ slashes ws) root (λ q. cc))

-- A clean path that is not the root is its filepath.Dir, a slash and its filepath.Base, where the
-- root's own slash is not repeated. The directory is clean, and the base is a path element.
pub filepath_dir-filepath_base :
    (p : Bytes)
    → IsClean p
    → p ≢ root
    → IsClean (filepath_dir p)
      × IsElement (filepath_base p)
      × (p ≡ (if beq (filepath_dir p) root then [] else filepath_dir p) ++ slash ∷ filepath_base p)
unfolding IsClean rooted
filepath_dir-filepath_base p (ws, h, e) ne = elim (last_of ws h) [
  | inl z ↦ absurd (ne (e ∙ rw (z, rooted)))
  | inr (vs, w, z, k, l) ↦
      let whole : p ≡ rooted (vs ++ w ∷ []) = e ∙ ap rooted z in
      rw (whole, filepath_dir-rooted vs w k l, filepath_base-rooted vs w l)
        ((vs, k, refl), l, rooted-eq-slashes vs w ∙ ap (λ s. s ++ slash ∷ w) (slashes-eq vs k))
]
