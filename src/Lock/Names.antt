-- ===== src/Lock/Names.antt =====
-- The names that walkToRoot gives (webdav/lock.go).
use mathlib.Core.List.{reverse, reverse-reverse}
use webdav_serverless.Base.{
  ℕ, zero, suc, ◌<◌, ◌≤◌, inl, inr, List, [], ◌∷◌, ◌++◌, ◌≡◌, ◌≢◌, refl, sym, ap, ◌∙◌, Bytes,
  bytes_eq, beq_refl, beq_ne, map, length, arith, All, length-append, if◌then◌else◌,
}
use webdav_serverless.Path.{root, slash, slashes, rooted, until_slash, IsElement}
use webdav_serverless.Path.Clean.{NoSlash}
use webdav_serverless.Path.Parent.{last_of, rooted-eq-slashes, until_slash-slashes}
use webdav_serverless.Lock.{root_or, without_slash, up, walk, walk_to_root}

root_or-slashes : (ws : List Bytes) → root_or (slashes ws) ≡ rooted ws
unfolding slashes rooted
root_or-slashes [] = refl
root_or-slashes (w ∷ ws) = refl

up-rooted : (ws : List Bytes) (w : Bytes) → NoSlash w → up (rooted (ws ++ w ∷ [])) ≡ rooted ws
unfolding up
up-rooted ws w h =
    ap (λ p. root_or (reverse (without_slash (until_slash [] (reverse p)).1)))
      (rooted-eq-slashes ws w)
    ∙ ap (λ (u : Bytes × Bytes). root_or (reverse (without_slash u.1)))
        (until_slash-slashes (slashes ws) w h)
    ∙ ap root_or (reverse-reverse (slashes ws))
    ∙ root_or-slashes ws

-- The lists that a list begins with, the longest one first.
unfoldable pub prefixes : List Bytes → List (List Bytes)
prefixes [] = [] ∷ []
prefixes (w ∷ ws) = map (λ vs. w ∷ vs) (prefixes ws) ++ [] ∷ []

prefixes-append :
    (vs : List Bytes) (w : Bytes) → prefixes (vs ++ w ∷ []) ≡ (vs ++ w ∷ []) ∷ prefixes vs
unfolding prefixes
prefixes-append [] w = refl
prefixes-append (v ∷ vs) w = ap (λ l. map (λ vs. v ∷ vs) l ++ [] ∷ []) (prefixes-append vs w)

rooted-ne-root : (vs : List Bytes) (w : Bytes) → IsElement w → rooted (vs ++ w ∷ []) ≢ root
rooted-ne-root vs [] e p = absurd (e.not_empty refl)
rooted-ne-root vs (c ∷ w) e p = absurd (
    omega (
      arith,
      ap length (sym (rooted-eq-slashes vs (c ∷ w)) ∙ p),
      length-append {0} (slashes vs) (slash ∷ c ∷ w),
    ))

walk-rooted :
    (fuel : ℕ) (ws : List Bytes)
    → All IsElement ws
    → length ws < fuel
    → walk fuel (rooted ws) ≡ map rooted (prefixes ws)
unfolding walk prefixes rooted
walk-rooted zero ws h l = elim l [ ]
walk-rooted (suc fuel) ws h l = elim (last_of ws h) [
  | inl z ↦ rw z (ground (arith, beq_refl root))
  | inr (vs, w, z, g, e) ↦
      let name : Bytes = rooted (vs ++ w ∷ []) in
      let shorter : length vs < fuel =
        omega (arith, l, ap length z, length-append {0} vs (w ∷ [])) in
      ap (λ l. walk (suc fuel) (rooted l)) z
      ∙ ap (λ b. if b then name ∷ [] else name ∷ walk fuel (up name))
          (beq_ne name root (rooted-ne-root vs w e))
      ∙ ap (λ p. name ∷ walk fuel p) (up-rooted vs w e.no_slash)
      ∙ ap (λ l. name ∷ l) (walk-rooted fuel vs g shorter)
      ∙ ap (map rooted) (sym (prefixes-append vs w) ∙ ap prefixes (sym z))
]

length-slashes : (ws : List Bytes) → length ws ≤ length (slashes ws)
unfolding slashes
length-slashes [] = omega arith
length-slashes (w ∷ ws) = omega (arith, length-append {0} w (slashes ws), length-slashes ws)

length-rooted : (ws : List Bytes) → length ws ≤ length (rooted ws)
unfolding rooted
length-rooted [] = omega arith
length-rooted (w ∷ ws) = length-slashes (w ∷ ws)

-- walkToRoot on the path of some elements gives the paths of the first elements, with all of them
-- first, then one less each time, down to the root, which is the last one. It ends on each of them.
pub walk_to_root-rooted :
    (ws : List Bytes) → All IsElement ws → walk_to_root (rooted ws) ≡ map rooted (prefixes ws)
unfolding walk_to_root
walk_to_root-rooted ws h =
    walk-rooted (suc (length (rooted ws))) ws h (omega (arith, length-rooted ws))
