-- ===== src/Base/Text.antt =====
-- Go strings as lists of bytes, and the functions of package strings that the program calls.
use Prim.Native.Nat.{ℕ}
use Prim.Native.Char.{code}
use Prim.Native.String.{String}
use mathlib.Core.Path.{◌≡◌, refl, ap, sym, ◌∙◌}
use mathlib.Core.Bool.{Bool, true, false, ◌&&◌, ◌||◌}
use mathlib.Core.List.{List, [], ◌∷◌, ◌++◌, reverse, reverse-append, reverse-reverse}
use native.Mathlib.Omega.{arith}
use native.Mathlib.Decide.{ℕ_discrete}
use webdav_serverless.Base.Tests.{if◌then◌else◌, ◌==◌, leb, Eq}
use webdav_serverless.Base.Lists.{length, drop, drop-append}

abbrev pub Bytes : Type 0
Bytes = List ℕ

-- The bytes of an ASCII literal.
abbrev pub codes : String → Bytes
codes String.[] = []
codes (String.◌∷◌ c s) = code c ∷ codes s

unfoldable pub bytes_dec : Discrete Bytes
unfolding ℕ_discrete
bytes_dec = hlevel ℕ_discrete

-- Shut in proofs, where a split on `beq s t` gives the equation or its negation.
instance unfoldable pub bytes_eq : Eq Bytes
unfolding bytes_dec
bytes_eq = record { dec = bytes_dec }

-- strings.HasPrefix
unfoldable pub has_prefix : Bytes → Bytes → Bool
has_prefix s [] = true
has_prefix [] (p ∷ ps) = false
has_prefix (c ∷ s) (p ∷ ps) = c == p && has_prefix s ps

-- strings.TrimPrefix
unfoldable pub trim_prefix : Bytes → Bytes → Bytes
unfolding has_prefix
trim_prefix s p = if has_prefix s p then drop (length p) s else s

pub has_prefix-append : (p r : Bytes) → has_prefix (p ++ r) p ≡ true
unfolding has_prefix
has_prefix-append [] [] = refl
has_prefix-append [] (c ∷ r) = refl
has_prefix-append (c ∷ p) r = ground (arith, has_prefix-append p r)

pub append-of-has_prefix : (s p : Bytes) → has_prefix s p ≡ true → (r : Bytes) × (s ≡ p ++ r)
unfolding has_prefix
append-of-has_prefix [] [] h = ([], refl)
append-of-has_prefix (c ∷ s) [] h = (c ∷ s, refl)
append-of-has_prefix [] (p ∷ ps) h = cc
append-of-has_prefix (c ∷ s) (p ∷ ps) h =
    let (r, e) = append-of-has_prefix s ps (ground arith) in (r, ground arith)

pub trim_prefix-append : (p r : Bytes) → trim_prefix (p ++ r) p ≡ r
unfolding trim_prefix
trim_prefix-append p r = rw (has_prefix-append p r) (drop-append p r)

-- unicode.IsSpace on the ASCII range.
abbrev pub is_space : ℕ → Bool
is_space c = c == 32 || leb 9 c && leb c 13

pub trim_left : Bytes → Bytes
trim_left [] = []
trim_left (c ∷ s) = let rest = trim_left s in if is_space c then rest else c ∷ s

-- strings.TrimSpace
unfoldable pub trim_space : Bytes → Bytes
unfolding trim_left
trim_space s = reverse (trim_left (reverse (trim_left s)))

trim_left_black : (c : ℕ) (s : Bytes) → is_space c ≡ false → trim_left (c ∷ s) ≡ c ∷ s
unfolding trim_left
trim_left_black c s h = rw h

-- A text that begins and ends with no space is left as it is.
pub trim_space-ends :
    (c d : ℕ) (s : Bytes)
    → is_space c ≡ false
    → is_space d ≡ false
    → trim_space ((c ∷ s) ++ d ∷ []) ≡ (c ∷ s) ++ d ∷ []
unfolding trim_space
trim_space-ends c d s hc hd =
    let text : Bytes = (c ∷ s) ++ d ∷ [] in
    let turned : reverse text ≡ d ∷ reverse (c ∷ s) = reverse-append (c ∷ s) (d ∷ []) in
    ap (λ t. reverse (trim_left (reverse t))) (trim_left_black c (s ++ d ∷ []) hc)
    ∙ ap (λ t. reverse (trim_left t)) turned
    ∙ ap reverse (trim_left_black d (reverse (c ∷ s)) hd)
    ∙ ap reverse (sym turned)
    ∙ reverse-reverse text
