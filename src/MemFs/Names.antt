-- ===== src/MemFs/Names.antt =====
-- webdav/file.go: the paths that memFS takes names for, and where find comes to.
pub mod Below
use mathlib.Core.List.{reverse, reverse_aux, reverse-reverse, reverse-append}
use webdav_serverless.Base.{
  ℕ, zero, suc, ◌+◌, Bool, true, false, ◌||◌, Option, none, some, Option-cases, Bool-cases, List,
  [], ◌∷◌, ◌++◌, Bytes, ◌≡◌, ◌≢◌, ◌⊎◌, inl, inr, refl, All, sym, ap, ◌∙◌, arith, if◌then◌else◌, beq,
  beq→eq, Eq, bytes_eq, has_prefix, has_prefix-append, append_assoc,
}
use webdav_serverless.Errors.{path_error, not_exist, invalid, Result, ok, err}
use webdav_serverless.Path.{slash, split, slash_clean, slashes, rooted, IsElement, IsClean}
use webdav_serverless.Path.Clean.{split-slashes, slash_clean-IsClean}
use webdav_serverless.MemFs.{
  MemFs, child, is_directory, find_from, find, go_down, last_fragment, without_slash,
}
use webdav_serverless.MemFs.Tree.{step, node_at}
use webdav_serverless.MemFs.Paths.{path_eq, is_under}

-- The elements of a name's clean path, the last one first.
unfoldable pub path_of : Bytes → List Bytes
path_of name = reverse (split (without_slash (slash_clean name)))

last-some : (a c : ℕ) (w g : Bytes) → ok (last_fragment a w) ≡ ok (some (c, g)) → (a ≡ c) × (w ≡ g)
last-some a c [] g h = cc
last-some a c (x ∷ w) g h = (cc, cc)

go_down-ok :
    (fs : MemFs) (f : ℕ → Result (Option (ℕ × Bytes))) (o : Option ℕ) (r : Option (ℕ × Bytes))
    → go_down fs f o ≡ ok r
    → (b : ℕ) × (o ≡ some b) × (f b ≡ ok r)
go_down-ok fs f none r h = cc
go_down-ok fs f (some b) r h = elim (Bool-cases (is_directory fs b)) [
  | inl z ↦ (b, refl, rw z at h)
  | inr z ↦ let k : err (path_error invalid) ≡ ok r = rw z at h in cc
]

-- Where find comes to a name in a directory, the path that it has gone leads to the directory.
find_from-node_at :
    (fs : MemFs) (a c : ℕ) (g : Bytes) (ws up : List Bytes)
    → node_at (child fs) up ≡ some a
    → find_from fs a ws ≡ ok (some (c, g))
    → (p : List Bytes) × (node_at (child fs) p ≡ some c) × (reverse_aux ws up ≡ g ∷ p)
unfolding find_from node_at
find_from-node_at fs a c g [] up e h = cc
find_from-node_at fs a c g (w ∷ []) up e h =
    let (x, y) = last-some a c w g h in (up, e ∙ ap some x, rw y refl)
find_from-node_at fs a c g (w ∷ v ∷ ws) up e h =
    let (b, z, k) = go_down-ok fs (λ b. find_from fs b (v ∷ ws)) (child fs a w) _ h in
    find_from-node_at fs b c g (v ∷ ws) (w ∷ up) (rw e z) k

pub find-node_at :
    (fs : MemFs) (name : Bytes) (c : ℕ) (g : Bytes)
    → find fs name ≡ ok (some (c, g))
    → (p : List Bytes) × (node_at (child fs) p ≡ some c) × (path_of name ≡ g ∷ p)
unfolding find path_of node_at
find-node_at fs name c g h =
    find_from-node_at fs 0 c g (split (without_slash (slash_clean name))) [] refl h
