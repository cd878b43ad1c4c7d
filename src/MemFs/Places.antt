-- ===== src/MemFs/Places.antt =====
-- webdav/file.go: the places that the methods of memFS come to by find, and the ways of Rename.
use webdav_serverless.Base.{
  ℕ, Bool, true, false, Option, none, some, List, [], ◌∷◌, ◌++◌, Bytes, ◌≡◌, refl, sym, subst, beq,
  beq→eq, bytes_eq, has_prefix,
}
use webdav_serverless.Errors.{Error, Result, ok, err, Effect, continue, Post, ◌>>=◌, invalid}
use webdav_serverless.Path.Clean.{slash_clean_lem}
use webdav_serverless.Path.{slash, split, slash_clean}
use webdav_serverless.MemFs.{
  MemFs, child, find_from, without_slash, find, finding, place, rename, move_node,
}
use webdav_serverless.MemFs.Tree.{node_at}
use webdav_serverless.MemFs.Paths.{is_under}
use webdav_serverless.MemFs.Names.{path_of, find-node_at}
use webdav_serverless.MemFs.Names.Below.{IsNamed, find-IsNamed, no_prefix-away}

abbrev pub nodes : MemFs → List Bytes → Option ℕ
nodes fs = node_at (child fs)

-- A place that a method comes to: the directory, its path and the name in it.
pub record IsPlace (fs : MemFs) (name : Bytes) (p : ℕ × Bytes) : Type 0 where
  pub up : List Bytes
  pub directory : nodes fs up ≡ some p.0
  pub path : path_of name ≡ p.1 ∷ up
  pub named : IsNamed name

module _ {κ} {B : Type 0} (Q : Result B → MemFs → Type κ) (name : Bytes)
    (f : ℕ × Bytes → Effect MemFs B) (fs : MemFs) (failed : (e : Error) → Q (err e) fs)
    (done : (p : ℕ × Bytes) → IsPlace fs name p → Post Q (f p fs)) where
  placed-found :
      (r : Result (Option (ℕ × Bytes)))
      → find fs name ≡ r
      → Post Q (continue r (λ found. place found >>= f) fs)
  placed-found (err e) h = failed e
  placed-found (ok none) h = failed invalid
  placed-found (ok (some (a, n))) h =
      let (up, d, p) = find-node_at fs name a n h in
      done (a, n)
        (record { up = up; directory = d; path = p; named = find-IsNamed fs name (a, n) h })

  pub placed : Post Q ((finding name >>= λ found. place found >>= f) fs)
  placed = placed-found (find fs name) refl

-- find cleans a name once more.
finding-clean : (name : Bytes) → finding (slash_clean name) ≡ finding name
unfolding find
finding-clean name =
    λ i fs. (find_from fs 0 (split (without_slash ((slash_clean_lem name).2 i))), fs)

abbrev moving :
    Effect MemFs (Option (ℕ × Bytes)) → Effect MemFs (Option (ℕ × Bytes)) → Effect MemFs (Unit {0})
moving source target =
    source >>= λ s. place s >>= λ from. target >>= λ t. place t >>= λ to. move_node from to

-- Rename fails where it is, does nothing between two names that are the same once they are clean, or
-- moves a node between two places, the new one not below the old one.
module _ {κ} (Q : Result (Unit {0}) → MemFs → Type κ) (old new : Bytes) (fs : MemFs)
    (failed : (e : Error) → Q (err e) fs) (same : slash_clean old ≡ slash_clean new → Q (ok tt) fs)
    (moves : (a c : ℕ) (n g : Bytes) (p : IsPlace fs old (a, n)) (q : IsPlace fs new (c, g))
      → is_under (n ∷ p.up) q.up ≡ false
      → Post Q (move_node (a, n) (c, g) fs)) where
  moving-cases :
      has_prefix (slash_clean new) (slash_clean old ++ slash ∷ []) ≡ false
      → Post Q (moving (finding old) (finding new) fs)
  moving-cases h = placed Q old _ fs failed (λ (a, n) p. placed Q new _ fs failed (λ (c, g) q.
      moves a c n g p q (no_prefix-away old new p.up q.up g n p.named q.named p.path q.path h)))

  rename_clean-cases :
      (b prefixed : Bool)
      → beq (slash_clean old) (slash_clean new) ≡ b
      → has_prefix (slash_clean new) (slash_clean old ++ slash ∷ []) ≡ prefixed
      → Post Q (rename old new fs)
  unfolding rename
  rename_clean-cases true prefixed e h = rw e (same (beq→eq _ _ e))
  rename_clean-cases false true e h = rw (e, h) (failed invalid)
  rename_clean-cases false false e h =
      rw (e, h)
        (subst (λ f. Post Q (moving f (finding (slash_clean new)) fs)) (sym (finding-clean old))
          (subst (λ f. Post Q (moving (finding old) f fs)) (sym (finding-clean new))
            (moving-cases h)))

  pub rename-cases : Post Q (rename old new fs)
  rename-cases = rename_clean-cases _ _ refl refl
