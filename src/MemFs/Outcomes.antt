-- ===== src/MemFs/Outcomes.antt =====
-- webdav/file.go: what Mkdir, RemoveAll and Rename of memFS make of the tree of paths.
use webdav_serverless.Base.{
  ℕ, false, Option, none, some, List, ◌∷◌, ◌++◌, Bytes, ◌≡◌, ◌≢◌, ◌⊎◌, inl, inr, refl, sym, ◌∙◌,
  arith, if◌then◌else◌, beq, bytes_eq,
}
use webdav_serverless.Errors.{Error, Result, ok, err, Post}
use webdav_serverless.Path.{slash_clean}
use webdav_serverless.MemFs.{
  MemFs, child, mkdir, mkdir_in, mkdir_at, remove_all, rename, directory_node, move_node,
  move_found, move_if,
}
use webdav_serverless.MemFs.Tree.{IsTree, node_at-cons}
use webdav_serverless.MemFs.Paths.{path_eq, is_under, node_at-grown, node_at-deleted}
use webdav_serverless.MemFs.Places.{nodes, IsPlace, placed, rename-cases}
use webdav_serverless.MemFs.Moved.{node_at-moved, node_at-new}
use webdav_serverless.MemFs.Names.{path_of}

pub Made : Bytes → ℕ → MemFs → Result (Unit {0}) → MemFs → Type 0
Made name perm fs (err e) u = u ≡ fs
Made name perm fs (ok _) u =
    ((q : List Bytes) → nodes u q ≡ (if beq q (path_of name) then some fs.next else nodes fs q))
    × (u.node fs.next ≡ directory_node perm fs.clock)
    × (nodes fs (path_of name) ≡ none)

mkdir-Made :
    (name : Bytes) (perm : ℕ) (fs : MemFs)
    → IsTree fs
    → Post (Made name perm fs) (mkdir name perm fs)
unfolding mkdir mkdir_at Made
mkdir-Made name perm fs t =
    placed (Made name perm fs) name (mkdir_at perm) fs (λ e. refl)
      (λ (a, n) p. go a n p (child fs a n) refl)
  where
    go :
        (a : ℕ) (n : Bytes)
        → IsPlace fs name (a, n)
        → (o : Option ℕ) → child fs a n ≡ o
        → Post (Made name perm fs) (mkdir_in perm a n o fs)
    go a n p (some b) h = refl
    go a n p none h = (
      λ q.
          rw p.path
            (node_at-grown fs t p.up a n p.directory (directory_node perm fs.clock) refl h q),
      ground arith,
      rw p.path (node_at-cons (child fs) n p.up a p.directory ∙ h),
    )

pub Removed : Bytes → MemFs → Result (Unit {0}) → MemFs → Type 0
Removed name fs (err e) u = u ≡ fs
Removed name fs (ok _) u =
    (q : List Bytes) → nodes u q ≡ (if is_under (path_of name) q then none else nodes fs q)

remove_all-Removed :
    (name : Bytes) (fs : MemFs) → IsTree fs → Post (Removed name fs) (remove_all name fs)
unfolding remove_all Removed
remove_all-Removed name fs t =
    placed (Removed name fs) name _ fs (λ e. refl)
      (λ (a, n) p q. rw p.path (node_at-deleted fs t p.up a n p.directory q))

pub Moved : Bytes → Bytes → MemFs → Result (Unit {0}) → MemFs → Type 0
Moved old new fs (err e) u = u ≡ fs
Moved old new fs (ok _) u =
    ((slash_clean old ≡ slash_clean new) × (u ≡ fs))
    ⊎ ((nodes fs (path_of old) ≢ none)
        × ((q : List Bytes) → nodes u (q ++ path_of new) ≡ nodes fs (q ++ path_of old))
        × ((q : List Bytes)
            → is_under (path_of new) q ≡ false
            → nodes u q ≡ (if is_under (path_of old) q then none else nodes fs q)))

move_if-Moved :
    (old new : Bytes) (fs : MemFs) (o : Option Error) (a b c : ℕ) (n g : Bytes)
    → IsTree fs
    → (p : IsPlace fs old (a, n)) → (q : IsPlace fs new (c, g)) → is_under (n ∷ p.up) q.up ≡ false
    → child fs a n ≡ some b
    → Post (Moved old new fs) (move_if o b (a, n) (c, g) fs)
unfolding Moved
move_if-Moved old new fs (some e) a b c n g t p q away k = refl
move_if-Moved old new fs none a b c n g t p q away k = inr (
  λ z.
      (let e : none ≡ some b =
          sym z ∙ rw p.path (node_at-cons (child fs) n p.up a p.directory ∙ k) in
        cc),
  λ r. rw (p.path, q.path) (node_at-new fs t p.up q.up a b c n g p.directory k q.directory away r),
  λ r.
      rw (p.path, q.path) (node_at-moved fs t p.up q.up a b c n g p.directory k q.directory away r),
)

move_found-Moved :
    (old new : Bytes) (fs : MemFs) (o : Option ℕ) (a c : ℕ) (n g : Bytes)
    → IsTree fs
    → (p : IsPlace fs old (a, n)) → (q : IsPlace fs new (c, g)) → is_under (n ∷ p.up) q.up ≡ false
    → child fs a n ≡ o
    → Post (Moved old new fs) (move_found o (a, n) (c, g) fs)
unfolding Moved
move_found-Moved old new fs none a c n g t p q away k = refl
move_found-Moved old new fs (some b) a c n g t p q away k =
    move_if-Moved old new fs _ a b c n g t p q away k

rename-Moved :
    (old new : Bytes) (fs : MemFs) → IsTree fs → Post (Moved old new fs) (rename old new fs)
unfolding Moved move_node
rename-Moved old new fs t =
    rename-cases (Moved old new fs) old new fs (λ e. refl) (λ e. inl (e, refl))
      (λ a c n g p q away. move_found-Moved old new fs _ a c n g t p q away refl)

-- On a tree, each method that fails changes nothing. A Mkdir that succeeds leads a path, that led to
-- no node, to a new one, which is an empty directory with the permissions and the time of the call,
-- and no other path elsewhere. A RemoveAll that succeeds takes away the path and all below it, whether
-- there is a node or not, and no other path. A Rename that succeeds changes nothing where the names
-- are the same once they are clean; else there was a node at the old path, what the old path and those
-- below it led to, the new path and those below it lead to, the old ones lead to nothing unless they
-- are below the new path too, and every other path leads to what it did.
pub changes-Post :
    (name new : Bytes) (perm : ℕ) (fs : MemFs)
    → IsTree fs
    → Post (Made name perm fs) (mkdir name perm fs)
      × Post (Removed name fs) (remove_all name fs)
      × Post (Moved name new fs) (rename name new fs)
changes-Post name new perm fs t =
    (mkdir-Made name perm fs t, remove_all-Removed name fs t, rename-Moved name new fs t)
