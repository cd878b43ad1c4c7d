-- ===== src/MemFs.antt =====
-- webdav/file.go: memFS, a file system in memory.
pub mod MemFile
pub mod Tree
pub mod Edges
pub mod Kept
pub mod Paths
pub mod Moved
pub mod Names
pub mod Places
pub mod Outcomes
use webdav_serverless.Base.{
  ℕ, zero, suc, ◌+◌, Bool, true, false, ◌&&◌, ◌||◌, not, Option, none, some, List, [], ◌∷◌, ◌++◌,
  map, Bytes, codes, bytes_eq, beq, has_prefix, if◌then◌else◌, ◌==◌, length, ◌≡◌, refl,
}
use webdav_serverless.Base.Dict.{Dict, lookup, insert, erase}
use webdav_serverless.Errors.{
  Error, exist, not_exist, invalid, permission, path_error, not_a_directory, directory_not_empty,
  Result, ok, err, Effect, pure, fail, ◌>>=◌, ◌>>◌,
}
use mathlib.Core.List.{reverse}
use webdav_serverless.Path.{slash, split, slash_clean, until_slash}
use webdav_serverless.Property.{Name, Property}
use webdav_serverless.Files.{Info}

-- A memFSNode. A directory is made with a map of children and the bit os.ModeDir, a file without
-- both, and neither changes: a node is a directory where there is a map.
pub record MemNode : Type 0 where
  pub children : Option (Dict Bytes ℕ)
  pub content : Bytes
  pub perm : ℕ
  pub mod_time : ℕ
  pub dead : Dict Name Property

-- The nodes by their addresses, of which 0 is the root and `next` the first that is free, and the
-- time that time.Now gives.
pub record MemFs : Type 0 where
  pub node : ℕ → MemNode
  pub next : ℕ
  pub clock : ℕ

abbrev pub children_of : Option (Dict Bytes ℕ) → Dict Bytes ℕ
children_of none = []
children_of (some d) = d

abbrev pub has_children : Option (Dict Bytes ℕ) → Bool
has_children none = false
has_children (some d) = true

abbrev pub child : MemFs → ℕ → Bytes → Option ℕ
child fs a name = lookup name (children_of (fs.node a).children)

abbrev pub is_directory : MemFs → ℕ → Bool
is_directory fs a = has_children (fs.node a).children

abbrev pub set_node : ℕ → MemNode → MemFs → MemFs
set_node a n fs = record fs { node = λ b. if b == a then n else fs.node b }

-- `dir.children[frag] = n` and `delete(dir.children, frag)`, where `dir` is a directory.
abbrev pub set_child : ℕ → Bytes → ℕ → MemFs → MemFs
set_child a name b fs =
    let n = fs.node a in
    set_node a (record n { children = some (insert name b (children_of n.children)) }) fs

abbrev pub delete_child : ℕ → Bytes → MemFs → MemFs
delete_child a name fs =
    let n = fs.node a in
    set_node a (record n { children = some (erase name (children_of n.children)) }) fs

abbrev pub with_node : MemNode → MemFs → MemFs
with_node n fs = record (set_node fs.next n fs) { next = suc fs.next }

unfoldable pub stat_node : Bytes → MemNode → Info
stat_node name n = record {
  name = name;
  size = length n.content;
  is_dir = has_children n.children;
  perm = n.perm;
  mod_time = n.mod_time;
  e_tag = none;
  content_type = none;
}

-- Where walk goes on from a child, with what is left to do.
abbrev pub go_down :
    MemFs → (ℕ → Result (Option (ℕ × Bytes))) → Option ℕ → Result (Option (ℕ × Bytes))
go_down fs f none = err (path_error not_exist)
go_down fs f (some b) = if is_directory fs b then f b else err (path_error invalid)

abbrev pub last_fragment : ℕ → Bytes → Option (ℕ × Bytes)
last_fragment a [] = none
last_fragment a (c ∷ w) = some (a, c ∷ w)

-- The directory and the name that walk comes to, from a directory and the fragments that are left;
-- none for the root. On a clean path no fragment is empty but that of the root.
unfoldable pub find_from : MemFs → ℕ → List Bytes → Result (Option (ℕ × Bytes))
unfolding lookup
find_from fs a [] = ok none
find_from fs a (w ∷ []) = ok (last_fragment a w)
find_from fs a (w ∷ v ∷ ws) = go_down fs (λ b. find_from fs b (v ∷ ws)) (child fs a w)

abbrev pub without_slash : Bytes → Bytes
without_slash [] = []
without_slash (c ∷ s) = if c == slash then s else c ∷ s

unfoldable pub find : MemFs → Bytes → Result (Option (ℕ × Bytes))
unfolding find_from
find fs name = find_from fs 0 (split (without_slash (slash_clean name)))

abbrev pub finding : Bytes → Effect MemFs (Option (ℕ × Bytes))
finding name fs = (find fs name, fs)

-- The place that a method changes; for the root there is an error.
abbrev pub place : Option (ℕ × Bytes) → Effect MemFs (ℕ × Bytes)
place none = fail invalid
place (some p) = pure p

abbrev directory_node : ℕ → ℕ → MemNode
directory_node perm now = record {
  children = some [];
  content = [];
  perm = perm;
  mod_time = now;
  dead = [];
}

-- `perm` is perm.Perm().
abbrev pub mkdir_in : ℕ → ℕ → Bytes → Option ℕ → Effect MemFs (Unit {0})
mkdir_in perm a frag (some b) fs = (err exist, fs)
mkdir_in perm a frag none fs =
    (ok tt, with_node (directory_node perm fs.clock) (set_child a frag fs.next fs))

unfoldable pub mkdir_at : ℕ → ℕ × Bytes → Effect MemFs (Unit {0})
unfolding lookup
mkdir_at perm (a, frag) fs = mkdir_in perm a frag (child fs a frag) fs

unfoldable pub mkdir : Bytes → ℕ → Effect MemFs (Unit {0})
unfolding find mkdir_at
mkdir name perm = do found ← finding name; at ← place found; mkdir_at perm at

unfoldable pub remove_all : Bytes → Effect MemFs (Unit {0})
unfolding find
remove_all name = do
  found ← finding name
  (a, frag) ← place found
  λ fs. (ok tt, delete_child a frag fs)

-- The tests of Rename on a directory that moves to a place where there is a node.
unfoldable pub may_replace : Option (Dict Bytes ℕ) → Option (Option (Dict Bytes ℕ)) → Option Error
may_replace none there = none
may_replace (some d) none = none
may_replace (some d) (some none) = some not_a_directory
may_replace (some d) (some (some [])) = none
may_replace (some d) (some (some (_ ∷ _))) = some directory_not_empty

abbrev pub children_at : MemFs → Option ℕ → Option (Option (Dict Bytes ℕ))
children_at fs none = none
children_at fs (some b) = some (fs.node b).children

abbrev pub move_if : Option Error → ℕ → ℕ × Bytes → ℕ × Bytes → Effect MemFs (Unit {0})
move_if (some e) b from to fs = (err e, fs)
move_if none b (a, frag) (c, gram) fs = (ok tt, set_child c gram b (delete_child a frag fs))

abbrev pub move_found : Option ℕ → ℕ × Bytes → ℕ × Bytes → Effect MemFs (Unit {0})
move_found none from to fs = (err not_exist, fs)
move_found (some b) from (c, gram) fs =
    let e = may_replace (fs.node b).children (children_at fs (child fs c gram)) in
    move_if e b from (c, gram) fs

unfoldable pub move_node : ℕ × Bytes → ℕ × Bytes → Effect MemFs (Unit {0})
unfolding may_replace lookup
move_node (a, frag) to fs = move_found (child fs a frag) (a, frag) to fs

abbrev pub rename_clean : Bytes → Bytes → Effect MemFs (Unit {0})
rename_clean old new =
    if beq old new
    then pure tt
    else if has_prefix new (old ++ slash ∷ [])
    then fail invalid
    else (do
      source ← finding old
      from ← place source
      target ← finding new
      to ← place target
      move_node from to)

unfoldable pub rename : Bytes → Bytes → Effect MemFs (Unit {0})
unfolding find move_node
rename old new = rename_clean (slash_clean old) (slash_clean new)

-- path.Base: the last element of a path, without the slashes after it.
skip_slashes : Bytes → Bytes
skip_slashes [] = []
skip_slashes (c ∷ s) = let rest = skip_slashes s in if c == slash then rest else c ∷ s

abbrev base_of : Bytes → Bytes → Bytes
base_of [] [] = codes "."
base_of (c ∷ s) [] = codes "/"
base_of name (c ∷ s) = (until_slash [] (c ∷ s)).0

unfoldable pub base : Bytes → Bytes
unfolding skip_slashes until_slash
base name = base_of name (skip_slashes (reverse name))

abbrev pub stat_child : Bytes → Option ℕ → Effect MemFs Info
stat_child name none fs = (err not_exist, fs)
stat_child name (some b) fs = (ok (stat_node (base name) (fs.node b)), fs)

unfoldable pub stat_at : Bytes → Option (ℕ × Bytes) → Effect MemFs Info
unfolding stat_node base lookup
stat_at name none fs = (ok (stat_node (codes "/") (fs.node 0)), fs)
stat_at name (some (a, frag)) fs = stat_child name (child fs a frag) fs

unfoldable pub stat : Bytes → Effect MemFs Info
unfolding stat_at find
stat name = do found ← finding name; stat_at name found

-- NewMemFS
unfoldable pub new_mem_fs : ℕ → MemFs
new_mem_fs now = record { node = λ a. directory_node 432 now; next = 1; clock = now }
