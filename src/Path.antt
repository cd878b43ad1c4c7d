-- ===== src/Path.antt =====
-- slashClean of webdav/file.go and awsfs/fs.go, and the functions of Go's packages path and
-- path/filepath that the program calls, on rooted paths.
pub mod Clean
pub mod Parent
pub mod Join
use webdav_serverless.Base.{
  ℕ, zero, suc, Bool, true, false, List, [], ◌∷◌, ◌++◌, ◌==◌, ◌&&◌, ◌||◌, if◌then◌else◌, beq, Bytes,
  codes, bytes_eq, ◌≡◌, ◌≢◌, refl, All,
}
use mathlib.Core.List.{reverse, reverse_aux, tail}

-- The byte '/'.
abbrev pub slash : ℕ
slash = 47

abbrev pub root : Bytes
root = slash ∷ []

abbrev prepend : ℕ → List Bytes → List Bytes
prepend c [] = (c ∷ []) ∷ []
prepend c (w ∷ ws) = (c ∷ w) ∷ ws

-- The elements of a path, which slashes separate.
unfoldable pub split : Bytes → List Bytes
split [] = [] ∷ []
split (c ∷ s) = let rest = split s in if c == slash then [] ∷ rest else prepend c rest

-- An element of the path against those that stand before it, the last one first: path.Clean drops
-- an empty element and ".", and lets ".." take the element before it away.
clean_step : List Bytes → Bytes → List Bytes
unfolding bytes_eq
clean_step done w =
    if beq w []
    then done
    else if beq w (codes ".")
    then done
    else if beq w (codes "..")
    then tail done
    else w ∷ done

pub clean_all : List Bytes → List Bytes → List Bytes
unfolding clean_step
clean_all done [] = done
clean_all done (w ∷ ws) = clean_all (clean_step done w) ws

unfoldable pub slashes : List Bytes → Bytes
slashes [] = []
slashes (w ∷ ws) = slash ∷ w ++ slashes ws

-- The rooted path of some elements.
unfoldable pub rooted : List Bytes → Bytes
unfolding slashes
rooted [] = root
rooted (w ∷ ws) = slashes (w ∷ ws)

-- path.Clean on a path that begins with a slash.
unfoldable pub path_clean : Bytes → Bytes
unfolding split clean_all rooted
path_clean s = rooted (reverse (clean_all [] (split s)))

-- ".." takes away the element before it, unless there is none but "..".
abbrev takes_back : List Bytes → Bool
takes_back [] = false
takes_back (w ∷ ws) = if beq w (codes "..") then false else true

relative_step : List Bytes → Bytes → List Bytes
unfolding bytes_eq
relative_step done w =
    if beq w [] || beq w (codes ".")
    then done
    else if beq w (codes "..") && takes_back done
    then tail done
    else w ∷ done

relative_all : List Bytes → List Bytes → List Bytes
unfolding relative_step
relative_all done [] = done
relative_all done (w ∷ ws) = relative_all (relative_step done w) ws

between : List Bytes → Bytes
between [] = codes "."
between (w ∷ []) = w
between (w ∷ v ∷ ws) = w ++ slash ∷ between (v ∷ ws)

-- path.Clean
unfoldable pub clean : Bytes → Bytes
unfolding relative_all between path_clean split
clean [] = codes "."
clean (c ∷ s) =
    if c == slash then path_clean (c ∷ s) else between (reverse (relative_all [] (split (c ∷ s))))

add_slash : Bytes → Bytes
add_slash [] = root
add_slash (c ∷ s) = if c == slash then c ∷ s else slash ∷ c ∷ s

unfoldable pub slash_clean : Bytes → Bytes
unfolding add_slash clean
slash_clean name = clean (add_slash name)

-- `before` the last slash of the reversed text `s`, and the text from that slash on.
unfoldable pub until_slash : Bytes → Bytes → Bytes × Bytes
until_slash before [] = (before, [])
until_slash before (c ∷ s) =
    let more = until_slash (c ∷ before) s in if c == slash then (before, c ∷ s) else more

-- filepath.Dir on a rooted path: path.Clean of the text up to and with its last slash.
unfoldable pub filepath_dir : Bytes → Bytes
unfolding until_slash path_clean
filepath_dir p = path_clean (reverse (until_slash [] (reverse p)).1)

abbrev base_or_root : Bytes → Bytes
base_or_root [] = root
base_or_root (c ∷ s) = c ∷ s

-- filepath.Base on a rooted path that ends with no slash, unless it is the root.
unfoldable pub filepath_base : Bytes → Bytes
unfolding until_slash
filepath_base p = base_or_root (until_slash [] (reverse p)).0

-- An element that path.Clean keeps.
pub record IsElement (w : Bytes) : Type 0 where
  pub not_empty : w ≢ []
  pub not_dot : w ≢ codes "."
  pub not_dots : w ≢ codes ".."
  pub no_slash : All (λ c. c ≢ slash) w

-- A rooted path with no empty element, no "." and no "..".
unfoldable pub IsClean : Bytes → Type 0
IsClean p = (ws : List Bytes) × All IsElement ws × (p ≡ rooted ws)

test_clean : slash_clean (codes "a/./b//../c/") ≡ codes "/a/c"
unfolding slash_clean
test_clean = refl

test_dir : filepath_dir (codes "/a/c") ≡ codes "/a"
unfolding filepath_dir
test_dir = refl

test_base : filepath_base (codes "/a/c") ≡ codes "c"
unfolding filepath_base
test_base = refl

test_clean_relative : clean (codes "a/../../b/.") ≡ codes "../b"
unfolding clean
test_clean_relative = refl

test_clean_unrooted : slash_clean (codes "a/b") ≡ codes "/a/b"
unfolding slash_clean
test_clean_unrooted = refl
