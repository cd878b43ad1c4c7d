-- ===== src/FileTree/Walk.antt =====
-- webdav/file.go: walkFS.
pub mod Total
use webdav_serverless.Base.{
  ℕ, zero, suc, ◌≤◌, ◌<◌, Bool, true, false, ◌&&◌, ◌||◌, not, Option, none, some, List, [], ◌∷◌,
  ◌≡◌, ◌≢◌, refl, Bytes, if◌then◌else◌, arith,
}
use webdav_serverless.Errors.{Error, skip_dir, Result, ok, err}
use webdav_serverless.Path.Join.{join}
use webdav_serverless.Files.{Info, FileSystem}

pub data Depth : Type 0 where
  -- 0, 1, infiniteDepth and invalidDepth
  zero_depth one_depth infinite invalid : Depth

abbrev pub is_skip_dir : Error → Bool
is_skip_dir skip_dir = true
is_skip_dir _ = false

-- How a walk ends: nil, an error, or (in the model only) no fuel left.
pub data Walked : Type 0 where
  finished : Walked
  stopped : Error → Walked
  out_of_fuel : Walked

abbrev pub walked : {S : Type 0} → Option Error × S → Walked × S
walked (none, s) = (finished, s)
walked (some e, s) = (stopped e, s)

abbrev pub below : Depth → Depth
below one_depth = zero_depth
below d = d

abbrev pub at_end : Depth → Bool
at_end zero_depth = true
at_end _ = false

-- What the caller's function returns: nil or an error.
abbrev pub WalkFn : Type 0 → Type 0
WalkFn S = Bytes → Option Info → Option Error → S → Option Error × S

module _ {S F : Type 0} (fs : FileSystem S F) (fn : WalkFn S) where
  abbrev pub Walk : Type 0
  Walk = Bytes → Info → S → Walked × S

  -- The loop goes on after a walk of a child, unless it ends with an error other than SkipDir.
  abbrev pub go_on : Bool → Walked × S → (S → Walked × S) → Walked × S
  go_on is_dir (finished, s) next = next s
  go_on is_dir (stopped e, s) next =
      if not is_dir || not (is_skip_dir e) then (stopped e, s) else next s
  go_on is_dir (out_of_fuel, s) next = (out_of_fuel, s)

  abbrev pub walk_child : Walk → Bytes → Result Info × S → (S → Walked × S) → Walked × S
  walk_child walk name (err e, s) next = go_on true (walked (fn name none (some e) s)) next
  walk_child walk name (ok i, s) next = go_on i.is_dir (walk name i s) next

  unfoldable pub walk_children : Walk → Bytes → List Info → S → Walked × S
  unfolding join
  walk_children walk name [] s = (finished, s)
  walk_children walk name (c ∷ cs) s =
      let child = join name c.name in
      walk_child walk child (fs.stat child s) (λ t. walk_children walk name cs t)

  abbrev pub walk_listed : Walk → Bytes → Info → Result (List Info) × S → Walked × S
  walk_listed walk name i (err e, s) = walked (fn name (some i) (some e) s)
  walk_listed walk name i (ok infos, s) = walk_children walk name infos s

  abbrev pub walk_opened : Walk → Bytes → Info → Result F × S → Walked × S
  walk_opened walk name i (err e, s) = walked (fn name (some i) (some e) s)
  walk_opened walk name i (ok f, s) =
      let (r, t) = fs.readdir f s in walk_listed walk name i (r, fs.close f t)

  abbrev pub visited : Bool → Option Error × S → (S → Walked × S) → Walked × S
  visited is_dir (some e, s) next =
      if is_dir && is_skip_dir e then (finished, s) else (stopped e, s)
  visited is_dir (none, s) next = next s

  unfoldable pub walk_fs : ℕ → Depth → Bytes → Info → S → Walked × S
  unfolding walk_children
  walk_fs zero depth name i s = (out_of_fuel, s)
  walk_fs (suc fuel) depth name i s = visited i.is_dir (fn name (some i) none s) λ t.
      if not i.is_dir || at_end depth
      then (finished, t)
      else walk_opened (λ n j u. walk_fs fuel (below depth) n j u) name i
          (fs.open_file name false t)
