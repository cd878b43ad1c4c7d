-- ===== src/FileTree/Walk/Total.antt =====
-- webdav/file.go: the fuel of walkFS, on a tree of files that stays as it is.
use webdav_serverless.Base.{
  ℕ, zero, suc, ◌≤◌, ◌<◌, Bool, true, false, ◌&&◌, ◌||◌, not, Option, none, some, List, [], ◌∷◌,
  ◌≡◌, ◌≢◌, refl, Bytes, if◌then◌else◌, All, arith, Bool-cases, inl, inr,
}
use webdav_serverless.Errors.{Error, Result, ok, err}
use webdav_serverless.Path.Join.{join}
use webdav_serverless.Files.{Info, FileSystem}
use webdav_serverless.FileTree.Walk.{
  Depth, Walked, finished, stopped, out_of_fuel, walked, is_skip_dir, WalkFn, Walk, go_on,
  walk_child, walk_children, walk_listed, walk_opened, visited, walk_fs, below, at_end,
}

-- In the states of `Q`, which the calls of walkFS to the file system do not lead out of, what a Readdir
-- of a directory lists is lower than the directory.
pub record IsShallow {S F : Type 0} (fs : FileSystem S F) (Q : S → Type 0) (height : Bytes → ℕ)
    : Type 0 where
  pub open_keeps : (p : Bytes) (s : S) → Q s → Q (fs.open_file p false s).1
  pub stat_keeps : (p : Bytes) (s : S) → Q s → Q (fs.stat p s).1
  pub readdir_keeps : (f : F) (s : S) → Q s → Q (fs.readdir f s).1
  pub close_keeps : (f : F) (s : S) → Q s → Q (fs.close f s)
  pub lower :
      (name : Bytes) (s t u : S) (f : F) (cs : List Info)
      → Q s
      → fs.open_file name false s ≡ (ok f, t)
      → fs.readdir f t ≡ (ok cs, u)
      → All (λ c. height (join name c.name) < height name) cs

-- The caller's function does not lead out of the states of `Q`.
abbrev pub FnKeeps : {S : Type 0} → WalkFn S → (S → Type 0) → Type 0
FnKeeps {S} fn Q =
    (name : Bytes) (i : Option Info) (e : Option Error) (s : S) → Q s → Q (fn name i e s).1

module _ {S F : Type 0} (fs : FileSystem S F) (fn : WalkFn S) (Q : S → Type 0) (height : Bytes → ℕ)
    (shallow : IsShallow fs Q height) (kept : FnKeeps fn Q) where
  -- A walk that had enough fuel, and ends in such a state.
  pub Ends : Walked × S → Type 0
  Ends o = (o.0 ≢ out_of_fuel) × Q o.1

  walked-Ends : (o : Option Error × S) → Q o.1 → Ends (walked o)
  unfolding Ends
  walked-Ends (none, s) q = ((λ e. cc), q)
  walked-Ends (some x, s) q = ((λ e. cc), q)

  go_on-Ends :
      (is_dir : Bool) (o : Walked × S) (next : S → Walked × S)
      → Ends o
      → ((s : S) → Q s → Ends (next s))
      → Ends (go_on fs fn is_dir o next)
  unfolding Ends
  go_on-Ends is_dir (finished, s) next k l = l s k.1
  go_on-Ends is_dir (stopped e, s) next k l =
      elim (Bool-cases (not is_dir || not (is_skip_dir e))) [
        | inl b ↦ rw b ((λ x. cc), k.1)
        | inr b ↦ rw b (l s k.1)
      ]
  go_on-Ends is_dir (out_of_fuel, s) next k l = absurd (k.0 refl)

  walk_child-Ends :
      (walk : Walk fs fn) (name : Bytes) (r : Result Info × S) (next : S → Walked × S)
      → Q r.1
      → ((i : Info) (s : S) → Q s → Ends (walk name i s))
      → ((s : S) → Q s → Ends (next s))
      → Ends (walk_child fs fn walk name r next)
  walk_child-Ends walk name (err e, s) next q k l =
      go_on-Ends true (walked (fn name none (some e) s)) next
        (walked-Ends _ (kept name none (some e) s q)) l
  walk_child-Ends walk name (ok i, s) next q k l =
      go_on-Ends i.is_dir (walk name i s) next (k i s q) l

  walk_children-Ends :
      (walk : Walk fs fn) (name : Bytes) (cs : List Info) (s : S)
      → Q s
      → All (λ c. (i : Info) (t : S) → Q t → Ends (walk (join name c.name) i t)) cs
      → Ends (walk_children fs fn walk name cs s)
  unfolding walk_children Ends
  walk_children-Ends walk name [] s q k = ((λ e. cc), q)
  walk_children-Ends walk name (c ∷ cs) s q (k, ks) =
      walk_child-Ends walk (join name c.name) _ _ (shallow.stat_keeps (join name c.name) s q) k
        λ t r. walk_children-Ends walk name cs t r ks

  visited-Ends :
      (is_dir : Bool) (o : Option Error × S) (next : S → Walked × S)
      → Q o.1
      → ((s : S) → Q s → Ends (next s))
      → Ends (visited fs fn is_dir o next)
  unfolding Ends
  visited-Ends is_dir (some e, s) next q k = elim (Bool-cases (is_dir && is_skip_dir e)) [
    | inl b ↦ rw b ((λ x. cc), q)
    | inr b ↦ rw b ((λ x. cc), q)
  ]
  visited-Ends is_dir (none, s) next q k = k s q

  -- What the walks of all that is below `n` need of the children of a name.
  lower_children :
      (walk : Walk fs fn) (name : Bytes) (n : ℕ) (cs : List Info)
      → height name ≤ n
      → ((p : Bytes) → height p < n → (i : Info) (t : S) → Q t → Ends (walk p i t))
      → All (λ c. height (join name c.name) < height name) cs
      → All (λ c. (i : Info) (t : S) → Q t → Ends (walk (join name c.name) i t)) cs
  lower_children walk name n [] h k l = tt
  lower_children walk name n (c ∷ cs) h k (l, ls) =
      (k (join name c.name) (omega arith), lower_children walk name n cs h k ls)

  walk_opened-Ends :
      (walk : Walk fs fn) (name : Bytes) (i : Info) (n : ℕ) (s : S)
      → Q s
      → height name ≤ n
      → ((p : Bytes) → height p < n → (j : Info) (t : S) → Q t → Ends (walk p j t))
      → Ends (walk_opened fs fn walk name i (fs.open_file name false s))
  walk_opened-Ends walk name i n s q h k =
      go (fs.open_file name false s) refl (shallow.open_keeps name s q)
    where
      listed :
          (f : F) (t : S) (o : Result (List Info) × S)
          → fs.open_file name false s ≡ (ok f, t)
          → fs.readdir f t ≡ o
          → Q o.1
          → Ends (walk_listed fs fn walk name i (o.0, fs.close f o.1))
      listed f t (err e, u) p r q' =
          walked-Ends _ (kept name (some i) (some e) _ (shallow.close_keeps f u q'))
      listed f t (ok cs, u) p r q' =
          walk_children-Ends walk name cs _ (shallow.close_keeps f u q')
            (lower_children walk name n cs h k (shallow.lower name s t u f cs q p r))

      go :
          (o : Result F × S)
          → fs.open_file name false s ≡ o
          → Q o.1
          → Ends (walk_opened fs fn walk name i o)
      go (err e, t) p q' = walked-Ends _ (kept name (some i) (some e) t q')
      go (ok f, t) p q' = listed f t (fs.readdir f t) p refl (shallow.readdir_keeps f t q')

  walk_dir-Ends :
      (walk : Walk fs fn) (depth : Depth) (name : Bytes) (i : Info) (n : ℕ) (s : S)
      → Q s
      → height name ≤ n
      → ((p : Bytes) → height p < n → (j : Info) (t : S) → Q t → Ends (walk p j t))
      → Ends (
          if not i.is_dir || at_end depth
          then (finished, s)
          else walk_opened fs fn walk name i (fs.open_file name false s))
  walk_dir-Ends walk depth name i n s q h k = elim (Bool-cases (not i.is_dir || at_end depth)) [
    | inl b ↦ rw b (walked-Ends (none, s) q)
    | inr b ↦ rw b (walk_opened-Ends walk name i n s q h k)
  ]

  -- Let a walk start in a state of a set that neither the calls to the file system nor the caller's
  -- function leads out of, and in which what a Readdir of a directory lists has a lesser height than the
  -- directory. With more fuel than the height of its start it does not run out of fuel, whatever the
  -- depth, so that walkFS ends, and it ends in a state of the set.
  pub walk_fs-Ends :
      (fuel : ℕ) (depth : Depth) (name : Bytes) (i : Info) (s : S)
      → Q s
      → height name < fuel
      → Ends (walk_fs fs fn fuel depth name i s)
  unfolding walk_fs
  walk_fs-Ends zero depth name i s q h = absurd (omega arith)
  walk_fs-Ends (suc fuel) depth name i s q h =
      visited-Ends i.is_dir (fn name (some i) none s) _ (kept name (some i) none s q) λ t r.
        walk_dir-Ends (λ p j u. walk_fs fs fn fuel (below depth) p j u) depth name i fuel t r
          (omega arith) (λ p l j u q. walk_fs-Ends fuel (below depth) p j u q l)
