-- ===== src/MemFs/MemFile/Writing.antt =====
-- webdav/file.go: what memFile.Write makes of the contents.
use webdav_serverless.Base.{
  false, ℕ, zero, suc, ◌+◌, ◌-◌, ◌<◌, ◌≤◌, [], ◌∷◌, ◌++◌, Bytes, length, take, drop, ◌≡◌, ◌≢◌, refl,
  sym, ap, ◌∙◌, arith, append_assoc, append-nil, length-append, length-take, length-drop, take-all,
  drop-all, drop-drop, drop-append,
}
use native.Mathlib.Decide.{dec_lt}
use webdav_serverless.Errors.{ok}
use webdav_serverless.MemFs.{MemFs, is_directory, set_node}
use webdav_serverless.MemFs.MemFile.{MemFile, write, zeros, overwrite, extend}

-- The contents with zeros up to a position, and the contents that have other bytes there.
abbrev pub padded : Bytes → ℕ → Bytes
padded all pos = all ++ zeros (pos - length all)

abbrev pub written : Bytes → Bytes → ℕ → Bytes
written p all pos = take pos (padded all pos) ++ (p ++ drop (pos + length p) (padded all pos))

length-zeros : (n : ℕ) → length (zeros n) ≡ n
length-zeros zero = refl
length-zeros (suc n) = omega (arith, length-zeros n)

laid :
    (p rest : Bytes)
    → (take (length rest) p ++ drop (length (take (length rest) p)) rest)
        ++ drop (length (take (length rest) p)) p
      ≡ p ++ drop (length p) rest
laid [] [] = refl
laid [] (x ∷ rest) = append-nil (x ∷ rest)
laid (c ∷ p) [] = ap (λ l. c ∷ l) (sym (append-nil p))
laid (c ∷ p) (x ∷ rest) = ap (λ l. c ∷ l) (laid p rest)

-- The part of the contents up to the position.
head-length : (all : Bytes) (pos : ℕ) → pos ≤ length all → length (take pos all) ≡ pos
head-length all pos h = omega (arith, length-take pos all)

extend-append : (all p : Bytes) (pos : ℕ) → (extend (all, pos, p)).0 ≡ all ++ p
extend-append all [] pos = sym (append-nil all)
extend-append all (c ∷ p) pos = refl

extend-position :
    (all p : Bytes) (pos n : ℕ)
    → (length p ≡ 0 → pos ≡ n)
    → (length p ≢ 0 → length all + length p ≡ n)
    → (extend (all, pos, p)).1 ≡ n
extend-position all [] pos n h k = h refl
extend-position all (c ∷ p) pos n h k =
    omega (arith, length-append all (c ∷ p), k (λ e. omega arith))

extend-pair :
    (all p : Bytes) (pos n : ℕ)
    → (length p ≡ 0 → pos ≡ n)
    → (length p ≢ 0 → length all + length p ≡ n)
    → extend (all, pos, p) ≡ (all ++ p, n)
extend-pair all p pos n h k = λ i. (extend-append all p pos i, extend-position all p pos n h k i)

padded-inside : (all : Bytes) (pos : ℕ) → pos ≤ length all → padded all pos ≡ all
padded-inside all pos h =
    let e : pos - length all ≡ 0 = omega arith in ap (λ k. all ++ zeros k) e ∙ append-nil all

length-padded : (all : Bytes) (pos : ℕ) → length all ≤ pos → length (padded all pos) ≡ pos
length-padded all pos h =
    omega (arith, length-append all (zeros (pos - length all)), length-zeros (pos - length all))

-- What overwrite gives where there are contents after the position.
module _ (p all : Bytes) (pos : ℕ) (h : pos < length all) where
  abbrev copied : Bytes
  copied = take (length all - pos) p

  abbrev kept : Bytes
  kept = take pos all ++ (copied ++ drop (pos + length copied) all)

  abbrev left : Bytes
  left = drop (length copied) p

  inside : overwrite p all pos ≡ (kept, pos + length copied, left)
  unfolding overwrite
  inside = ground arith

  inside-rest : (copied ++ drop (pos + length copied) all) ++ left ≡ p ++ drop (pos + length p) all
  inside-rest =
      rw (length-drop pos all, drop-drop pos (length copied) all, drop-drop pos (length p) all) at
        (laid p (drop pos all))

  inside-content : kept ++ left ≡ take pos all ++ (p ++ drop (pos + length p) all)
  inside-content = append_assoc (take pos all) _ left ∙ ap (λ l. take pos all ++ l) inside-rest

  inside-length :
      (length left ≡ 0 → pos + length copied ≡ pos + length p)
      × (length left ≢ 0 → length kept + length left ≡ pos + length p)
  inside-length = (
    λ e. omega (arith, length-take (length all - pos) p, length-drop (length copied) p),
    λ e. omega (
      arith,
      length-take (length all - pos) p,
      length-drop (length copied) p,
      head-length all pos,
      length-append (take pos all) (copied ++ drop (pos + length copied) all),
      length-append copied (drop (pos + length copied) all),
      length-drop (pos + length copied) all,
    ),
  )

  overwrite-inside : extend (overwrite p all pos) ≡ (written p all pos, pos + length p)
  overwrite-inside =
      ap extend inside
      ∙ extend-pair kept left _ _ inside-length.0 inside-length.1
      ∙ ap (λ l. (l, pos + length p)) (rw (padded-inside all pos (omega arith)) inside-content)

module _ (p all : Bytes) (pos : ℕ) (h : length all ≤ pos) where
  outside : overwrite p all pos ≡ (padded all pos, pos, p)
  unfolding overwrite
  outside = ground (arith, padded-inside all pos)

  outside-content : padded all pos ++ p ≡ written p all pos
  outside-content =
      let n : length (padded all pos) ≡ pos = length-padded all pos h in
      rw
        (
          take-all pos (padded all pos) (omega (arith, n)),
          drop-all (pos + length p) (padded all pos) (omega (arith, n)),
          append-nil,
        )
        refl

  overwrite-outside : extend (overwrite p all pos) ≡ (written p all pos, pos + length p)
  overwrite-outside =
      ap extend outside
      ∙ extend-pair (padded all pos) p pos (pos + length p) (λ e. omega arith)
          (λ e. omega (arith, length-padded all pos h))
      ∙ ap (λ l. (l, pos + length p)) outside-content

overwrite-written :
    (p all : Bytes) (pos : ℕ) → extend (overwrite p all pos) ≡ (written p all pos, pos + length p)
overwrite-written p all pos = elim (dec_lt pos (length all)) [
  | yes h ↦ overwrite-inside p all pos h
  | no h ↦ overwrite-outside p all pos (omega (arith, h))
]

length-take-padded : (all : Bytes) (pos : ℕ) → length (take pos (padded all pos)) ≡ pos
length-take-padded all pos = omega (
  arith,
  length-take pos (padded all pos),
  length-append all (zeros (pos - length all)),
  length-zeros (pos - length all),
)

pub drop-written :
    (p all : Bytes) (pos : ℕ)
    → drop pos (written p all pos) ≡ p ++ drop (pos + length p) (padded all pos)
drop-written p all pos =
    rw (length-take-padded all pos) at
      (drop-append (take pos (padded all pos)) (p ++ drop (pos + length p) (padded all pos)))

pub length-written : (p all : Bytes) (pos : ℕ) → pos + length p ≤ length (written p all pos)
length-written p all pos = omega (
  arith,
  length-take-padded all pos,
  length-append (take pos (padded all pos)) (p ++ drop (pos + length p) (padded all pos)),
  length-append p (drop (pos + length p) (padded all pos)),
)

-- A Write to an open file, at a position within its contents or after them, gives the number of the
-- bytes, moves the position on by it, sets the time, and makes the contents the old ones, filled with
-- zeros up to the position, with the bytes in place of those that stood there.
pub write-written :
    (p : Bytes) (f : MemFile) (fs : MemFs)
    → is_directory fs f.at_node ≡ false
    → write p (f, fs) ≡ (
      ok (length p),
      (
        record f { pos = f.pos + length p },
        set_node f.at_node
            (record (fs.node f.at_node) {
              content = written p (fs.node f.at_node).content f.pos;
              mod_time = fs.clock;
            })
            fs,
      ),
    )
unfolding write
write-written p f fs h = rw (h, overwrite-written p (fs.node f.at_node).content f.pos) refl
