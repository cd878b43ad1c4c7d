-- ===== src/Awsfs/FileReader/Copy.antt =====
-- awsfs/open.go: what io.Copy reads from a FileReader as OpenFile gives it, and after a Seek.
use webdav_serverless.Base.{
  ℕ, zero, suc, ◌+◌, ◌<◌, false, some, [], ◌∷◌, ◌≡◌, refl, sym, ap, ◌∙◌, Bytes, length, drop, take,
  arith, drop-length, take-drop-append, length-append,
}
use webdav_serverless.Errors.{Result, ok, err, invalid, Post}
use webdav_serverless.Path.{slash_clean}
use webdav_serverless.Awsfs.{EntryType, Reference, file, dir}
use webdav_serverless.Awsfs.Dynamo.{Dynamo, Tables}
use webdav_serverless.Awsfs.Dynamo
use webdav_serverless.Awsfs.Objects.{Objects}
use webdav_serverless.Awsfs.Objects
use webdav_serverless.Awsfs.View.{view, IsTree}
use webdav_serverless.Awsfs.Server.{World, FileReader, TempFile, open_file}
use webdav_serverless.Awsfs.Server.OpenFile.{OpenFails, Holds, OpenPost, open_file-Post}
use webdav_serverless.Awsfs.FileReader.{read, copy_all, seek, seek_start}

drop-nil : (n : ℕ) → drop {A = ℕ} n [] ≡ []
drop-nil zero = refl
drop-nil (suc n) = refl

drop-add : (n m : ℕ) (xs : Bytes) → drop (n + m) xs ≡ drop m (drop n xs)
drop-add zero m xs = ap (λ k. drop k xs) (omega arith)
drop-add (suc n) m [] = drop-nil (suc n + m) ∙ sym (drop-nil m)
drop-add (suc n) m (x ∷ xs) =
    let shift : suc n + m ≡ suc (n + m) = omega arith in
    ap (λ k. drop k (x ∷ xs)) shift ∙ drop-add n m xs

abbrev advance : ℕ → FileReader → TempFile → FileReader
advance n f t = record f { temp_file = some (record t { offset = t.offset + n }) }

read-eq :
    (n : ℕ) (f : FileReader) (t : TempFile) (rest : Bytes)
    → f.temp_file ≡ some t
    → drop t.offset t.content ≡ rest
    → read n f ≡ ok (take n rest, advance (length (take n rest)) f t)
unfolding read
read-eq n f t rest h k = rw (h, k) refl

-- The bytes from the offset on are all read, in Reads of any size but 0.
copy_from :
    (fuel size : ℕ) (f : FileReader) (t : TempFile) (rest : Bytes)
    → f.temp_file ≡ some t
    → drop t.offset t.content ≡ rest
    → length rest < fuel
    → copy_all fuel (suc size) f ≡ ok rest
unfolding copy_all
copy_from zero size f t rest h k l = ground (arith, l)
copy_from (suc fuel) size f t [] h k l = ground (arith, read-eq (suc size) f t [] h k)
copy_from (suc fuel) size f t (c ∷ rest) h k l =
    let n : ℕ = length (take size rest) in
    let g : FileReader = advance (suc n) f t in
    let next : copy_all fuel (suc size) g ≡ ok (drop n rest) =
      copy_from fuel size g (record t { offset = t.offset + suc n }) (drop n rest) refl
        (drop-add t.offset (suc n) t.content ∙ ap (drop (suc n)) k)
        (omega (
          arith,
          l,
          length-append {0} (take size rest) (drop n rest),
          ap length (take-drop-append size rest),
        )) in
    ground (arith, read-eq (suc size) f t (c ∷ rest) h k, next, take-drop-append size rest)

-- A file as OpenFile leaves it, with the offset at the end, reads as an empty one.
copy_all-at_end :
    (fuel size : ℕ) (f : FileReader) (content : Bytes)
    → f.temp_file ≡ some (record { content = content; offset = length content })
    → copy_all (suc fuel) (suc size) f ≡ ok []
copy_all-at_end fuel size f content h =
    copy_from (suc fuel) size f (record { content = content; offset = length content }) [] h
      (drop-length content) (omega arith)

-- After a Seek to the start all that the temporary file holds is read.
seek-copy_all :
    (size : ℕ) (f : FileReader) (t : TempFile)
    → f.temp_file ≡ some t
    → (g : FileReader) × (seek false 0 seek_start f ≡ ok (0, g))
      × (copy_all (suc (length t.content)) (suc size) g ≡ ok t.content)
unfolding seek
seek-copy_all size f t h = (
  record f { temp_file = some (record t { offset = 0 }) },
  rw h refl,
  copy_from (suc (length t.content)) size _ (record t { offset = 0 }) t.content refl refl
      (omega arith),
)

-- What is read of a reader of OpenFile, by its kind of entry.
Reads :
    (D : Dynamo) (P : Objects)
    → (Bytes → Result Bytes)
    → World D P
    → ℕ
    → EntryType
    → FileReader
    → Type 0
Reads D P copy w size dir f = read size f ≡ err invalid
Reads D P copy w size file f =
    (body : Bytes) × (content : Bytes) × (P.contents w.objects f.entry.id ≡ some body)
    × (copy body ≡ ok content)
    × ((fuel : ℕ) → copy_all (suc fuel) (suc size) f ≡ ok [])
    × ((g : FileReader) × (seek false 0 seek_start f ≡ ok (0, g))
        × (copy_all (suc (length content)) (suc size) g ≡ ok content))

module _ (D : Dynamo) (P : Objects) where
  -- The reads of a FileReader that is the outcome of OpenFile.
  pub ReadPost :
      Bytes → (Bytes → Result Bytes) → ℕ → World D P → Result FileReader → World D P → Type 0
  ReadPost path copy size w (ok f) v =
      (view (D.tables w.db) path ≡ some f.entry) × Reads D P copy w size f.entry.type f
  ReadPost path copy size w (err e) v = OpenFails (D.tables w.db) path copy e

  Holds-Reads :
      (copy : Bytes → Result Bytes) (w : World D P) (size : ℕ) (type : EntryType) (f : FileReader)
      → Holds D P copy type f.entry.id w f.temp_file
      → Reads D P copy w size type f
  unfolding Reads read
  Holds-Reads copy w size dir f h = rw h refl
  Holds-Reads copy w size file f (body, content, stored, copied, temp) = (
    body,
    content,
    stored,
    copied,
    λ fuel. copy_all-at_end fuel size f content temp,
    seek-copy_all size f (record { content = content; offset = length content }) temp,
  )

  -- Let OpenFile be called on tables that are a tree. Where it fails, the path is absent, the copy of
  -- the body failed or the service did. Where it gives a reader, that has the entry of the path. A Read
  -- of a directory's reader is an error. For a file there is an object with a body and the copy of it;
  -- io.Copy, in Reads of any size but 0, gives nothing without a Seek, and after a Seek to the start it
  -- gives the whole copy, with one Read more than there are bytes at most.
  pub open_file-ReadPost :
      (L : Dynamo.IsLawful D) (LP : Objects.IsLawful P) (copy : Bytes → Result Bytes) (name : Bytes)
      (w : World D P) (ref : Reference) (size : ℕ)
      → IsTree (D.tables w.db) ref
      → Post (ReadPost (slash_clean name) copy size w) (open_file D P copy name w)
  unfolding ReadPost OpenPost
  open_file-ReadPost L LP copy name w ref size tree =
      go (open_file D P copy name w) (open_file-Post D P L LP copy name w ref tree)
    where
      go :
          (o : Result FileReader × World D P)
          → Post (OpenPost D P (slash_clean name) copy w) o
          → Post (ReadPost (slash_clean name) copy size w) o
      go (err e, v) h = h.0
      go (ok f, v) (at, holds, _, _) = (at, Holds-Reads copy w size f.entry.type f holds)
