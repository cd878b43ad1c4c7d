-- ===== src/Awsfs/Objects.antt =====
-- awsfs/physical.go: PhysicalStore over an S3 client, a service that is not part of the program. The
-- client is a parameter, and what the program relies on are laws of it.
pub mod Memory
use mathlib.Core.List.{flatten}
use webdav_serverless.Base.{
  sym, ap, ◌∙◌, append-nil, ℕ, zero, suc, ◌+◌, Bool, true, false, Option, none, some, List, [], ◌∷◌,
  ◌++◌, ◌≡◌, refl, Bytes, bytes_eq, beq, if◌then◌else◌, length, length-append, arith, append_assoc,
}
use webdav_serverless.Errors.{Error, Result, ok, err, Effect}

-- A bucket, with the contents by their keys.
pub record Objects : Type 1 where
  pub State : Type 0
  pub contents : State → Bytes → Option Bytes
  pub upload : Bytes → Bytes → Effect State (Unit {0})
  pub get_object : Bytes → Effect State Bytes

-- An upload that succeeds stores the whole body under its key, and no request changes another key.
-- A read returns what is stored. Any request may fail, an upload before it has stored anything.
pub record IsLawful (P : Objects) : Type 0 where
  pub upload_ok :
      (k body : Bytes) (s t : P.State)
      → P.upload k body s ≡ (ok tt, t)
      → P.contents t ≡ (λ j. if beq j k then some body else P.contents s j)
  pub upload_err :
      (k body : Bytes) (s t : P.State) (e : Error)
      → P.upload k body s ≡ (err e, t)
      → (e ≡ Error.service) × (P.contents t ≡ P.contents s)
  pub get_ok :
      (k body : Bytes) (s t : P.State)
      → P.get_object k s ≡ (ok body, t)
      → (P.contents s k ≡ some body) × (P.contents t ≡ P.contents s)
  pub get_err :
      (k : Bytes) (s t : P.State) (e : Error)
      → P.get_object k s ≡ (err e, t)
      → (e ≡ Error.service) × (P.contents t ≡ P.contents s)

-- A reader gives its contents in chunks, one for each call of Read, until io.EOF.
abbrev pub Reader : Type 0
Reader = List Bytes

-- The `size` that `sizingReader` has counted, and the bytes that the uploader has got from it.
sizing_read : ℕ × Bytes → Bytes → ℕ × Bytes
sizing_read (size, body) chunk = (size + length chunk, body ++ chunk)

read_chunks : ℕ × Bytes → Reader → ℕ × Bytes
unfolding sizing_read
read_chunks st [] = st
read_chunks st (chunk ∷ r) = read_chunks (sizing_read st chunk) r

-- The uploader reads to the end of its body.
unfoldable pub read_sized : Reader → ℕ × Bytes
unfolding read_chunks
read_sized r = read_chunks (0, []) r

read_chunks-flatten :
    (n : ℕ) (body : Bytes) (r : Reader)
    → read_chunks (n, body) r ≡ (n + length (flatten r), body ++ flatten r)
unfolding read_chunks flatten
read_chunks-flatten n body [] =
    ap (λ b. (n, b)) (sym (append-nil body)) ∙ ap (λ m. (m, body ++ [])) (omega arith)
read_chunks-flatten n body (chunk ∷ r) =
    read_chunks-flatten (n + length chunk) (body ++ chunk) r
    ∙ ap (λ b. (n + length chunk + length (flatten r), b)) (append_assoc body chunk (flatten r))
    ∙ ap (λ m. (m, body ++ (chunk ++ flatten r)))
        (omega (arith, length-append {0} chunk (flatten r)))

-- Whatever the chunks that a reader gives, the body that is uploaded is all of them in their order,
-- and `sr.size` is its length.
pub read_sized-flatten : (r : Reader) → read_sized r ≡ (length (flatten r), flatten r)
unfolding read_sized
read_sized-flatten r = read_chunks-flatten 0 [] r ∙ ap (λ m. (m, flatten r)) (omega arith)

-- PutObject and PutObjectLarge differ in how the client sends the body, in parts of 10 MiB or at once.
module _ (P : Objects) where
  unfoldable pub put_object : Bytes → Bytes → Effect P.State (Unit {0})
  put_object key body = P.upload key body

  unfoldable pub put_object_large : Bytes → Bytes → Effect P.State (Unit {0})
  put_object_large key body = P.upload key body

  unfoldable pub get_object : Bytes → Effect P.State Bytes
  get_object key = P.get_object key
