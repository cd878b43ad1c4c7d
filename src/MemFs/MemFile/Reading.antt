-- ===== src/MemFs/MemFile/Reading.antt =====
-- webdav/file.go: what memFile.Read gives back after a Write.
use webdav_serverless.Base.{
  ℕ, ◌+◌, ◌<◌, false, Bytes, length, take, drop, ◌≡◌, refl, ap, ◌∙◌, arith, take-append,
}
use webdav_serverless.Errors.{ok, ◌>>=◌}
use webdav_serverless.Awsfs.FileReader.{seek_start}
use webdav_serverless.MemFs.{MemNode, MemFs, is_directory, set_node}
use webdav_serverless.MemFs.MemFile.{MemFile, write, read, seek}
use webdav_serverless.MemFs.MemFile.Writing.{written, write-written, drop-written, length-written}

read-eq :
    (n : ℕ) (f : MemFile) (fs : MemFs) (all : Bytes)
    → is_directory fs f.at_node ≡ false
    → (fs.node f.at_node).content ≡ all
    → f.pos < length all
    → (read n (f, fs)).0 ≡ ok (take n (drop f.pos all))
unfolding read
read-eq n f fs all h e lt = ground arith

node-set_node : (a : ℕ) (n : MemNode) (fs : MemFs) → (set_node a n fs).node a ≡ n
node-set_node a n fs = ground arith

taken : (p all : Bytes) (pos : ℕ) → take (length p) (drop pos (written p all pos)) ≡ p
taken p all pos = rw (drop-written p all pos, take-append) refl

-- What is written to an open file is read back from where it was written.
pub read-write :
    (p : Bytes) (f : MemFile) (fs : MemFs)
    → is_directory fs f.at_node ≡ false
    → 0 < length p
    → ((write p >>= λ n. seek false f.pos seek_start >>= λ q. read (length p)) (f, fs)).0 ≡ ok p
unfolding seek
read-write p f fs h ne =
    let n : MemNode = fs.node f.at_node in
    let all : Bytes = written p n.content f.pos in
    let m : MemNode = record n { content = all; mod_time = fs.clock } in
    let z : 0 + f.pos ≡ f.pos = omega arith in
    rw (write-written p f fs h) (
      read-eq (length p) (record f { pos = 0 + f.pos }) (set_node f.at_node m fs) all
        (rw (node-set_node f.at_node m fs) h) (ap (λ k. k.content) (node-set_node f.at_node m fs))
        (omega (arith, length-written p n.content f.pos))
      ∙ ap ok rw z (taken p n.content f.pos))
