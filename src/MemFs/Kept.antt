-- ===== src/MemFs/Kept.antt =====
-- webdav/file.go: methods of memFS and memFile against the invariant of the nodes.
use webdav_serverless.Base.{
  bytes_eq, if◌then◌else◌, ℕ, Bool, true, false, ◌&&◌, ◌||◌, Option, none, some, List, ◌∷◌, Bytes,
  ◌≡◌, refl, sym, ◌∙◌, arith,
}
use webdav_serverless.Base.Dict.{lookup-nil}
use webdav_serverless.Errors.{Error, not_exist, Result, ok, err, Effect, continue, Post}
use webdav_serverless.Property.{Proppatch}
use webdav_serverless.MemFs.{
  MemFs, new_mem_fs, child, is_directory, find, place, mkdir, mkdir_at, remove_all, rename,
  move_node, mkdir_in, move_found, move_if,
}
use webdav_serverless.MemFs.MemFile.{
  OpenFlag, MemFile, Opened, open_file, open_at, open_child, open_there, file_node, truncated,
  write, patch,
}
use webdav_serverless.MemFs.Tree.{IsTree, grounded}
use webdav_serverless.MemFs.Paths.{is_under}
use webdav_serverless.MemFs.Moved.{to-deleted}
use webdav_serverless.MemFs.Places.{IsPlace, rename-cases}
use webdav_serverless.MemFs.Edges.{
  grown, set_node-IsTree, delete_child-IsTree, grown-IsTree, moved-IsTree,
}

abbrev pub Kept : {A : Type 0} → Result A × MemFs → Type 0
Kept o = Post (λ _ fs. IsTree fs) o

after :
    {A B : Type 0} (r : Result A) (f : A → Effect MemFs B) (fs : MemFs)
    → IsTree fs
    → ((a : A) → Kept (f a fs))
    → Kept (continue r f fs)
after (ok a) f fs t h = h a
after (err e) f fs t h = t

after-place :
    {B : Type 0} (o : Option (ℕ × Bytes)) (f : ℕ × Bytes → Effect MemFs B) (fs : MemFs)
    → IsTree fs
    → ((p : ℕ × Bytes) → Kept (f p fs))
    → Kept (continue (place o fs).0 f (place o fs).1)
after-place none f fs t h = t
after-place (some p) f fs t h = h p

mkdir_in-Kept :
    (perm a : ℕ) (n : Bytes) (o : Option ℕ) (fs : MemFs) → IsTree fs → Kept (mkdir_in perm a n o fs)
mkdir_in-Kept perm a n (some b) fs t = t
mkdir_in-Kept perm a n none fs t = grown-IsTree fs t a n _ refl

mkdir-Kept : (name : Bytes) (perm : ℕ) (fs : MemFs) → IsTree fs → Kept (mkdir name perm fs)
unfolding mkdir mkdir_at
mkdir-Kept name perm fs t =
    after (find fs name) _ fs t (λ o.
      after-place o (mkdir_at perm) fs t (λ (a, n). mkdir_in-Kept perm a n (child fs a n) fs t))

remove_all-Kept : (name : Bytes) (fs : MemFs) → IsTree fs → Kept (remove_all name fs)
unfolding remove_all
remove_all-Kept name fs t =
    after (find fs name) _ fs t (λ o. after-place o _ fs t (λ (a, n). delete_child-IsTree fs t a n))

move_if-Kept :
    (old new : Bytes) (o : Option Error) (a c b : ℕ) (n g : Bytes) (fs : MemFs)
    → IsTree fs
    → (p : IsPlace fs old (a, n)) → (q : IsPlace fs new (c, g)) → is_under (n ∷ p.up) q.up ≡ false
    → child fs a n ≡ some b
    → Kept (move_if o b (a, n) (c, g) fs)
move_if-Kept old new (some e) a c b n g fs t p q away h = t
move_if-Kept old new none a c b n g fs t p q away h =
    moved-IsTree fs t a c b n g q.up h
      (to-deleted fs t p.up q.up a b c n g p.directory h q.directory away)

move_found-Kept :
    (old new : Bytes) (o : Option ℕ) (a c : ℕ) (n g : Bytes) (fs : MemFs)
    → IsTree fs
    → (p : IsPlace fs old (a, n)) → (q : IsPlace fs new (c, g)) → is_under (n ∷ p.up) q.up ≡ false
    → child fs a n ≡ o
    → Kept (move_found o (a, n) (c, g) fs)
move_found-Kept old new none a c n g fs t p q away e = t
move_found-Kept old new (some b) a c n g fs t p q away e =
    move_if-Kept old new _ a c b n g fs t p q away e

rename-Kept : (old new : Bytes) (fs : MemFs) → IsTree fs → Kept (rename old new fs)
unfolding move_node
rename-Kept old new fs t =
    rename-cases (λ _ fs. IsTree fs) old new fs (λ e. t) (λ e. t)
      (λ a c n g p q away. move_found-Kept old new _ a c n g fs t p q away refl)

both {ℓ} : {A : Type ℓ} (Q : A → Type 0) (c : Bool) (x y : A) → Q x → Q y → Q (if c then x else y)
both Q true x y h k = h
both Q false x y h k = k

truncated-IsTree : (flag : OpenFlag) (b : ℕ) (fs : MemFs) → IsTree fs → IsTree (truncated flag b fs)
truncated-IsTree flag b fs t =
    both IsTree ((flag.write_only || flag.read_write) && flag.truncate) _ _
      (set_node-IsTree fs t b _ refl) t

open_child-Kept :
    (flag : OpenFlag) (perm a : ℕ) (n : Bytes) (o : Option ℕ) (fs : MemFs)
    → IsTree fs
    → Kept (open_child flag perm a n o fs)
unfolding open_child
open_child-Kept flag perm a n (some b) fs t =
    both Kept (flag.create && flag.exclusive) _ _ t (truncated-IsTree flag b fs t)
open_child-Kept flag perm a n none fs t =
    let new : MemFs = grown a n (file_node perm) fs in
    both Kept flag.create (open_there flag n fs.next new) (err not_exist, fs)
      (truncated-IsTree flag fs.next new (grown-IsTree fs t a n (file_node perm) refl)) t

open_at-Kept :
    (flag : OpenFlag) (perm : ℕ) (o : Option (ℕ × Bytes)) (fs : MemFs)
    → IsTree fs
    → Kept (open_at flag perm o fs)
unfolding open_at
open_at-Kept flag perm none fs t = both Kept (flag.write_only || flag.read_write) _ _ t t
open_at-Kept flag perm (some (a, n)) fs t =
    both Kept (flag.sync || flag.append) _ _ t (open_child-Kept flag perm a n (child fs a n) fs t)

open_file-Kept :
    (name : Bytes) (flag : OpenFlag) (perm : ℕ) (fs : MemFs)
    → IsTree fs
    → Kept (open_file name flag perm fs)
unfolding open_file
open_file-Kept name flag perm fs t =
    after (find fs name) (open_at flag perm) fs t (λ o. open_at-Kept flag perm o fs t)

-- An open file's methods change the file system that stands beside it.
abbrev pub KeptBeside : {A : Type 0} → Result A × Opened → Type 0
KeptBeside o = Post (λ _ p. IsTree p.1) o

write-Kept : (p : Bytes) (f : MemFile) (fs : MemFs) → IsTree fs → KeptBeside (write p (f, fs))
unfolding write
write-Kept p f fs t =
    both KeptBeside (is_directory fs f.at_node) _ _ t (set_node-IsTree fs t f.at_node _ refl)

patch-Kept :
    (patches : List Proppatch) (f : MemFile) (fs : MemFs)
    → IsTree fs
    → KeptBeside (patch patches (f, fs))
unfolding patch
patch-Kept patches f fs t = set_node-IsTree fs t f.at_node _ refl

pub new_mem_fs-IsTree : (now : ℕ) → IsTree (new_mem_fs now)
unfolding new_mem_fs
new_mem_fs-IsTree now = record {
  root = omega arith;
  up = λ b. grounded b (λ a n e. (let k : none ≡ some b = sym (lookup-nil n) ∙ e in cc));
  used = λ a b n e. (let k : none ≡ some b = sym (lookup-nil n) ∙ e in cc);
  once = λ a b c n m e g. (let k : none ≡ some c = sym (lookup-nil n) ∙ e in cc);
}

-- A file system is a tree where the root is no node's child, every other node is the child of at most
-- one directory under one name, and the ways up from the nodes end, so that no node is below itself.
-- From a tree, Mkdir, OpenFile, RemoveAll and Rename, and Write and Patch of an open file, leave a
-- tree, whether they succeed or fail.
pub methods-keep_tree :
    (name other p : Bytes) (flag : OpenFlag) (perm : ℕ) (patches : List Proppatch) (f : MemFile)
    (fs : MemFs)
    → IsTree fs
    → Kept (mkdir name perm fs)
      × Kept (open_file name flag perm fs)
      × Kept (remove_all name fs)
      × Kept (rename name other fs)
      × KeptBeside (write p (f, fs))
      × KeptBeside (patch patches (f, fs))
methods-keep_tree name other p flag perm patches f fs t = (
  mkdir-Kept name perm fs t,
  open_file-Kept name flag perm fs t,
  remove_all-Kept name fs t,
  rename-Kept name other fs t,
  write-Kept p f fs t,
  patch-Kept patches f fs t,
)
