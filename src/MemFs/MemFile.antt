-- ===== src/MemFs/MemFile.antt =====
-- webdav/file.go: memFile, an open file of memFS.
pub mod Writing
pub mod Reading
use webdav_serverless.Base.{
  ℕ, zero, suc, ◌+◌, ◌-◌, Bool, true, false, ◌&&◌, ◌||◌, not, Option, none, some, List, [], ◌∷◌,
  ◌++◌, map, Bytes, codes, bytes_eq, beq, if◌then◌else◌, ltb, leb, ◌==◌, length, take, drop, ◌≡◌,
  refl,
}
use webdav_serverless.Base.Dict.{Dict, lookup, insert, erase}
use webdav_serverless.Errors.{
  Error, exist, not_exist, invalid, permission, eof, Result, ok, err, Effect, pure, fail, ◌>>=◌,
  ◌>>◌,
}
use webdav_serverless.Property.{Name, Property, Proppatch, Propstat, name_eq}
use webdav_serverless.Files.{Info}
use webdav_serverless.Awsfs.FileReader.{Whence, seek_start, seek_current, seek_end}
use webdav_serverless.Props.{bare_all, proposed, propstat_of}
use webdav_serverless.MemFs.{
  MemNode, MemFs, children_of, has_children, child, is_directory, set_node, set_child, with_node,
  stat_node, find, finding,
}

-- The bits of the flag that OpenFile looks at.
pub record OpenFlag : Type 0 where
  pub write_only : Bool
  pub read_write : Bool
  pub create : Bool
  pub exclusive : Bool
  pub truncate : Bool
  pub append : Bool
  pub sync : Bool

-- A memFile: the address of its node, its name, the infos of the children that the node had when it
-- was opened, and its position.
pub record MemFile : Type 0 where
  pub at_node : ℕ
  pub name_snapshot : Bytes
  pub children_snapshot : List Info
  pub pos : ℕ

abbrev pub child_infos : MemFs → Dict Bytes ℕ → List Info
child_infos fs [] = []
child_infos fs ((name, b) ∷ d) = stat_node name (fs.node b) ∷ child_infos fs d

unfoldable pub opened : ℕ → Bytes → MemFs → MemFile
unfolding stat_node
opened b name fs = record {
  at_node = b;
  name_snapshot = name;
  children_snapshot = child_infos fs (children_of (fs.node b).children);
  pos = 0;
}

abbrev pub truncated : OpenFlag → ℕ → MemFs → MemFs
truncated flag b fs =
    if (flag.write_only || flag.read_write) && flag.truncate
    then set_node b (record (fs.node b) { content = [] }) fs
    else fs

abbrev pub open_there : OpenFlag → Bytes → ℕ → Effect MemFs MemFile
open_there flag frag b fs = let t = truncated flag b fs in (ok (opened b frag t), t)

-- A node that is created has no modification time.
abbrev pub file_node : ℕ → MemNode
file_node perm = record { children = none; content = []; perm = perm; mod_time = 0; dead = [] }

unfoldable pub open_child : OpenFlag → ℕ → ℕ → Bytes → Option ℕ → Effect MemFs MemFile
open_child flag perm a frag (some b) fs =
    if flag.create && flag.exclusive then (err exist, fs) else open_there flag frag b fs
open_child flag perm a frag none fs =
    if flag.create
    then open_there flag frag fs.next (with_node (file_node perm) (set_child a frag fs.next fs))
    else (err not_exist, fs)

unfoldable pub open_at : OpenFlag → ℕ → Option (ℕ × Bytes) → Effect MemFs MemFile
unfolding open_child opened lookup
open_at flag perm none fs =
    if flag.write_only || flag.read_write
    then (err permission, fs)
    else (ok (opened 0 (codes "/") fs), fs)
open_at flag perm (some (a, frag)) fs =
    if flag.sync || flag.append
    then (err invalid, fs)
    else open_child flag perm a frag (child fs a frag) fs

unfoldable pub open_file : Bytes → OpenFlag → ℕ → Effect MemFs MemFile
unfolding open_at find
open_file name flag perm = do found ← finding name; open_at flag perm found

-- The methods of an open file, on the file and the file system.
abbrev pub Opened : Type 0
Opened = MemFile × MemFs

abbrev pub node_of : Opened → MemNode
node_of (f, fs) = fs.node f.at_node

-- Read of at most `n` bytes; nothing is read at the end (io.EOF).
unfoldable pub read : ℕ → Effect Opened Bytes
read n (f, fs) =
    let all = (node_of (f, fs)).content in
    let bytes = take n (drop f.pos all) in
    if is_directory fs f.at_node
    then (err invalid, (f, fs))
    else if leb (length all) f.pos
    then (err eof, (f, fs))
    else (ok bytes, (record f { pos = f.pos + length bytes }, fs))

-- A Readdir with a count of 0 or less, and one with a positive count.
unfoldable pub readdir_all : Effect Opened (List Info)
readdir_all (f, fs) =
    let n = length f.children_snapshot in
    if not (is_directory fs f.at_node)
    then (err invalid, (f, fs))
    else if leb n f.pos
    then (ok [], (f, fs))
    else (ok f.children_snapshot, (record f { pos = n }, fs))

unfoldable pub readdir_some : ℕ → Effect Opened (List Info)
readdir_some count (f, fs) =
    let n = length f.children_snapshot in
    let end = if ltb n (f.pos + count) then n else f.pos + count in
    if not (is_directory fs f.at_node)
    then (err invalid, (f, fs))
    else if leb n f.pos
    then (err eof, (f, fs))
    else (ok (take (end - f.pos) (drop f.pos f.children_snapshot)), (record f { pos = end }, fs))

-- Seek to `n` bytes after or, where `back` is true, before a place.
abbrev seek_position : Bool → ℕ → ℕ → Option ℕ
seek_position false n at = some (at + n)
seek_position true n at = if leb n at then some (at - n) else none

abbrev seek_place : Whence → Opened → ℕ
seek_place seek_start _ = 0
seek_place seek_current (f, fs) = f.pos
seek_place seek_end (f, fs) = length (node_of (f, fs)).content

abbrev sought : Option ℕ → Effect Opened ℕ
sought none o = (err invalid, o)
sought (some n) (f, fs) = (ok n, (record f { pos = n }, fs))

unfoldable pub seek : Bool → ℕ → Whence → Effect Opened ℕ
seek back n whence o = sought (seek_position back n (seek_place whence o)) o

unfoldable pub stat : Opened → Info
unfolding stat_node
stat (f, fs) = stat_node f.name_snapshot (node_of (f, fs))

abbrev pub zeros : ℕ → Bytes
zeros zero = []
zeros (suc n) = 0 ∷ zeros n

-- The contents, the position and the bytes that are left once Write has overwritten what lies after
-- the position, or has filled the hole before it with zeros. Whether the hole fits into the capacity
-- of the slice makes no difference to its bytes.
unfoldable pub overwrite : Bytes → Bytes → ℕ → Bytes × ℕ × Bytes
overwrite p all pos =
    let copied = take (length all - pos) p in
    if ltb pos (length all)
    then (
      take pos all ++ (copied ++ drop (pos + length copied) all),
      pos + length copied,
      drop (length copied) p,
    )
    else if ltb (length all) pos
    then (all ++ zeros (pos - length all), pos, p)
    else (all, pos, p)

abbrev pub extend : Bytes × ℕ × Bytes → Bytes × ℕ
extend (all, pos, []) = (all, pos)
extend (all, pos, c ∷ p) = let longer = all ++ c ∷ p in (longer, length longer)

unfoldable pub write : Bytes → Effect Opened ℕ
unfolding overwrite
write p (f, fs) =
    let n = node_of (f, fs) in
    let (all, pos) = extend (overwrite p n.content f.pos) in
    if is_directory fs f.at_node then (err invalid, (f, fs)) else (
      ok (length p),
      (
        record f { pos = pos },
        set_node f.at_node (record n { content = all; mod_time = fs.clock }) fs,
      ),
    )

-- DeadProps gives a copy of the map, and Patch changes it.
unfoldable pub dead_props : Opened → Dict Name Property
dead_props o = (node_of o).dead

abbrev pub patch_each : Bool → List Property → Dict Name Property → Dict Name Property
patch_each remove [] d = d
patch_each true (p ∷ ps) d = patch_each true ps (erase p.xml_name d)
patch_each false (p ∷ ps) d = patch_each false ps (insert p.xml_name p d)

unfoldable pub patch_dead : List Proppatch → Dict Name Property → Dict Name Property
unfolding insert erase name_eq
patch_dead [] d = d
patch_dead (patch ∷ patches) d = patch_dead patches (patch_each patch.remove patch.props d)

unfoldable pub patch : List Proppatch → Effect Opened (List Propstat)
unfolding patch_dead
patch patches (f, fs) =
    let n = node_of (f, fs) in
    (
      ok (propstat_of 200 (bare_all (proposed patches)) ∷ []),
      (f, set_node f.at_node (record n { dead = patch_dead patches n.dead }) fs),
    )
