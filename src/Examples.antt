-- ===== src/Examples.antt =====
-- Concrete inputs on which the theorems about awsfs are applied: tables that Init has filled and a
-- directory "/a", in memory.
pub mod Server
pub mod Parts
pub mod Lock
pub mod Handler
pub mod Requests
pub mod LockSystem
pub mod MemFs
use mathlib.Core.List.{flatten}
use webdav_serverless.Base.{
  ℕ, Bool, true, false, Option, none, some, List, [], ◌∷◌, ◌++◌, ◌≡◌, ◌≢◌, refl, sym, ap, ◌∙◌,
  subst, Bytes, codes, bytes_eq, bytes_dec, beq, beq_refl, has_prefix, if◌then◌else◌, contains,
  arith, map,
}
use webdav_serverless.Base.Dict.{Dict, lookup, insert, lookup-insert}
use webdav_serverless.Errors.{Post, ok, err, Result}
use webdav_serverless.Path.{root, slash, slash_clean, filepath_dir, IsClean}
use webdav_serverless.Path.Clean.{slash_clean-IsClean}
use webdav_serverless.Awsfs.{Entries, Reference, Entry, dir, file, reference_id}
use webdav_serverless.Awsfs.Dynamo.{Dynamo, Tables, Write, apply_all, apply_write}
use webdav_serverless.Awsfs.Dynamo.Memory.{memory, memory-IsLawful}
use webdav_serverless.Awsfs.Objects.{Reader, read_sized}
use webdav_serverless.Awsfs.Objects.Memory.{bucket, bucket-IsLawful}
use webdav_serverless.Awsfs.Metadata.{root_reference, root_entry, init}
use webdav_serverless.Awsfs.Metadata.Effects.{add_writes}
use webdav_serverless.Awsfs.Server.{World, new_entry, mkdir, remove_all, rename, create, open_file}
use webdav_serverless.Awsfs.Tree.{is_below}
use webdav_serverless.Awsfs.View.{IsTree, IsFresh}
use webdav_serverless.Awsfs.View.Writes.{next, add-IsTree}
use webdav_serverless.Awsfs.View.Init.{
  init_writes, init_writes-IsTree, InitPost, init-Post, lookup-root,
}
use webdav_serverless.Awsfs.Server.Mkdir.{MkdirPost, mkdir-Post}
use webdav_serverless.Awsfs.Server.RemoveAll.{RemovePost, remove_all-Post}
use webdav_serverless.Awsfs.Server.Rename.{RenamePost, rename-Post, Ranges}
use webdav_serverless.Awsfs.Server.Create.{CreatePost}
use webdav_serverless.Awsfs.Server.Create.Branches.{create-Post}
use webdav_serverless.Awsfs.Server.OpenFile.{OpenPost, open_file-Post}

abbrev pub no_tables : Tables
no_tables = record { references = λ i. none; entries = λ i. none }

abbrev pub id0 : Bytes
id0 = codes "0"

abbrev pub id1 : Bytes
id1 = codes "1"

abbrev pub id2 : Bytes
id2 = codes "2"

abbrev pub path_a : Bytes
path_a = codes "/a"

abbrev pub tables0 : Tables
tables0 = apply_all (init_writes id0 5) no_tables

abbrev pub ref0 : Reference
ref0 = root_reference id0

abbrev pub directory : Entry
directory = new_entry id1 id0 (codes "a") dir 0 7

abbrev pub tables1 : Tables
tables1 = apply_all (add_writes directory path_a ref0) tables0

abbrev pub ref1 : Reference
ref1 = next ref0 (insert path_a id1 ref0.entries)

abbrev pub world0 : World memory bucket
world0 = record { db = tables0; objects = λ i. none }

abbrev pub world1 : World memory bucket
world1 = record { db = tables1; objects = λ i. none }

tree0 : IsTree tables0 ref0
tree0 = init_writes-IsTree id0 5 no_tables

unlisted1 : (k : Bytes) → lookup k ref0.entries ≢ some id1
unlisted1 k h = ground (arith, lookup-root id0 k)

fresh1 : IsFresh id1 tables0 ref0
unfolding apply_all apply_write root_entry bytes_eq bytes_dec
fresh1 = (refl, unlisted1)

path_a-IsClean : IsClean path_a
unfolding slash_clean
path_a-IsClean = slash_clean-IsClean path_a

parent1 : lookup (filepath_dir path_a) ref0.entries ≢ none
unfolding filepath_dir root_reference lookup bytes_eq bytes_dec
parent1 e = cc

pub tree1 : IsTree tables1 ref1
tree1 = add-IsTree tree0 directory path_a fresh1 path_a-IsClean (λ e. cc) parent1

unlisted2 : (k : Bytes) → lookup k ref1.entries ≢ some id2
unlisted2 k h = ground (arith, lookup-root id0 k, lookup-insert k path_a id1 ref0.entries)

pub fresh2 : IsFresh id2 tables1 ref1
unfolding apply_all apply_write root_entry bytes_eq bytes_dec
fresh2 = (refl, unlisted2)

-- A file "/a/f" with an object.
abbrev pub a_file : Entry
a_file = new_entry id2 id1 (codes "f") file 5 8

abbrev pub path_f : Bytes
path_f = codes "/a/f"

abbrev pub ref2 : Reference
ref2 = next ref1 (insert path_f id2 ref1.entries)

abbrev pub world2 : World memory bucket
world2 = record {
  db = apply_all (add_writes a_file path_f ref1) tables1;
  objects = λ i. some (codes "hello");
}

path_f-IsClean : IsClean path_f
unfolding slash_clean
path_f-IsClean = slash_clean-IsClean path_f

parent2 : lookup (filepath_dir path_f) ref1.entries ≢ none
unfolding filepath_dir root_reference lookup bytes_eq bytes_dec insert
parent2 e = cc

pub tree2 : IsTree world2.db ref2
tree2 = add-IsTree tree1 a_file path_f fresh2 path_f-IsClean (λ e. cc) parent2

-- The keys of a map, which a range gives.
abbrev pub keys : Entries → List Bytes
keys [] = []
keys ((k, v) ∷ es) = k ∷ keys es

pub contains-keys : (k : Bytes) (es : Entries) → lookup k es ≢ none → contains (keys es) k ≡ true
unfolding lookup contains
contains-keys k [] h = absurd (h refl)
contains-keys k ((j, v) ∷ es) h = ground (arith, contains-keys k es)
