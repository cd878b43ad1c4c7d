-- ===== src/Examples/MemFs.antt =====
-- A file system in memory with a directory "/a" and an open file "/f".
use webdav_serverless.Base.{true, false, [], ◌∷◌, codes, ◌≡◌, refl, arith, bytes_eq, bytes_dec}
use webdav_serverless.Base.Dict.{lookup, insert}
use webdav_serverless.Path.{split, slash_clean}
use webdav_serverless.Errors.{Post, ok, ◌>>=◌}
use webdav_serverless.Awsfs.FileReader.{seek_start}
use webdav_serverless.MemFs.{MemFs, new_mem_fs, mkdir, remove_all, rename, is_directory, set_node}
use webdav_serverless.MemFs.MemFile.{OpenFlag, MemFile, open_file, write, read, seek, patch}
use webdav_serverless.MemFs.MemFile.Writing.{written, write-written}
use webdav_serverless.MemFs.MemFile.Reading.{read-write}
use webdav_serverless.MemFs.Tree.{IsTree}
use webdav_serverless.MemFs.Kept.{Kept, KeptBeside, methods-keep_tree, new_mem_fs-IsTree}
use webdav_serverless.MemFs.Outcomes.{Made, Removed, Moved, changes-Post}
use webdav_serverless.Examples.Requests.{a_patch}

abbrev one_directory : MemFs
one_directory = (mkdir (codes "/a") 493 (new_mem_fs 5)).1

abbrev creating : OpenFlag
creating = record {
  write_only = false;
  read_write = true;
  create = true;
  exclusive = false;
  truncate = true;
  append = false;
  sync = false;
}

abbrev with_file : MemFs
with_file = (open_file (codes "/f") creating 420 one_directory).1

-- The file at "/f" as it is open, three bytes after its end.
abbrev the_file : MemFile
the_file = record { at_node = 2; name_snapshot = codes "f"; children_snapshot = []; pos = 3 }

one_directory-IsTree : IsTree one_directory
one_directory-IsTree =
    (methods-keep_tree (codes "/a") (codes "/b") [] creating 493 [] the_file (new_mem_fs 5)
      (new_mem_fs-IsTree 5)).0

test_open :
    (open_file (codes "/f") creating 420 one_directory).0
    ≡ ok (record { at_node = 2; name_snapshot = codes "f"; children_snapshot = []; pos = 0 })
unfolding open_file mkdir new_mem_fs lookup insert bytes_eq bytes_dec split slash_clean
test_open = refl

test_written : written (codes "xy") (codes "abc") 5 ≡ 97 ∷ 98 ∷ 99 ∷ 0 ∷ 0 ∷ 120 ∷ 121 ∷ []
test_written = refl

test_written_inside : written (codes "xy") (codes "abcd") 1 ≡ codes "axyd"
test_written_inside = refl

is_file : is_directory with_file 2 ≡ false
unfolding open_file mkdir new_mem_fs lookup insert bytes_eq bytes_dec split slash_clean
is_file = refl

methods-keep_tree_example :
    Kept (mkdir (codes "/b") 493 one_directory)
    × Kept (open_file (codes "/b") creating 493 one_directory)
    × Kept (remove_all (codes "/b") one_directory)
    × Kept (rename (codes "/b") (codes "/a") one_directory)
    × KeptBeside (write (codes "xy") (the_file, one_directory))
    × KeptBeside (patch (a_patch ∷ []) (the_file, one_directory))
methods-keep_tree_example =
    methods-keep_tree (codes "/b") (codes "/a") (codes "xy") creating 493 (a_patch ∷ []) the_file
      one_directory one_directory-IsTree

changes-Post_example :
    Post (Made (codes "/a") 420 one_directory) (mkdir (codes "/a") 420 one_directory)
    × Post (Removed (codes "/a") one_directory) (remove_all (codes "/a") one_directory)
    × Post
        (Moved (codes "/a") (codes "/b") one_directory)
        (rename (codes "/a") (codes "/b") one_directory)
changes-Post_example = changes-Post (codes "/a") (codes "/b") 420 one_directory one_directory-IsTree

write-written_example : write (codes "xy") (the_file, with_file) ≡ (
  ok 2,
  (
    record the_file { pos = 5 },
    set_node 2
        (record (with_file.node 2) {
          content = written (codes "xy") (with_file.node 2).content 3;
          mod_time = with_file.clock;
        })
        with_file,
  ),
)
write-written_example = write-written (codes "xy") the_file with_file is_file

read-write_example :
    ((write (codes "xy") >>= λ n. seek false 3 seek_start >>= λ q. read 2) (the_file, with_file)).0
    ≡ ok (codes "xy")
read-write_example = read-write (codes "xy") the_file with_file is_file (omega arith)
