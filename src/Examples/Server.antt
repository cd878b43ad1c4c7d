-- ===== src/Examples/Server.antt =====
-- The methods of Server on the tables of Examples.
use mathlib.Core.List.{flatten}
use webdav_serverless.Base.{
  false, [], ◌∷◌, ◌≡◌, refl, Bytes, codes, bytes_eq, bytes_dec, has_prefix,
}
use webdav_serverless.Errors.{Post, ok}
use webdav_serverless.Path.{slash_clean}
use webdav_serverless.Awsfs.Dynamo.Memory.{memory, memory-IsLawful}
use webdav_serverless.Awsfs.Objects.{Reader}
use webdav_serverless.Awsfs.Objects.Memory.{bucket, bucket-IsLawful}
use webdav_serverless.Awsfs.Metadata.{init}
use webdav_serverless.Awsfs.Server.{mkdir, remove_all, rename, create, open_file}
use webdav_serverless.Awsfs.Tree.{is_below}
use webdav_serverless.Awsfs.View.Init.{InitPost, init-Post}
use webdav_serverless.Awsfs.Server.Mkdir.{MkdirPost, mkdir-Post}
use webdav_serverless.Awsfs.Server.RemoveAll.{RemovePost, remove_all-Post}
use webdav_serverless.Awsfs.Server.Rename.{RenamePost, rename-Post, Ranges}
use webdav_serverless.Awsfs.Server.Create.{CreatePost}
use webdav_serverless.Awsfs.Server.Create.Branches.{create-Post}
use webdav_serverless.Awsfs.Server.{stat}
use webdav_serverless.Awsfs.Server.Stat.{StatPost, stat-Post}
use webdav_serverless.Awsfs.FileReader.Copy.{ReadPost, open_file-ReadPost}
use webdav_serverless.Awsfs.Server.OpenFile.{OpenPost, open_file-Post}
use webdav_serverless.Examples.{
  path_f, world2, ref2, tree2, no_tables, id0, id2, path_a, ref1, world1, tree1, fresh2, keys,
  contains-keys,
}

mkdir_example :
    Post
      (MkdirPost memory memory-IsLawful bucket id2 9 (slash_clean (codes "/a/b/")) world1)
      (mkdir memory bucket id2 9 (codes "/a/b/") world1)
mkdir_example =
    mkdir-Post memory memory-IsLawful bucket id2 9 (codes "/a/b/") world1 ref1 tree1 fresh2

remove_all_example :
    Post
      (RemovePost memory memory-IsLawful bucket (slash_clean (codes "/a")) world1)
      (remove_all memory bucket (codes "/a") world1)
remove_all_example = remove_all-Post memory memory-IsLawful bucket (codes "/a") world1 ref1 tree1

keys-Ranges : (old : Bytes) → Ranges old keys
keys-Ranges old es k h present = contains-keys k es present

apart : is_below path_a (codes "/c") ≡ false
unfolding is_below has_prefix bytes_eq bytes_dec
apart = refl

apart' : is_below (codes "/c") path_a ≡ false
unfolding is_below has_prefix bytes_eq bytes_dec
apart' = refl

rename_example :
    Post
      (RenamePost memory memory-IsLawful bucket
        (slash_clean path_a)
        (slash_clean (codes "/c"))
        world1)
      (rename memory bucket keys path_a (codes "/c") world1)
unfolding slash_clean
rename_example =
    rename-Post memory memory-IsLawful bucket keys path_a (codes "/c") world1 ref1 tree1 apart
      apart' (keys-Ranges path_a)

abbrev chunks : Reader
chunks = codes "hel" ∷ codes "lo" ∷ []

create_example :
    Post
      (CreatePost memory bucket id2 (slash_clean (codes "/a/f")) 9 (flatten chunks) world1)
      (create memory bucket id2 9 (codes "/a/f") chunks world1)
create_example =
    create-Post memory bucket memory-IsLawful bucket-IsLawful id2 9 (codes "/a/f") chunks world1
      ref1 tree1 fresh2

open_file_example :
    Post
      (OpenPost memory bucket (slash_clean (codes "/a")) ok world1)
      (open_file memory bucket ok (codes "/a") world1)
open_file_example =
    open_file-Post memory bucket memory-IsLawful bucket-IsLawful ok (codes "/a") world1 ref1 tree1

open_file-ReadPost_example :
    Post
      (ReadPost memory bucket (slash_clean path_f) ok 2 world2)
      (open_file memory bucket ok path_f world2)
open_file-ReadPost_example =
    open_file-ReadPost memory bucket memory-IsLawful bucket-IsLawful ok path_f world2 ref2 2 tree2

stat_example :
    Post
      (StatPost memory bucket (slash_clean (codes "/a")) world1)
      (stat memory bucket (codes "/a") world1)
stat_example = stat-Post memory bucket memory-IsLawful (codes "/a") world1 ref1 tree1

init_example : Post (InitPost memory memory-IsLawful id0 5 no_tables) (init memory id0 5 no_tables)
init_example = init-Post memory memory-IsLawful id0 5 no_tables
