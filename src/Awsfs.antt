-- ===== src/Awsfs.antt =====
-- awsfs: the file system over DynamoDB and S3. The types of awsfs/fs.go.
pub mod Dynamo
pub mod Metadata
pub mod Objects
pub mod Tree
pub mod View
pub mod Server
pub mod FileReader
use webdav_serverless.Base.{ℕ, Bool, true, false, Bytes, codes}
use webdav_serverless.Base.Dict.{Dict}

pub data EntryType : Type 0 where
  file dir : EntryType

-- Paths by the ids of their entries.
abbrev pub Entries : Type 0
Entries = Dict Bytes Bytes

pub record Reference : Type 0 where
  pub id : Bytes
  pub entries : Entries
  pub version : ℕ

pub record Entry : Type 0 where
  pub id : Bytes
  pub parent_id : Bytes
  pub name : Bytes
  pub type : EntryType
  pub size : ℕ
  pub modify : ℕ
  pub dead_props : Dict Bytes Bytes
  pub version : ℕ

abbrev pub is_dir_type : EntryType → Bool
is_dir_type dir = true
is_dir_type file = false

unfoldable pub is_dir : Entry → Bool
is_dir e = is_dir_type e.type

abbrev pub reference_id : Bytes
reference_id = codes "root"
