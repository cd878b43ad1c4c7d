-- ===== src/Files.antt =====
-- webdav/file.go: the interfaces FileSystem and File, with the optional interfaces of a file and of a
-- file info (webdav/prop.go), as operations on a state `S` with files `F`.
use webdav_serverless.Base.{ℕ, Bool, Option, List, Bytes}
use webdav_serverless.Base.Dict.{Dict}
use webdav_serverless.Errors.{Result, Effect}
use webdav_serverless.Property.{Name, Property, Proppatch, Propstat}

-- What an optional method gives: a text or an error, and `ok none` for ErrNotImplemented.
abbrev pub Optional : Type 0
Optional = Result (Option Bytes)

-- An os.FileInfo. `perm` is Mode() & os.ModePerm; `e_tag` and `content_type` are the interfaces ETager
-- and ContentTyper, none where it is not implemented.
pub record Info : Type 0 where
  pub name : Bytes
  pub size : ℕ
  pub is_dir : Bool
  pub perm : ℕ
  pub mod_time : ℕ
  pub e_tag : Option Optional
  pub content_type : Option Optional

-- The io.Reader that Create gets: a text, such as the body of a request, or a file.
pub data Content (F : Type 0) : Type 0 where
  text : Bytes → Content F
  file : F → Content F

-- The program opens files with os.O_RDONLY, or with os.O_RDWR where `open_file` is given true, and
-- creates them with os.O_RDWR|os.O_CREATE|os.O_TRUNC. It lists a directory with counts of 0 and -1,
-- which both ask for all of it, and ignores the error of Close. `read_full` is io.ReadFull on a file,
-- where io.EOF and io.ErrUnexpectedEOF are no errors, and `rewind` is Seek(0, io.SeekStart).
-- `is_holder` tells whether a file implements DeadPropsHolder, with `dead_props` and `patch`.
pub record FileSystem (S F : Type 0) : Type 0 where
  pub mkdir : Bytes → ℕ → Effect S (Unit {0})
  pub open_file : Bytes → Bool → Effect S F
  pub create : Bytes → ℕ → Content F → Effect S Info
  pub remove_all : Bytes → Effect S (Unit {0})
  pub rename : Bytes → Bytes → Effect S (Unit {0})
  pub stat : Bytes → Effect S Info
  pub file_stat : F → Effect S Info
  pub readdir : F → Effect S (List Info)
  pub close : F → S → S
  pub read_full : F → ℕ → Effect S Bytes
  pub rewind : F → Effect S (Unit {0})
  pub is_holder : F → Bool
  pub dead_props : F → Effect S (Dict Name Property)
  pub patch : F → List Proppatch → Effect S (List Propstat)
