-- ===== src/Awsfs/FileReader.antt =====
-- awsfs/open.go: the methods of FileReader.
pub mod Copy
use webdav_serverless.Base.{
  ℕ, zero, suc, ◌+◌, ◌-◌, Bool, true, false, Option, none, some, List, [], ◌∷◌, ◌++◌, ◌≡◌, refl,
  Bytes, codes, bytes_eq, if◌then◌else◌, length, drop, take, map, leb, Eq, ap,
}
use webdav_serverless.Base.Dict.{Dict, insert, erase}
use webdav_serverless.Errors.{
  Error, not_supported, invalid, service, Result, ok, err, Effect, pure, fail, ◌>>=◌, ◌>>◌,
}
use webdav_serverless.Property.{Name, Property, Proppatch, Propstat, name_eq}
use webdav_serverless.Awsfs.{Entry, EntryType, file, dir, is_dir}
use webdav_serverless.Awsfs.Dynamo.{Dynamo}
use webdav_serverless.Awsfs.Metadata.{get_entries_by_parent_id, update_entry}
use webdav_serverless.Awsfs.Server.{FileInfo, file_info, TempFile, FileReader}

-- What a Read of at most `n` bytes gives: the bytes, none of them where the end has been reached
-- (io.EOF). There is no temporary file for a directory, and a Read of a nil *os.File is an error.
read_temp : ℕ → Option TempFile → Result (Bytes × TempFile)
read_temp n none = err invalid
read_temp n (some t) =
    let bytes = take n (drop t.offset t.content) in
    ok (bytes, record t { offset = t.offset + length bytes })

unfoldable pub read : ℕ → FileReader → Result (Bytes × FileReader)
unfolding read_temp
read n f = elim (read_temp n f.temp_file) [
  | err e ↦ err e
  | ok (bytes, t) ↦ ok (bytes, record f { temp_file = some t })
]

-- How Seek reads its offset: io.SeekStart, io.SeekCurrent and io.SeekEnd.
pub data Whence : Type 0 where
  seek_start seek_current seek_end : Whence

-- The offset that a Seek goes to, where `back` says that the argument is negative, and none for a
-- place before the start of the file.
abbrev pub seek_from : Whence → TempFile → ℕ
seek_from seek_start t = 0
seek_from seek_current t = t.offset
seek_from seek_end t = length t.content

unfoldable pub seek_to : Bool → ℕ → Whence → TempFile → Option ℕ
seek_to false n whence t = some (seek_from whence t + n)
seek_to true n whence t = if leb n (seek_from whence t) then some (seek_from whence t - n) else none

seek_temp : Bool → ℕ → Whence → Option TempFile → Result (ℕ × TempFile)
unfolding seek_to
seek_temp back n whence none = err invalid
seek_temp back n whence (some t) = elim (seek_to back n whence t) [
  | none ↦ err invalid
  | some i ↦ ok (i, record t { offset = i })
]

unfoldable pub seek : Bool → ℕ → Whence → FileReader → Result (ℕ × FileReader)
unfolding seek_temp
seek back n whence f = elim (seek_temp back n whence f.temp_file) [
  | err e ↦ err e
  | ok (i, t) ↦ ok (i, record f { temp_file = some t })
]

-- io.Copy from a FileReader: Reads of `size` bytes at most until one gives nothing.
unfoldable pub copy_all : ℕ → ℕ → FileReader → Result Bytes
unfolding read
copy_all zero size f = ok []
copy_all (suc fuel) size f = elim (read size f) [
  | err e ↦ err e
  | ok ([], g) ↦ ok []
  | ok (c ∷ bytes, g) ↦ elim (copy_all fuel size g) [
    | err e ↦ err e
    | ok rest ↦ ok (c ∷ bytes ++ rest)
  ]
]

unfoldable pub reader_stat : FileReader → FileInfo
unfolding file_info
reader_stat f = file_info f.entry

unfoldable pub write : Bytes → FileReader → Result ℕ
write bytes f = err not_supported

abbrev pub prop_key : Property → Bytes
prop_key p = p.xml_name.space ++ (codes ":" ++ p.xml_name.local)

-- The properties of a patch, with the inner loop of Patch.
patch_props :
    (Property → Result Bytes) → Bool → List Property → Dict Bytes Bytes → Result (Dict Bytes Bytes)
patch_props marshal remove [] d = ok d
patch_props marshal true (p ∷ ps) d = patch_props marshal true ps (erase (prop_key p) d)
patch_props marshal false (p ∷ ps) d = elim (marshal p) [
  | err e ↦ err e
  | ok text ↦ patch_props marshal false ps (insert (prop_key p) text d)
]

unfoldable pub patch_all :
    (Property → Result Bytes) → List Proppatch → Dict Bytes Bytes → Result (Dict Bytes Bytes)
unfolding patch_props
patch_all marshal [] d = ok d
patch_all marshal (patch ∷ patches) d = elim (patch_props marshal patch.remove patch.props d) [
  | err e ↦ err e
  | ok d' ↦ patch_all marshal patches d'
]

abbrev pub patched_props : List Proppatch → List Property
patched_props [] = []
patched_props (patch ∷ patches) = patch.props ++ patched_props patches

-- `props[prop.XMLName] = prop` for each of the texts, as xml.Unmarshal reads them.
unfoldable pub dead_props_of :
    (Bytes → Result Property) → Dict Bytes Bytes → Result (Dict Name Property)
dead_props_of unmarshal [] = ok []
dead_props_of unmarshal ((k, text) ∷ d) = elim (unmarshal text) [
  | err e ↦ err e
  | ok p ↦ elim (dead_props_of unmarshal d) [
    | err e ↦ err e
    | ok props ↦ ok (insert p.xml_name p props)
  ]
]

unfoldable pub dead_props : (Bytes → Result Property) → FileReader → Result (Dict Name Property)
unfolding dead_props_of
dead_props unmarshal f = dead_props_of unmarshal f.entry.dead_props

module _ (D : Dynamo) where
  -- A directory lists the entries with its id as their parent id, a file lists nothing.
  list_of : EntryType → Bytes → Effect D.State (List FileInfo)
  unfolding file_info
  list_of file id = pure []
  list_of dir id = do entries ← get_entries_by_parent_id D id; pure (map file_info entries)

  unfoldable pub readdir : FileReader → Effect D.State (List FileInfo)
  unfolding list_of
  readdir f = list_of f.entry.type f.entry.id

  -- Patch, with xml.Marshal. The receiver, whose map of properties it changes, is not modelled after it.
  unfoldable pub patch :
      (Property → Result Bytes) → List Proppatch → FileReader → Effect D.State (List Propstat)
  unfolding patch_all
  patch marshal patches f = do
    d ← λ s. (patch_all marshal patches f.entry.dead_props, s)
    update_entry D (record f.entry { dead_props = d })
    pure (
        record {
          props = patched_props patches;
          status = 200;
          xml_error = [];
          response_description = [];
        }
        ∷ [])
