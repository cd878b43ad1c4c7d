-- ===== src/LiveProps.antt =====
-- webdav/prop.go: the live properties, and the functions that find their values.
use webdav_serverless.Base.{
  ℕ, zero, suc, ◌+◌, ◌%◌, ◌/◌, Bool, true, false, ◌&&◌, ◌||◌, not, Option, none, some, [], ◌∷◌,
  ◌++◌, Bytes, codes, bytes_eq, beq, if◌then◌else◌, ◌==◌, ltb, leb,
}
use webdav_serverless.Base.Dict.{Dict, lookup}
use webdav_serverless.Errors.{ok, err, Effect, pure, fail, ◌>>=◌, ◌>>◌}
use webdav_serverless.Path.{slash_clean, root}
use webdav_serverless.Property.{Name, name_eq}
use webdav_serverless.Files.{Info, Optional, FileSystem}
use webdav_serverless.Lock.Decimal.{format_uint}

-- The digits of fmt's verb %x, the last one first, as long as there is fuel; 16 are enough for 64 bits.
abbrev hex_digit : ℕ → ℕ
hex_digit d = if ltb d 10 then 48 + d else 87 + d

hex_digits : ℕ → ℕ → Bytes → Bytes
hex_digits zero n done = done
hex_digits (suc fuel) n done =
    let next = hex_digit (n % 16) ∷ done in
    let rest = hex_digits fuel (n / 16) next in if n / 16 == 0 then next else rest

unfoldable pub format_hex : ℕ → Bytes
unfolding hex_digits
format_hex n = hex_digits 16 n []

-- The text of an optional method, and a default where it is not there or not implemented.
abbrev pub optional : {S : Type 0} → Option Optional → Effect S Bytes → Effect S Bytes
optional none m = m
optional (some (ok none)) m = m
optional (some (ok (some text))) m = pure text
optional (some (err e)) m = fail e

unfoldable pub find_etag : {S : Type 0} → Info → Effect S Bytes
unfolding format_hex
find_etag i =
    optional i.e_tag (pure (b'"' ∷ format_hex i.mod_time ++ (format_hex i.size ++ b'"' ∷ [])))

-- The functions that the field findFn holds.
pub data Finder : Type 0 where
  resource_type display_name content_length last_modified content_type etag supported_lock : Finder

abbrev dav : Bytes → Name
dav local = record { space = codes "DAV:"; local = local }

-- `liveProps`, with findFn, or none for nil, and dir.
unfoldable pub live_props : Dict Name (Option Finder × Bool)
live_props =
    (dav (codes "resourcetype"), (some resource_type, true))
    ∷ (dav (codes "displayname"), (some display_name, true))
    ∷ (dav (codes "getcontentlength"), (some content_length, false))
    ∷ (dav (codes "getlastmodified"), (some last_modified, true))
    ∷ (dav (codes "creationdate"), (none, false))
    ∷ (dav (codes "getcontentlanguage"), (none, false))
    ∷ (dav (codes "getcontenttype"), (some content_type, false))
    ∷ (dav (codes "getetag"), (some etag, false))
    ∷ (dav (codes "lockdiscovery"), (none, false))
    ∷ (dav (codes "supportedlock"), (some supported_lock, true))
    ∷ []

-- `prop.findFn` if it is not nil and `prop.dir || !isDir`.
abbrev pub applies : Bool → Option (Option Finder × Bool) → Option Finder
applies is_dir none = none
applies is_dir (some (finder, for_dir)) = if for_dir || not is_dir then finder else none

unfoldable pub live_finder : Name → Bool → Option Finder
unfolding live_props lookup
live_finder n is_dir = applies is_dir (lookup n live_props)

unfoldable pub is_live : Name → Bool
unfolding live_props lookup
is_live n = elim (lookup n live_props) [ none ↦ false | some _ ↦ true ]

-- What is used of Go's library: xml.EscapeText, Format(http.TimeFormat), mime.TypeByExtension of
-- filepath.Ext, and http.DetectContentType.
pub record Library : Type 0 where
  pub escape_text : Bytes → Bytes
  pub format_time : ℕ → Bytes
  pub mime_type : Bytes → Bytes
  pub detect_content_type : Bytes → Bytes

-- A byte that escapeXML passes: ' ', '_', '+' to '9', and letters.
abbrev is_plain : ℕ → Bool
is_plain c =
    c == 32
    || c == b'_'
    || leb b'+' c && leb c b'9'
    || leb b'A' c && leb c b'Z'
    || leb b'a' c && leb c b'z'

abbrev pub all_plain : Bytes → Bool
all_plain [] = true
all_plain (c ∷ s) = is_plain c && all_plain s

-- A file's use up to the deferred Close.
abbrev pub closing : {S F A : Type 0} → FileSystem S F → F → Effect S A → Effect S A
closing fs f m s = let (r, t) = m s in (r, fs.close f t)

module _ {S F : Type 0} (fs : FileSystem S F) (lib : Library) where
  unfoldable pub escape_xml : Bytes → Bytes
  escape_xml s = if all_plain s then s else lib.escape_text s

  -- The type by the name's extension if there is one, or else by the first 512 bytes.
  abbrev pub content_type_of : F → Bytes → Effect S Bytes
  content_type_of f (c ∷ mime) = pure (c ∷ mime)
  content_type_of f [] = do
    buf ← fs.read_full f 512
    fs.rewind f
    pure (lib.detect_content_type buf)

  unfoldable pub find_content_type : Bytes → Info → Effect S Bytes
  find_content_type name i =
      optional i.content_type
        (do f ← fs.open_file name false; closing fs f (content_type_of f (lib.mime_type name)))

  unfoldable pub find : Finder → Bytes → Info → Effect S Bytes
  unfolding escape_xml find_content_type find_etag format_uint
  find resource_type name i =
      pure (if i.is_dir then codes "<D:collection xmlns:D=\"DAV:\"/>" else [])
  find display_name name i = pure (if beq (slash_clean name) root then [] else escape_xml i.name)
  find content_length name i = pure (format_uint i.size)
  find last_modified name i = pure (lib.format_time i.mod_time)
  find content_type name i = find_content_type name i
  find etag name i = find_etag i
  find supported_lock name i = pure (
      codes
        "<D:lockentry xmlns:D=\"DAV:\"><D:lockscope><D:exclusive/></D:lockscope><D:locktype><D:write/></D:locktype></D:lockentry>")
