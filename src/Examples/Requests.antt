-- ===== src/Examples/Requests.antt =====
-- Requests and their bodies, and the properties of a file.
use webdav_serverless.Base.{
  true, false, none, some, List, [], ◌∷◌, ◌≡◌, ◌↔◌, refl, codes, bytes_eq, bytes_dec, arith, map, ℕ,
  ◌<◌, Bytes, All, beq, beq→eq, Bool-cases, inl, inr, if◌then◌else◌, subst, sym, ap, ◌∙◌,
}
use webdav_serverless.Base.Dict.{Dict, lookup}
use webdav_serverless.Errors.{Result, ok, err, not_exist}
use webdav_serverless.Answers.{proceed}
use webdav_serverless.Property.{Name, Property, Proppatch, Propstat, name_eq}
use webdav_serverless.Files.{Info, FileSystem}
use webdav_serverless.Path.{root}
use webdav_serverless.Path.Join.{join}
use webdav_serverless.FileTree.Walk.{WalkFn, walk_fs, infinite}
use webdav_serverless.FileTree.Walk.Total.{IsShallow, Ends, walk_fs-Ends}
use webdav_serverless.LiveProps.{Library, live_props, is_live}
use webdav_serverless.Props.{bare, propstat_of, props, allprop, patch, make_propstats}
use webdav_serverless.Props.Patched.{Refused, patch-Refused}
use webdav_serverless.Props.Found.{Found, props-Found}
use webdav_serverless.Requests.{Propfind, decoded, malformed, read_propfind}
use webdav_serverless.Requests.Accepted.{IsPropfind, read_propfind-IsPropfind}
use webdav_serverless.Responses.{Encoder}
use webdav_serverless.Handler.Methods.Multistatus.{Xml, find_stats}
use webdav_serverless.Handler.Methods.Multistatus.Included.{find_stats-allprop}
use webdav_serverless.Examples.Handler.{Names, an_info, no_files, handler, others}

abbrev encoder : Encoder Names
encoder = record {
  opened = λ s. false;
  set_opened = λ s. s;
  reset = λ s. s;
  prolog = λ s. (ok tt, s);
  start = λ s. (ok tt, s);
  encode = λ r s. (ok tt, s);
  finish = λ s. (ok tt, s);
}

abbrev all_with_include : Propfind
all_with_include = record {
  allprop = true;
  propname = false;
  prop = [];
  include = record { space = codes "DAV:"; local = codes "displayname" } ∷ [];
}

abbrev xml_package : Xml Names
xml_package = record {
  encoder = encoder;
  decode_propfind = λ b. decoded all_with_include;
  decode_proppatch = λ b. malformed;
  status_name = λ n. [];
  escaped_path = λ p. p;
  live_names = map (λ e. e.0) live_props;
}

abbrev library : Library
library = record {
  escape_text = λ s. s;
  format_time = λ t. [];
  mime_type = λ p. [];
  detect_content_type = λ b. codes "text/plain";
}

-- A file system with a directory "/" and a file in it, whose walks note the names that they visit.
abbrev one_file : FileSystem (List Bytes) (Unit {0})
one_file = record no_files {
  open_file = λ p writable s. (if beq p root then ok tt else err not_exist, s);
  readdir = λ f s. (ok (an_info ∷ []), s);
}

abbrev note : WalkFn (List Bytes)
note name i e s = (none, name ∷ s)

abbrev height : Bytes → ℕ
height p = if beq p root then 1 else 0

root-lower : (name : Bytes) → name ≡ root → height (join name an_info.name) < height name
unfolding join
root-lower name e = subst (λ n. height (join n an_info.name) < height n) (sym e) (omega arith)

opened-root :
    (name : Bytes) (s t : List Bytes) → one_file.open_file name false s ≡ (ok tt, t) → name ≡ root
opened-root name s t h = elim (Bool-cases (beq name root)) [
  | inl b ↦ beq→eq name root b
  | inr b ↦
      (let bad : ◌≡◌ {A = Result (Unit {0})} (err not_exist) (ok tt) =
          sym (ap (λ c. if c then ok tt else err not_exist) b)
          ∙ ap (λ (p : Result (Unit {0}) × List Bytes). p.0) h in
        cc)
]

one_file-IsShallow : IsShallow one_file (λ s. Unit) height
one_file-IsShallow = record {
  open_keeps = λ p s q. tt;
  stat_keeps = λ p s q. tt;
  readdir_keeps = λ f s q. tt;
  close_keeps = λ f s q. tt;
  lower = λ name s t u f cs q o r.
      subst (All (λ c. height (join name c.name) < height name)) (listed cs u t r)
        (root-lower name (opened-root name s t o), tt);
}
  where
    listed :
        (cs : List Info) (u t : List Bytes) → one_file.readdir tt t ≡ (ok cs, u) → an_info ∷ [] ≡ cs
    listed cs u t r = cc

walk_fs-Ends_example :
    Ends one_file note
      (λ s. Unit)
      height
      one_file-IsShallow
      (λ name i e s q. tt)
      (walk_fs one_file note 2 infinite root (record an_info { is_dir = true }) [])
unfolding bytes_eq
walk_fs-Ends_example =
    walk_fs-Ends one_file note (λ s. Unit) height one_file-IsShallow (λ name i e s q. tt) 2 infinite
      root (record an_info { is_dir = true }) [] tt (omega arith)

find_stats-allprop_example :
    find_stats handler library xml_package all_with_include (codes "/a")
    ≡ allprop no_files library (map (λ e. e.0) live_props) (codes "/a") []
unfolding read_propfind
find_stats-allprop_example =
    find_stats-allprop handler library xml_package [] all_with_include (codes "/a") refl refl

read_propfind-IsPropfind_example :
    (read_propfind (λ b. decoded all_with_include) [] ≡ proceed all_with_include)
    ↔ IsPropfind all_with_include
read_propfind-IsPropfind_example =
    read_propfind-IsPropfind (λ b. decoded all_with_include) [] all_with_include refl

abbrev etag_name : Name
etag_name = record { space = codes "DAV:"; local = codes "getetag" }

abbrev own_name : Name
own_name = record { space = codes "x:"; local = codes "y" }

abbrev pub a_patch : Proppatch
a_patch = record { remove = false; props = bare own_name ∷ bare etag_name ∷ [] }

patch-Refused_example :
    Refused no_files others (a_patch ∷ []) (patch no_files (codes "/a") (a_patch ∷ []) others)
unfolding is_live name_eq bytes_eq bytes_dec
patch-Refused_example = patch-Refused no_files (codes "/a") (a_patch ∷ []) others refl

abbrev etag_stats : List Propstat
etag_stats =
    propstat_of 200 (record { xml_name = etag_name; lang = []; inner_xml = codes "\"103\"" } ∷ [])
    ∷ propstat_of 404 (bare own_name ∷ [])
    ∷ []

props-Found_example :
    Found no_files library (codes "/a") (etag_name ∷ own_name ∷ []) others etag_stats
unfolding props make_propstats name_eq bytes_eq bytes_dec
props-Found_example =
    props-Found no_files library (codes "/a") (etag_name ∷ own_name ∷ []) others others etag_stats
      (λ f u v dead e n p k. nothing_held dead n p (cc) k) refl
  where
    nothing_held :
        (dead : Dict Name Property) (n : Name) (p : Property)
        → dead ≡ []
        → lookup n dead ≡ some p
        → p.xml_name ≡ n
    nothing_held [] n p e k = cc
    nothing_held (d ∷ dead) n p e k = cc
