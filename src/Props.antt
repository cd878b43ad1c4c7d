-- ===== src/Props.antt =====
-- webdav/prop.go: what PROPFIND and PROPPATCH do with the properties of a resource.
pub mod Named
pub mod Found
pub mod Patched
use webdav_serverless.Base.{
  ℕ, zero, suc, ◌+◌, ◌-◌, ◌*◌, ◌%◌, ◌/◌, Bool, true, false, ◌&&◌, ◌||◌, not, Option, none, some,
  List, [], ◌∷◌, ◌++◌, map, Bytes, codes, bytes_eq, beq, contains, keep, any, if◌then◌else◌, ◌==◌,
  ltb, leb,
}
use webdav_serverless.Base.Dict.{Dict, lookup}
use webdav_serverless.Errors.{Error, Result, ok, err, Effect, pure, fail, ◌>>=◌, ◌>>◌}
use webdav_serverless.Path.{slash_clean, root}
use webdav_serverless.Property.{Name, Property, Proppatch, Propstat, name_eq}
use webdav_serverless.Files.{Info, Optional, FileSystem}
use webdav_serverless.Lock.Decimal.{format_uint}
use webdav_serverless.LiveProps.{
  Finder, Library, live_props, live_finder, is_live, applies, closing, find,
}

-- makePropstats
unfoldable pub make_propstats : Propstat → Propstat → List Propstat
make_propstats x y = elim x.props [
  | [] ↦ elim y.props [
    | [] ↦ record { props = []; status = 200; xml_error = []; response_description = [] } ∷ []
    | _ ∷ _ ↦ y ∷ []
  ]
  | _ ∷ _ ↦ elim y.props [ [] ↦ x ∷ [] | _ ∷ _ ↦ x ∷ y ∷ [] ]
]

abbrev pub propstat_of : ℕ → List Property → Propstat
propstat_of status ps = record {
  props = ps;
  status = status;
  xml_error = [];
  response_description = [];
}

-- `Property{XMLName: n}`
abbrev pub bare : Name → Property
bare n = record { xml_name = n; lang = []; inner_xml = [] }

abbrev pub is_found : Bool → Name → Bool
is_found is_dir n = elim (live_finder n is_dir) [ none ↦ false | some _ ↦ true ]

-- The properties of patches, in their order.
abbrev pub proposed : List Proppatch → List Property
proposed [] = []
proposed (patch ∷ patches) = patch.props ++ proposed patches

abbrev pub bare_all : List Property → List Property
bare_all ps = map (λ (p : Property). bare p.xml_name) ps

abbrev pub bare_stat : Propstat → Propstat
bare_stat st = record st { props = bare_all st.props }

-- A property that is found, and one that is not.
pub data Lookup : Type 0 where
  present absent : Property → Lookup

abbrev pub add : Lookup → List Property × List Property → List Property × List Property
add (present p) (found, missing) = (found ++ p ∷ [], missing)
add (absent p) (found, missing) = (found, missing ++ p ∷ [])

abbrev pub propstats_of : List Property × List Property → List Propstat
propstats_of (found, missing) = make_propstats (propstat_of 200 found) (propstat_of 404 missing)

-- patch, on the branch where a patch names a live property.
abbrev pub conflict_props : List Property → List Propstat
conflict_props ps =
    make_propstats
      (record (propstat_of 403 (bare_all (keep (λ p. is_live p.xml_name) ps))) {
        xml_error = codes "<D:cannot-modify-protected-property xmlns:D=\"DAV:\"/>";
      })
      (propstat_of 424 (bare_all (keep (λ p. not (is_live p.xml_name)) ps)))

module _ {S F : Type 0} (fs : FileSystem S F) where
  abbrev pub dead_of : F → Effect S (Dict Name Property)
  dead_of f = if fs.is_holder f then fs.dead_props f else pure []

  -- What props and propnames begin with: the file, its Stat and its dead properties.
  abbrev pub with_file :
      {A : Type 0} → Bytes → (Info → Dict Name Property → Effect S A) → Effect S A
  with_file name k = do
    f ← fs.open_file name false
    closing fs f (do i ← fs.file_stat f; dead ← dead_of f; k i dead)

  -- The names of the live properties that apply, and of the dead ones. `order` has the names of
  -- liveProps in the order of Go's range over it; the dead properties are in the order of the list.
  unfoldable pub propnames : List Name → Bytes → Effect S (List Name)
  unfolding live_finder
  propnames order name =
      with_file name λ i dead. pure (keep (is_found i.is_dir) order ++ map (λ e. e.0) dead)

  abbrev pub patch_file : F → List Proppatch → Effect S (List Propstat)
  patch_file f patches =
      if fs.is_holder f
      then (do stats ← fs.patch f patches; pure (map bare_stat stats))
      else pure (propstat_of 403 (bare_all (proposed patches)) ∷ [])

  unfoldable pub patch : Bytes → List Proppatch → Effect S (List Propstat)
  unfolding make_propstats is_live
  patch name patches =
      if any (λ p. is_live p.xml_name) (proposed patches)
      then pure (conflict_props (proposed patches))
      else (do f ← fs.open_file name true; closing fs f (patch_file f patches))

module _ {S F : Type 0} (fs : FileSystem S F) (lib : Library) where
  abbrev pub prop_at : Bytes → Info → Name → Option Property → Option Finder → Effect S Lookup
  prop_at name i n (some p) _ = pure (present p)
  prop_at name i n none (some finder) = do
    text ← find fs lib finder name i
    pure (present (record { xml_name = n; lang = []; inner_xml = text }))
  prop_at name i n none none = pure (absent (bare n))

  -- The loop of props, with pstatOK.Props and pstatNotFound.Props.
  unfoldable pub prop_loop :
      Bytes
      → Info
      → Dict Name Property
      → List Name
      → List Property × List Property
      → Effect S (List Property × List Property)
  unfolding find lookup live_finder
  prop_loop name i dead [] acc = pure acc
  prop_loop name i dead (n ∷ ns) acc = do
    r ← prop_at name i n (lookup n dead) (live_finder n i.is_dir)
    prop_loop name i dead ns (add r acc)

  unfoldable pub props : Bytes → List Name → Effect S (List Propstat)
  unfolding prop_loop
  props name ns =
      with_file fs name
        λ i dead. do acc ← prop_loop name i dead ns ([], []); pure (propstats_of acc)

  unfoldable pub allprop : List Name → Bytes → List Name → Effect S (List Propstat)
  unfolding propnames props contains
  allprop order name include = do
    ns ← propnames fs order name
    props name (ns ++ keep (λ n. not (contains ns n)) include)
