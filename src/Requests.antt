-- ===== src/Requests.antt =====
-- webdav/xml.go: how the bodies of LOCK, PROPFIND and PROPPATCH requests are read. The decoder of
-- XML (webdav/internal/xml) is a parameter; its callback for names is on the tokens that it gives.
pub mod Accepted
use webdav_serverless.Base.{
  ℕ, Bool, true, false, ◌&&◌, ◌||◌, not, Option, none, some, List, [], ◌∷◌, ◌++◌, Bytes, codes,
  bytes_eq, beq, if◌then◌else◌, map, any,
}
use webdav_serverless.Answers.{Answer, proceed, answer}
use webdav_serverless.Property.{Name, Property, Proppatch, name_eq}

-- What Decode gives: a value, io.EOF, or another error.
pub data Decoded (A : Type 0) : Type 0 where
  decoded : A → Decoded A
  at_eof malformed : Decoded A

-- `exclusive`, `shared` and `write` say that a pointer is not nil; a lockInfo also has a name.
pub record LockInfo : Type 0 where
  pub exclusive : Bool
  pub shared : Bool
  pub write : Bool
  pub owner_xml : Bytes

-- None is the zero lockInfo of an empty body. Decode has read nothing where the body is empty.
abbrev pub checked_lock_info : LockInfo → Answer (Option LockInfo)
checked_lock_info li =
    if not li.exclusive || li.shared || not li.write then answer 501 else proceed (some li)

unfoldable pub read_lock_info : (Bytes → Decoded LockInfo) → Bytes → Answer (Option LockInfo)
read_lock_info decode body = elim (decode body) [
  | at_eof ↦ if beq body [] then proceed none else answer 400
  | malformed ↦ answer 400
  | decoded li ↦ checked_lock_info li
]

-- The fields of a propfind; a slice is nil where its element is missing or has no names.
pub record Propfind : Type 0 where
  pub allprop : Bool
  pub propname : Bool
  pub prop : List Name
  pub include : List Name

abbrev pub is_nil : List Name → Bool
is_nil [] = true
is_nil (n ∷ ns) = false

abbrev pub checked_propfind : Propfind → Answer Propfind
checked_propfind pf =
    if not pf.allprop && not (is_nil pf.include)
    then answer 400
    else if pf.allprop && (not (is_nil pf.prop) || pf.propname)
    then answer 400
    else if not (is_nil pf.prop) && pf.propname
    then answer 400
    else if not pf.propname && not pf.allprop && is_nil pf.prop
    then answer 400
    else proceed pf

abbrev pub all_properties : Propfind
all_properties = record { allprop = true; propname = false; prop = []; include = [] }

unfoldable pub read_propfind : (Bytes → Decoded Propfind) → Bytes → Answer Propfind
read_propfind decode body = elim (decode body) [
  | at_eof ↦ if beq body [] then proceed all_properties else answer 400
  | malformed ↦ answer 400
  | decoded pf ↦ checked_propfind pf
]

pub record SetRemove : Type 0 where
  pub xml_name : Name
  pub prop : List Property

abbrev pub dav : Bytes → Name
dav local = record { space = codes "DAV:"; local = local }

abbrev has_value : Property → Bool
has_value p = not (beq p.inner_xml [])

-- One round of the loop: the patch, or none for errInvalidProppatch.
unfoldable pub read_operation : SetRemove → Option Proppatch
read_operation op =
    if beq op.xml_name (dav (codes "set"))
    then some (record { remove = false; props = op.prop })
    else if beq op.xml_name (dav (codes "remove"))
    then (if any has_value op.prop then none else some (record { remove = true; props = op.prop }))
    else none

abbrev with_operation : Option Proppatch → Option (List Proppatch) → Option (List Proppatch)
with_operation none rest = none
with_operation (some p) none = none
with_operation (some p) (some ps) = some (p ∷ ps)

unfoldable pub read_operations : List SetRemove → Option (List Proppatch)
unfolding read_operation
read_operations [] = some []
read_operations (op ∷ ops) = with_operation (read_operation op) (read_operations ops)

abbrev checked_patches : Option (List Proppatch) → Answer (List Proppatch)
checked_patches none = answer 400
checked_patches (some ps) = proceed ps

unfoldable pub read_proppatch : (Bytes → Decoded (List SetRemove)) → Bytes → Answer (List Proppatch)
unfolding read_operations
read_proppatch decode body = elim (decode body) [
  | at_eof ↦ answer 400
  | malformed ↦ answer 400
  | decoded ops ↦ checked_patches (read_operations ops)
]

-- The tokens of the decoder. A Comment, a Directive and a ProcInst are `ignored`.
pub data XmlToken : Type 0 where
  start_element : Name → XmlToken
  end_element : Name → XmlToken
  char_data : Bytes → XmlToken
  ignored : XmlToken

abbrev pub finish : List Name → List XmlToken → Option (List Name × List XmlToken)
finish [] ts = none
finish (n ∷ ns) ts = some (n ∷ ns, ts)

-- propfindProps.UnmarshalXML on the names that stand in it already; `opened` is the name of a start
-- element whose end is to come. Its calls of next, which skips what is ignored, are part of the loop.
unfoldable pub unmarshal_names :
    Option Name → List Name → List XmlToken → Option (List Name × List XmlToken)
unmarshal_names opened ns [] = none
unmarshal_names opened ns (ignored ∷ ts) = unmarshal_names opened ns ts
unmarshal_names none ns (end_element n ∷ ts) = finish ns ts
unmarshal_names none ns (char_data s ∷ ts) = unmarshal_names none ns ts
unmarshal_names none ns (start_element n ∷ ts) = unmarshal_names (some n) ns ts
unmarshal_names (some m) ns (end_element n ∷ ts) = unmarshal_names none (ns ++ m ∷ []) ts
unmarshal_names (some m) ns (_ ∷ ts) = none
