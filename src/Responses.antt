-- ===== src/Responses.antt =====
-- webdav/xml.go: the responses to PROPFIND, PROPPATCH and LOCK requests; and makePropstatResponse of
-- webdav/webdav.go. Go's encoder of XML, which may fail, is a parameter.
use webdav_serverless.Base.{
  ℕ, ◌/◌, Bool, false, ◌||◌, not, Option, none, some, List, [], ◌∷◌, ◌++◌, Bytes, codes, bytes_eq,
  beq, if◌then◌else◌, map, any, ◌==◌, length,
}
use webdav_serverless.Errors.{invalid_response, ok, Effect, fail, ◌>>◌}
use webdav_serverless.Property.{Property, Propstat}
use webdav_serverless.Lock.{LockDetails}
use webdav_serverless.Lock.Decimal.{format_uint}

-- A propstat, whose status is a text.
pub record StatusProps : Type 0 where
  pub prop : List Property
  pub status : Bytes
  pub error : Option Bytes
  pub description : Bytes

pub record Response : Type 0 where
  pub href : List Bytes
  pub propstat : List StatusProps
  pub status : Bytes

abbrev optional_error : Bytes → Option Bytes
optional_error [] = none
optional_error (c ∷ s) = some (c ∷ s)

-- The first argument is StatusText, the second one EscapedPath of a url.URL.
unfoldable pub status_props : (ℕ → Bytes) → Propstat → StatusProps
unfolding format_uint
status_props text p = record {
  prop = p.props;
  status = codes "HTTP/1.1 " ++ (format_uint p.status ++ (codes " " ++ text p.status));
  error = optional_error p.xml_error;
  description = p.response_description;
}

unfoldable pub make_propstat_response :
    (ℕ → Bytes) → (Bytes → Bytes) → Bytes → List Propstat → Response
unfolding status_props
make_propstat_response text escaped_path href stats = record {
  href = escaped_path href ∷ [];
  propstat = map (status_props text) stats;
  status = [];
}

-- propstat.MarshalXML: a name in "DAV:" is printed with the prefix "D:".
unfoldable pub prefixed : Property → Property
prefixed p =
    if beq p.xml_name.space (codes "DAV:")
    then record p { xml_name = record { space = []; local = codes "D:" ++ p.xml_name.local } }
    else p

-- What a multistatusWriter does to a state that it is part of: `opened` says that its field enc is not
-- nil, `open` sets that field, and `reset` makes a new writer. The rest is what it writes, to the
-- response or through its encoder: the header with the status 207, the start element, a response, and
-- the end with Flush. The program sets no responseDescription.
pub record Encoder (S : Type 0) : Type 0 where
  pub opened : S → Bool
  pub set_opened : S → S
  pub reset : S → S
  pub prolog : Effect S (Unit {0})
  pub start : Effect S (Unit {0})
  pub encode : Response → Effect S (Unit {0})
  pub finish : Effect S (Unit {0})

-- The tests of write: one href with propstats or a status, or several hrefs with a status.
abbrev pub has_propstats : Response → Bool
has_propstats r = not (length r.propstat == 0)

unfoldable pub is_valid : Response → Bool
is_valid r = elim r.href [
  | [] ↦ false
  | _ ∷ [] ↦ if has_propstats r then beq r.status [] else not (beq r.status [])
  | _ ∷ _ ∷ _ ↦ not (has_propstats r || beq r.status [])
]

module _ {S : Type 0} (enc : Encoder S) where
  -- The field enc is set once the prolog is written, whether the start element succeeds or not.
  unfoldable pub write_header : Effect S (Unit {0})
  write_header s =
      if enc.opened s then (ok tt, s) else (enc.prolog >> λ t. enc.start (enc.set_opened t)) s

  unfoldable pub write : Response → Effect S (Unit {0})
  unfolding write_header is_valid
  write r = if is_valid r then write_header >> enc.encode r else fail invalid_response

  unfoldable pub close : Effect S (Unit {0})
  close s = if enc.opened s then enc.finish s else (ok tt, s)

-- escape, with EscapeText of the XML package.
abbrev is_special : ℕ → Bool
is_special c = c == b'"' || c == b'&' || c == 39 || c == b'<' || c == b'>'

unfoldable pub escape : (Bytes → Bytes) → Bytes → Bytes
escape escape_text s = if any is_special s then escape_text s else s

-- ld.Duration / time.Second, where an infinite duration is -1.
abbrev pub seconds : Option ℕ → ℕ
seconds none = 0
seconds (some d) = d / 1000000000

-- writeLockInfo
unfoldable pub lock_info_text : (Bytes → Bytes) → Bytes → LockDetails → Bytes
unfolding escape format_uint
lock_info_text escape_text token ld =
    codes
      "<?xml version=\"1.0\" encoding=\"utf-8\"?>\n<D:prop xmlns:D=\"DAV:\"><D:lockdiscovery><D:activelock>\n\t<D:locktype><D:write/></D:locktype>\n\t<D:lockscope><D:exclusive/></D:lockscope>\n\t<D:depth>"
    ++ ((if ld.zero_depth then codes "0" else codes "infinity")
        ++ (codes "</D:depth>\n\t<D:owner>"
            ++ (ld.owner_xml
                ++ (codes "</D:owner>\n\t<D:timeout>Second-"
                    ++ (format_uint (seconds ld.duration)
                        ++ (codes "</D:timeout>\n\t<D:locktoken><D:href>"
                            ++ (escape escape_text token
                                ++ (codes "</D:href></D:locktoken>\n\t<D:lockroot><D:href>"
                                    ++ (escape escape_text ld.lock_root
                                        ++ codes
                                            "</D:href></D:lockroot>\n</D:activelock></D:lockdiscovery></D:prop>")))))))))
