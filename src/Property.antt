-- ===== src/Property.antt =====
-- webdav/xml.go and webdav/prop.go: the types of WebDAV properties.
use webdav_serverless.Base.{ℕ, Bool, List, Bytes, bytes_eq, Eq, ap}

-- A name of XML: its space and its local part.
pub record Name : Type 0 where
  pub space : Bytes
  pub local : Bytes

pub record Property : Type 0 where
  pub xml_name : Name
  pub lang : Bytes
  pub inner_xml : Bytes

pub record Proppatch : Type 0 where
  pub remove : Bool
  pub props : List Property

pub record Propstat : Type 0 where
  pub props : List Property
  pub status : ℕ
  pub xml_error : Bytes
  pub response_description : Bytes

-- Names are equal where both parts are.
instance unfoldable pub name_eq : Eq Name
name_eq = record {
  dec = λ a b. elim (bytes_eq.dec a.space b.space) [
    | yes p ↦ elim (bytes_eq.dec a.local b.local) [
      | yes q ↦ yes (λ i. record { space = p i; local = q i })
      | no n ↦ no (λ e. n (ap (λ (c : Name). c.local) e))
    ]
    | no n ↦ no (λ e. n (ap (λ (c : Name). c.space) e))
  ];
}
