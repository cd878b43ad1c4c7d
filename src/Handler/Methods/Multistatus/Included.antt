-- ===== src/Handler/Methods/Multistatus/Included.antt =====
-- webdav/webdav.go: the properties that an allprop request asks for.
use webdav_serverless.Base.{true, [], ◌≡◌, ap, Bytes}
use webdav_serverless.Answers.{proceed}
use webdav_serverless.LiveProps.{Library}
use webdav_serverless.Props.{allprop}
use webdav_serverless.Requests.{Propfind, read_propfind}
use webdav_serverless.Requests.Accepted.{read_propfind-allprop}
use webdav_serverless.Handler.{Handler}
use webdav_serverless.Handler.Methods.Multistatus.{Xml, find_stats}

module _ {S F : Type 0} (h : Handler S F) (lib : Library) (x : Xml S) where
  -- Whatever names an accepted allprop request includes, its properties are those that allprop gives
  -- for no more names: the include element has no effect.
  pub find_stats-allprop :
      (body : Bytes) (pf : Propfind) (name : Bytes)
      → read_propfind x.decode_propfind body ≡ proceed pf
      → pf.allprop ≡ true
      → find_stats h lib x pf name ≡ allprop h.file_system lib x.live_names name []
  find_stats-allprop body pf name e a =
      let (p, n) = read_propfind-allprop x.decode_propfind body pf e a in
      rw n (rw a (ap (allprop h.file_system lib x.live_names name) p))
