-- ===== src/Props/Patched.antt =====
-- webdav/prop.go: what patch answers when one of the proposed properties is live.
use webdav_serverless.Base.{
  ℕ, true, not, List, [], ◌++◌, keep, any, if◌then◌else◌, ◌==◌, ◌≡◌, ◌≢◌, refl, ap, ◌∙◌, append-nil,
  arith, Bytes,
}
use webdav_serverless.Errors.{Result, ok}
use webdav_serverless.Property.{Name, Property, Proppatch, Propstat}
use webdav_serverless.Files.{FileSystem}
use webdav_serverless.LiveProps.{is_live}
use webdav_serverless.Props.{bare_all, proposed, conflict_props, patch}
use webdav_serverless.Props.Named.{names, named, names-bare_all, names-keep, named-make_propstats}

-- The names of the properties that patches propose, in their order.
abbrev pub proposed_names : List Proppatch → List Name
proposed_names patches = names (proposed patches)

named-conflict :
    (status : ℕ) (ps : List Property)
    → named status (conflict_props ps)
      ≡ (if 403 == status then keep is_live (names ps) else [])
        ++ (if 424 == status then keep (λ n. not (is_live n)) (names ps) else [])
named-conflict status ps =
    named-make_propstats status _ _
    ∙ ap
        (λ xs.
          (if 403 == status then xs else [])
          ++ (if 424 == status
              then names (bare_all (keep (λ (p : Property). not (is_live p.xml_name)) ps))
              else []))
        (names-bare_all _ ∙ names-keep is_live ps)
    ∙ ap
        (λ xs.
          (if 403 == status then keep is_live (names ps) else [])
          ++ (if 424 == status then xs else []))
        (names-bare_all _ ∙ names-keep (λ n. not (is_live n)) ps)

module _ {S F : Type 0} (fs : FileSystem S F) where
  -- What patch does where a live property is among those proposed.
  pub record Refused (s : S) (patches : List Proppatch) (o : Result (List Propstat) × S)
      : Type 0 where
    pub stats : List Propstat
    pub outcome : o ≡ (ok stats, s)
    pub under_403 : named 403 stats ≡ keep is_live (proposed_names patches)
    pub under_424 : named 424 stats ≡ keep (λ n. not (is_live n)) (proposed_names patches)
    pub others : (status : ℕ) → status ≢ 403 → status ≢ 424 → named status stats ≡ []

  -- If one of the proposed properties is live, patch changes nothing: the names of the live ones stand
  -- under 403 (Forbidden), those of all others under 424 (Failed Dependency), in their order, and no
  -- name stands under another status.
  pub patch-Refused :
      (name : Bytes) (patches : List Proppatch) (s : S)
      → any (λ (p : Property). is_live p.xml_name) (proposed patches) ≡ true
      → Refused s patches (patch fs name patches s)
  unfolding patch
  patch-Refused name patches s live = record {
    stats = conflict_props (proposed patches);
    outcome = rw live refl;
    under_403 = named-conflict 403 (proposed patches) ∙ append-nil _;
    under_424 = named-conflict 424 (proposed patches);
    others = λ status p q. let named_lem = named-conflict status (proposed patches) in ground arith;
  }
