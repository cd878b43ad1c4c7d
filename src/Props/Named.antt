-- ===== src/Props/Named.antt =====
-- webdav/prop.go: the names that stand under a status in a list of propstats, as makePropstats builds
-- it.
use webdav_serverless.Base.{
  ℕ, Bool, List, [], ◌∷◌, ◌++◌, map, keep, if◌then◌else◌, ◌==◌, ◌≡◌, refl, ap, append-nil, arith,
}
use webdav_serverless.Property.{Name, Property, Propstat}
use webdav_serverless.Props.{make_propstats, bare_all}

abbrev pub names : List Property → List Name
names ps = map (λ (p : Property). p.xml_name) ps

-- The names under a status, in all propstats that have it.
abbrev pub named : ℕ → List Propstat → List Name
named status [] = []
named status (st ∷ stats) =
    let rest = named status stats in if st.status == status then names st.props ++ rest else rest

pub names-append : (ps qs : List Property) → names (ps ++ qs) ≡ names ps ++ names qs
names-append [] qs = refl
names-append (p ∷ ps) qs = ap (p.xml_name ∷◌) (names-append ps qs)

pub names-bare_all : (ps : List Property) → names (bare_all ps) ≡ names ps
names-bare_all [] = refl
names-bare_all (p ∷ ps) = ap (p.xml_name ∷◌) (names-bare_all ps)

pub names-keep :
    (f : Name → Bool) (ps : List Property)
    → names (keep (λ (p : Property). f p.xml_name) ps) ≡ keep f (names ps)
names-keep f [] = refl
names-keep f (p ∷ ps) = ground (arith, names-keep f ps)

-- Each of the two propstats keeps its names, and a propstat without names is left out.
pub named-make_propstats :
    (status : ℕ) (x y : Propstat)
    → named status (make_propstats x y)
      ≡ (if x.status == status then names x.props else [])
        ++ (if y.status == status then names y.props else [])
unfolding make_propstats
named-make_propstats status x y = go x.props y.props refl refl
  where
    go :
        (ps qs : List Property)
        → x.props ≡ ps
        → y.props ≡ qs
        → named status (make_propstats x y)
          ≡ (if x.status == status then names x.props else [])
            ++ (if y.status == status then names y.props else [])
    go [] [] e f = rw (e, make_propstats) (rw (f, make_propstats) (ground arith))
    go [] (q ∷ qs) e f =
        rw (e, make_propstats)
          (rw (f, make_propstats) (ground (arith, append-nil (names (q ∷ qs)))))
    go (p ∷ ps) [] e f =
        rw (e, make_propstats)
          (rw (f, make_propstats) (ground (arith, append-nil (names (p ∷ ps)))))
    go (p ∷ ps) (q ∷ qs) e f =
        rw (e, make_propstats)
          (rw (f, make_propstats) (ground (arith, append-nil (names (q ∷ qs)))))
