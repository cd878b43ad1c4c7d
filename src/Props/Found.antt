-- ===== src/Props/Found.antt =====
-- webdav/prop.go: which of the properties that are asked for props finds.
use webdav_serverless.Base.{
  ℕ, Bool, true, false, not, Option, none, some, List, [], ◌∷◌, ◌++◌, keep, if◌then◌else◌, ◌==◌,
  ◌≡◌, ◌≢◌, refl, sym, ap, ◌∙◌, append-nil, append_assoc, arith, Bytes,
}
use webdav_serverless.Base.Dict.{Dict, lookup}
use webdav_serverless.Errors.{ok, Effect, pure, ◌>>=◌, bind-ok}
use webdav_serverless.Property.{Name, Property, Propstat, name_eq}
use webdav_serverless.Files.{Info, FileSystem}
use webdav_serverless.LiveProps.{Finder, Library, live_finder, closing, find}
use webdav_serverless.Props.{
  Lookup, present, absent, add, propstats_of, prop_at, prop_loop, props, dead_of,
}
use webdav_serverless.Props.Named.{names, named, names-append, named-make_propstats}

-- A property is found if it is dead, or live with a function that applies to the resource.
abbrev pub either_found : Option Property → Option Finder → Bool
either_found (some p) finder = true
either_found none (some finder) = true
either_found none none = false

pub is_found : Info → Dict Name Property → Name → Bool
is_found i dead n = either_found (lookup n dead) (live_finder n i.is_dir)

-- The dead properties stand under their own names.
abbrev pub IsKeyed : Dict Name Property → Type 0
IsKeyed dead = (n : Name) (p : Property) → lookup n dead ≡ some p → p.xml_name ≡ n

module _ {S F : Type 0} (fs : FileSystem S F) (lib : Library) where
  -- What a name adds to the two lists, by their names.
  abbrev Adds : Name → Bool → Lookup → Type 0
  Adds n found (present p) = (found ≡ true) × (p.xml_name ≡ n)
  Adds n found (absent p) = (found ≡ false) × (p.xml_name ≡ n)

  prop_at-Adds :
      (name : Bytes) (i : Info) (n : Name) (d : Option Property) (finder : Option Finder) (s t : S)
      (r : Lookup)
      → ((p : Property) → d ≡ some p → p.xml_name ≡ n)
      → prop_at fs lib name i n d finder s ≡ (ok r, t)
      → Adds n (either_found d finder) r
  prop_at-Adds name i n (some p) finder s t (present q) k e = (refl, cc (k p refl))
  prop_at-Adds name i n (some p) finder s t (absent q) k e = cc
  prop_at-Adds name i n none (some finder) s t r k e =
      found r (bind-ok (find fs lib finder name i) _ s t r e)
    where
      found :
          (r : Lookup)
          → (b : Bytes) × (u : S) × (find fs lib finder name i s ≡ (ok b, u))
            × (pure (present (record { xml_name = n; lang = []; inner_xml = b })) u ≡ (ok r, t))
          → Adds n true r
      found (present q) (b, u, f, g) = (refl, ground arith)
      found (absent q) (b, u, f, g) = cc
  prop_at-Adds name i n none none s t (present q) k e = cc
  prop_at-Adds name i n none none s t (absent q) k e = (refl, ground arith)

  -- The names of the two lists, after a part of the names that are asked for.
  abbrev Splits :
      (Name → Bool)
      → List Name
      → List Property × List Property
      → List Property × List Property
      → Type 0
  Splits found ns (ps, qs) (ps', qs') =
      (names ps' ≡ names ps ++ keep found ns)
      × (names qs' ≡ names qs ++ keep (λ n. not (found n)) ns)

  add-Splits :
      (found : Name → Bool) (n : Name) (ns : List Name) (r : Lookup)
      (acc acc' : List Property × List Property)
      → Adds n (found n) r
      → Splits found ns (add r acc) acc'
      → Splits found (n ∷ ns) acc acc'
  add-Splits found n ns (present p) (ps, qs) (ps', qs') (f, e) (k, l) =
      ground (arith, names-append ps (p ∷ []), append_assoc (names ps) (n ∷ []) (keep found ns))
  add-Splits found n ns (absent p) (ps, qs) (ps', qs') (f, e) (k, l) = ground (
    arith,
    names-append qs (p ∷ []),
    append_assoc (names qs) (n ∷ []) (keep (λ m. not (found m)) ns),
  )

  prop_loop-Splits :
      (name : Bytes) (i : Info) (dead : Dict Name Property) (ns : List Name)
      (acc acc' : List Property × List Property) (s t : S)
      → IsKeyed dead
      → prop_loop fs lib name i dead ns acc s ≡ (ok acc', t)
      → Splits (is_found i dead) ns acc acc'
  unfolding prop_loop is_found
  prop_loop-Splits name i dead [] (ps, qs) (ps', qs') s t keyed e =
      ground (arith, append-nil (names ps), append-nil (names qs))
  prop_loop-Splits name i dead (n ∷ ns) acc acc' s t keyed e =
      let (r, u, first, rest) =
        bind-ok (prop_at fs lib name i n (lookup n dead) (live_finder n i.is_dir)) _ s t acc' e in
      add-Splits (is_found i dead) n ns r acc acc'
        (prop_at-Adds name i n (lookup n dead) (live_finder n i.is_dir) s u r (keyed n) first)
        (prop_loop-Splits name i dead ns (add r acc) acc' u t keyed rest)

  named-propstats_of :
      (status : ℕ) (acc : List Property × List Property)
      → named status (propstats_of acc)
        ≡ (if 200 == status then names acc.0 else []) ++ (if 404 == status then names acc.1 else [])
  named-propstats_of status (ps, qs) = named-make_propstats status _ _

  named-propstats_of_other :
      (status : ℕ) (acc : List Property × List Property)
      → status ≢ 200
      → status ≢ 404
      → named status (propstats_of acc) ≡ []
  named-propstats_of_other status acc p q = let e = named-propstats_of status acc in ground arith

  closing-ok :
      {A : Type 0} (f : F) (m : Effect S A) (s t : S) (a : A)
      → closing fs f m s ≡ (ok a, t)
      → m s ≡ (ok a, (m s).1)
  closing-ok f m s t a e = λ j. ((e j).0, (m s).1)

  -- What props does with the file info and the dead properties.
  abbrev body : Bytes → List Name → Info → Dict Name Property → Effect S (List Propstat)
  body name ns i dead = do acc ← prop_loop fs lib name i dead ns ([], []); pure (propstats_of acc)

  body-ok :
      (name : Bytes) (ns : List Name) (i : Info) (dead : Dict Name Property) (s t : S)
      (stats : List Propstat)
      → body name ns i dead s ≡ (ok stats, t)
      → (acc : List Property × List Property) × (u : S) × (prop_loop fs lib name i dead ns
            ([], [])
            s
          ≡ (ok acc, u))
        × (propstats_of acc ≡ stats)
  body-ok name ns i dead s t stats e =
      let (acc, u, loop, last) =
        bind-ok (prop_loop fs lib name i dead ns ([], [])) (λ acc. pure (propstats_of acc)) s t
          stats e in
      (acc, u, loop, cc)

  -- What the file of a resource says, and where props puts the names that are asked for.
  pub record Found (name : Bytes) (ns : List Name) (s : S) (stats : List Propstat) : Type 0 where
    pub handle : F
    pub info : Info
    pub dead : Dict Name Property
    pub s1 : S
    pub s2 : S
    pub s3 : S
    pub opened : fs.open_file name false s ≡ (ok handle, s1)
    pub stat : fs.file_stat handle s1 ≡ (ok info, s2)
    pub held : dead_of fs handle s2 ≡ (ok dead, s3)
    pub under_200 : named 200 stats ≡ keep (is_found info dead) ns
    pub under_404 : named 404 stats ≡ keep (λ n. not (is_found info dead n)) ns
    pub others : (status : ℕ) → status ≢ 200 → status ≢ 404 → named status stats ≡ []

  -- Each name that props is asked for stands in its result as often as it is asked for: under 200 if
  -- the file has a dead property of that name, or it is the name of a live one that applies to the
  -- resource, and under 404 if not; in their order, and nothing else stands there. The dead properties
  -- of a file are supposed to stand under their own names.
  pub props-Found :
      (name : Bytes) (ns : List Name) (s t : S) (stats : List Propstat)
      → ((f : F) (u v : S) (dead : Dict Name Property)
          → dead_of fs f u ≡ (ok dead, v)
          → IsKeyed dead)
      → props fs lib name ns s ≡ (ok stats, t)
      → Found name ns s stats
  unfolding props
  props-Found name ns s t stats keyed e =
      let (f, s1, opened, rest) =
        bind-ok (fs.open_file name false)
          (λ f. closing fs f (fs.file_stat f >>= λ i. dead_of fs f >>= body name ns i)) s t stats
          e in
      let inside =
        closing-ok f (fs.file_stat f >>= λ i. dead_of fs f >>= body name ns i) s1 t stats rest in
      let (i, s2, stat, rest2) =
        bind-ok (fs.file_stat f) (λ i. dead_of fs f >>= body name ns i) s1 _ stats inside in
      let (dead, s3, held, rest3) = bind-ok (dead_of fs f) (body name ns i) s2 _ stats rest2 in
      let (acc, s4, loop, result) = body-ok name ns i dead s3 _ stats rest3 in
      let (found, missing) =
        prop_loop-Splits name i dead ns ([], []) acc s3 s4 (keyed f s2 s3 dead held) loop in
      let at_status =
        λ (status : ℕ). ap (named status) (sym result) ∙ named-propstats_of status acc in
      record {
        handle = f;
        info = i;
        dead = dead;
        s1 = s1;
        s2 = s2;
        s3 = s3;
        opened = opened;
        stat = stat;
        held = held;
        under_200 = at_status 200 ∙ append-nil _ ∙ found;
        under_404 = at_status 404 ∙ missing;
        others =
            λ status p q. ap (named status) (sym result) ∙ named-propstats_of_other status acc p q;
      }
