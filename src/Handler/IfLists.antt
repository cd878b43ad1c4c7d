-- ===== src/Handler/IfLists.antt =====
-- webdav/webdav.go: what confirmLocks makes of the lists of an If header.
use mathlib.Core.Option.{some-injective}
use webdav_serverless.Base.{
  true, false, List, [], ◌∷◌, ◌++◌, Option, none, some, ◌≡◌, ◌≢◌, ◌⊎◌, inl, inr, refl, sym, ap, ◌∙◌,
  Bytes, bytes_eq, beq, beq→eq, beq_refl, Bool-cases,
}
use webdav_serverless.IfHeader.{IfList}
use webdav_serverless.Lock.{confirmation_failed, LockResult, granted, refused}
use webdav_serverless.Answers.{Answer, proceed, answer}
use webdav_serverless.Handler.{
  Handler, strip_prefix, tagged_path, resource, confirmed, confirm_list, confirm_lists,
}
use webdav_serverless.Handler.Prefix.{strip_prefix-rest}

module _ {S F : Type 0} (h : Handler S F) (host src dst : Bytes) where
  -- A list without a tag is about the source. One with a tag is about the name that its URL has after
  -- the prefix, where that is a URL of this host.
  unfoldable pub IsAbout : Bytes → Bytes → Type 0
  IsAbout [] name = name ≡ src
  IsAbout (c ∷ tag) name = h.parse_url (c ∷ tag) ≡ some (host, h.prefix ++ name)

  -- A tag that is no URL, or one of another host.
  unfoldable pub IsElsewhere : Bytes → Type 0
  IsElsewhere tag =
      (h.parse_url tag ≡ none)
      ⊎ ((url_host : Bytes) × (path : Bytes) × (h.parse_url tag ≡ some (url_host, path))
          × (url_host ≢ host))

  -- The lists are passed over, from the state `s` to the state `u`: each is about nothing here, or the
  -- lock system did not confirm it.
  unfoldable pub ArePassed : List IfList → S → S → Type 0
  ArePassed [] s u = s ≡ u
  ArePassed (l ∷ ls) s u =
      (IsElsewhere l.resource_tag × ArePassed ls s u)
      ⊎ ((name : Bytes) × (v : S) × IsAbout l.resource_tag name
          × (h.lock_system.confirm (h.now s) name dst l.conditions s
              ≡ (refused confirmation_failed, v))
          × ArePassed ls v u)

  -- One of the lists is about a resource for which the lock system granted `release`, in the state to
  -- which the lists before it were passed over.
  unfoldable pub IsConfirmed : List IfList → S → (S → S) → S → Type 0
  IsConfirmed lists s release t =
      (l : IfList) × (name : Bytes) × (u : S) × (before after : List IfList) × (lists
        ≡ before ++ l ∷ after)
      × ArePassed before s u
      × IsAbout l.resource_tag name
      × (h.lock_system.confirm (h.now u) name dst l.conditions u ≡ (granted release, t))

  tagged_path-cases :
      (tag : Bytes) (o : Option (Bytes × Bytes)) (r : Option (Answer Bytes))
      → h.parse_url tag ≡ o
      → tagged_path h host o ≡ r
      → ((name : Bytes) → r ≡ some (proceed name) → h.parse_url tag ≡ some (host, h.prefix ++ name))
        × (r ≡ none → IsElsewhere tag)
  unfolding tagged_path IsElsewhere
  tagged_path-cases tag none r e k = (λ name p. cc, λ p. inl e)
  tagged_path-cases tag (some (url_host, path)) r e k = elim (Bool-cases (beq url_host host)) [
    | inl b ↦
        let stripped : some (strip_prefix h.prefix path) ≡ r = rw b at k in
        (
          λ name p.
              (let is : strip_prefix h.prefix path ≡ proceed name =
                  some-injective _ _ (stripped ∙ p) in
                e
                ∙ ap (λ x. some (x, path)) (beq→eq url_host host b)
                ∙ ap (λ y. some (host, y)) ((strip_prefix-rest h.prefix path name).0 is)),
          λ p. (let bad : some (strip_prefix h.prefix path) ≡ none = stripped ∙ p in cc),
        )
    | inr b ↦
        let skipped : none ≡ r = rw b at k in
        (
          λ name p. (let bad : none ≡ some (proceed name) = skipped ∙ p in cc),
          λ p. inr (
            url_host,
            path,
            e,
            λ q. (let bad : false ≡ true = sym b ∙ ap (λ x. beq x host) q ∙ beq_refl host in cc),
          ),
        )
  ]

  resource-cases :
      (tag : Bytes) (r : Option (Answer Bytes))
      → resource h host src tag ≡ r
      → ((name : Bytes) → r ≡ some (proceed name) → IsAbout tag name) × (r ≡ none → IsElsewhere tag)
  unfolding resource IsAbout
  resource-cases [] r e = (
    λ name p. (let is : some (proceed src) ≡ some (proceed name) = e ∙ p in cc),
    λ p. (let bad : some (proceed src) ≡ none = e ∙ p in cc),
  )
  resource-cases (c ∷ tag) r e = tagged_path-cases (c ∷ tag) (h.parse_url (c ∷ tag)) r refl e

  module _ (release : S → S) (t : S) (l : IfList) (ls : List IfList) where
    elsewhere :
        (s : S)
        → IsElsewhere l.resource_tag
        → IsConfirmed ls s release t
        → IsConfirmed (l ∷ ls) s release t
    unfolding IsConfirmed ArePassed
    elsewhere s there (x, name, u, before, after, e, passed, about, c) =
        (x, name, u, l ∷ before, after, ap (λ xs. l ∷ xs) e, inl (there, passed), about, c)

    from_outcome :
        (name : Bytes) (s : S) (next : S → Answer (S → S) × S) (c : LockResult (S → S) × S)
        → IsAbout l.resource_tag name
        → h.lock_system.confirm (h.now s) name dst l.conditions s ≡ c
        → ((u : S) → next u ≡ (proceed release, t) → IsConfirmed ls u release t)
        → confirmed h c next ≡ (proceed release, t)
        → IsConfirmed (l ∷ ls) s release t
    unfolding IsConfirmed ArePassed
    from_outcome name s next (granted x, u) about e rest k =
        (l, name, s, [], ls, refl, refl, about, e ∙ cc)
    from_outcome name s next (refused confirmation_failed, v) about e rest k =
        let (x, other, u, before, after, p, passed, about', c) = rest v k in
        (
          x,
          other,
          u,
          l ∷ before,
          after,
          ap (λ xs. l ∷ xs) p,
          inr (name, v, about, e, passed),
          about',
          c,
        )
    from_outcome name s next (refused x, u) about e rest k = cc

    from_resource :
        (s : S) (next : S → Answer (S → S) × S) (r : Option (Answer Bytes))
        → resource h host src l.resource_tag ≡ r
        → ((u : S) → next u ≡ (proceed release, t) → IsConfirmed ls u release t)
        → confirm_list h dst l.conditions r s next ≡ (proceed release, t)
        → IsConfirmed (l ∷ ls) s release t
    from_resource s next none e rest k =
        elsewhere s ((resource-cases l.resource_tag none e).1 refl) (rest s k)
    from_resource s next (some (answer n)) e rest k = cc
    from_resource s next (some (proceed name)) e rest k =
        from_outcome name s next _ ((resource-cases l.resource_tag _ e).0 name refl) refl rest k

  -- If confirmLocks goes on with the lists of an If header, then one of them is about a name: it has no
  -- tag and the name is the source, or its tag is a URL of this host whose path is the prefix and the
  -- name. Each list before it either has a tag that is no URL or one of another host, or is about a name
  -- for which the lock system answered ErrConfirmationFailed. In the state after those calls the lock
  -- system confirmed the conditions of the list for the name and the destination, and what is released
  -- later is what that call granted, in the state that it left.
  pub confirm_lists-IsConfirmed :
      (lists : List IfList) (s t : S) (release : S → S)
      → confirm_lists h host src dst lists s ≡ (proceed release, t)
      → IsConfirmed lists s release t
  unfolding confirm_lists
  confirm_lists-IsConfirmed [] s t release k = cc
  confirm_lists-IsConfirmed (l ∷ ls) s t release k =
      from_resource release t l ls s (λ u. confirm_lists h host src dst ls u) _ refl
        (λ u e. confirm_lists-IsConfirmed ls u t release e) k
