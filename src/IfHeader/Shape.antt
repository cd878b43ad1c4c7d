-- ===== src/IfHeader/Shape.antt =====
-- What an accepted header looks like.
use webdav_serverless.Base.{
  ℕ, zero, suc, ◌≡◌, ◌≢◌, refl, ◌⊎◌, inl, inr, Bool, true, false, List, [], ◌∷◌, ◌++◌, Bytes, ◌==◌,
  All, All-append, if◌then◌else◌, trim_space, length,
}
use webdav_serverless.IfHeader.{
  Condition, IfList, IfHeader, TokenType, str_token, not_token, angle_token, square_token, rune,
  Parsed, accept, reject, out_of_fuel, lex, condition_of, negated, parse_condition, close_list,
  parse_conditions, parse_list, parse_no_tag_lists, parse_tagged_lists, lists_of, parse_if_header,
  Token, ◌>>=◌, Tagged, tagged_round, tagged_start, is_rune,
}

-- At most one of Token and ETag is there.
abbrev pub IsExclusive : Condition → Type 0
IsExclusive c = (c.token ≡ []) ⊎ (c.etag ≡ [])

-- A list has a condition, and each condition is a token or an ETag.
abbrev pub IsWellFormed : IfList → Type 0
IsWellFormed l = (l.conditions ≢ []) × All IsExclusive l.conditions

-- `P` holds of what a parser accepts.
Accepts : {A : Type 0} → (A → Type 0) → Parsed A → Type 0
Accepts P (accept a) = P a
Accepts P reject = Unit
Accepts P out_of_fuel = Unit

abbrev First : {A : Type 0} → (A → Type 0) → A × Bytes → Type 0
First P (a, s) = P a

Accepts-bind :
    {A B : Type 0} (P : A → Type 0) (Q : B → Type 0) (r : Parsed A) (g : A → Parsed B)
    → Accepts P r
    → ((a : A) → P a → Accepts Q (g a))
    → Accepts Q (r >>= g)
unfolding Accepts
Accepts-bind P Q (accept a) g h k = k a h
Accepts-bind P Q reject g h k = tt
Accepts-bind P Q out_of_fuel g h k = tt

Accepts-reject : {A : Type 0} (P : A → Type 0) → Accepts P reject
unfolding Accepts
Accepts-reject P = tt

Accepts-out_of_fuel : {A : Type 0} (P : A → Type 0) → Accepts P out_of_fuel
unfolding Accepts
Accepts-out_of_fuel P = tt

Accepts-accept : {A : Type 0} (P : A → Type 0) (a : A) → P a → Accepts P (accept a)
unfolding Accepts
Accepts-accept P a h = h

Accepts-if :
    {A : Type 0} (P : A → Type 0) (b : Bool) (x y : Parsed A)
    → Accepts P x
    → Accepts P y
    → Accepts P (if b then x else y)
Accepts-if P true x y h k = h
Accepts-if P false x y h k = k

condition_of-IsExclusive : (n : Bool) (t : Token) → Accepts (First IsExclusive) (condition_of n t)
unfolding condition_of Accepts
condition_of-IsExclusive n (str_token, w, s) = inr refl
condition_of-IsExclusive n (angle_token, w, s) = inr refl
condition_of-IsExclusive n (square_token, w, s) = inl refl
condition_of-IsExclusive n (_, w, s) = tt

negated-IsExclusive : (t : Token) → Accepts (First IsExclusive) (negated t)
unfolding negated
negated-IsExclusive (not_token, w, s) = condition_of-IsExclusive true (lex s)
negated-IsExclusive (t, w, s) = condition_of-IsExclusive false (t, w, s)

close_list-IsWellFormed :
    (cs : List Condition) (s : Bytes)
    → All IsExclusive cs
    → Accepts (First IsWellFormed) (close_list cs s)
unfolding close_list Accepts
close_list-IsWellFormed [] s h = tt
close_list-IsWellFormed (c ∷ cs) s h = ((λ e. cc), h)

parse_conditions-IsWellFormed :
    (f : ℕ) (s : Bytes) (cs : List Condition)
    → All IsExclusive cs
    → Accepts (First IsWellFormed) (parse_conditions f s cs)
unfolding parse_conditions parse_condition
parse_conditions-IsWellFormed zero s cs h = Accepts-out_of_fuel _
parse_conditions-IsWellFormed (suc f) s cs h =
    Accepts-if (First IsWellFormed) _ _ _ (close_list-IsWellFormed cs _ h) (
      Accepts-bind (First IsExclusive) (First IsWellFormed) (negated (lex s)) _
        (negated-IsExclusive (lex s))
        (λ (c, rest) e.
          parse_conditions-IsWellFormed f rest (cs ++ c ∷ [])
            (All-append IsExclusive cs (c ∷ []) h (e, tt))))

parse_list-IsWellFormed : (s : Bytes) → Accepts (First IsWellFormed) (parse_list s)
unfolding parse_list
parse_list-IsWellFormed s =
    Accepts-if (First IsWellFormed) (is_rune b'(' (lex s).0) _ _
      (parse_conditions-IsWellFormed (suc (length (lex s).2)) (lex s).2 [] tt) (Accepts-reject _)

abbrev pub IsWellFormedHeader : IfHeader → Type 0
IsWellFormedHeader h = (h ≢ []) × All IsWellFormed h

append-IsWellFormedHeader :
    (h : IfHeader) (l : IfList)
    → All IsWellFormed h
    → IsWellFormed l
    → IsWellFormedHeader (h ++ l ∷ [])
append-IsWellFormedHeader [] l a w = ((λ e. cc), (w, tt))
append-IsWellFormedHeader (m ∷ h) l a w =
    ((λ e. cc), (a.0, All-append IsWellFormed h (l ∷ []) a.1 (w, tt)))

parse_no_tag_lists-IsWellFormed :
    (f : ℕ) (s : Bytes) (h : IfHeader)
    → All IsWellFormed h
    → Accepts IsWellFormedHeader (parse_no_tag_lists f s h)
unfolding parse_no_tag_lists
parse_no_tag_lists-IsWellFormed zero s h a = Accepts-out_of_fuel _
parse_no_tag_lists-IsWellFormed (suc f) s h a =
    Accepts-bind (First IsWellFormed) IsWellFormedHeader (parse_list s) _
      (parse_list-IsWellFormed s)
      λ (l, r) w.
        Accepts-if IsWellFormedHeader _ _ _ (Accepts-accept _ _ (append-IsWellFormedHeader h l a w))
          (parse_no_tag_lists-IsWellFormed f r _ (append-IsWellFormedHeader h l a w).1)

tagged_round-IsWellFormed :
    (again : Bytes → Tagged → Parsed IfHeader) (t : Token) (s : Bytes) (st : Tagged)
    → All IsWellFormed st.lists
    → ((r : Bytes) (st' : Tagged)
        → All IsWellFormed st'.lists
        → Accepts IsWellFormedHeader (again r st'))
    → Accepts IsWellFormedHeader (tagged_round again t s st)
unfolding tagged_round
tagged_round-IsWellFormed again (angle_token, w, r) s st a ih =
    Accepts-if IsWellFormedHeader _ _ _ (Accepts-reject _) (ih r _ a)
tagged_round-IsWellFormed again (rune c, w, r) s st a ih =
    Accepts-if IsWellFormedHeader (c == b'(') _ _
      (Accepts-bind (First IsWellFormed) IsWellFormedHeader (parse_list s) _
        (parse_list-IsWellFormed s)
        (λ (l, rest) w.
          let h : IsWellFormedHeader (st.lists ++ record l { resource_tag = st.tag } ∷ []) =
            append-IsWellFormedHeader st.lists _ a w in
          Accepts-if IsWellFormedHeader _ _ _ (Accepts-accept _ _ h) (ih rest _ h.1)))
      (Accepts-reject _)
tagged_round-IsWellFormed again (_, w, r) s st a ih = Accepts-reject _

parse_tagged_lists-IsWellFormed :
    (f : ℕ) (s : Bytes) (st : Tagged)
    → All IsWellFormed st.lists
    → Accepts IsWellFormedHeader (parse_tagged_lists f s st)
unfolding parse_tagged_lists
parse_tagged_lists-IsWellFormed zero s st a = Accepts-out_of_fuel _
parse_tagged_lists-IsWellFormed (suc f) s st a =
    tagged_round-IsWellFormed _ (lex s) s st a (parse_tagged_lists-IsWellFormed f)

lists_of-IsWellFormed : (t : TokenType) (s : Bytes) → Accepts IsWellFormedHeader (lists_of t s)
unfolding lists_of
lists_of-IsWellFormed angle_token s = parse_tagged_lists-IsWellFormed _ s tagged_start tt
lists_of-IsWellFormed (rune c) s =
    Accepts-if IsWellFormedHeader (c == b'(') _ _ (parse_no_tag_lists-IsWellFormed _ s [] tt)
      (Accepts-reject _)
lists_of-IsWellFormed _ s = Accepts-reject _

-- An accepted header has a list, each of its lists has a condition, and in no condition are both
-- the token and the ETag non-empty.
pub parse_if_header-IsWellFormedHeader :
    (header : Bytes) {h : IfHeader} → parse_if_header header ≡ accept h → IsWellFormedHeader h
unfolding parse_if_header Accepts
parse_if_header-IsWellFormedHeader header e =
    let s : Bytes = trim_space header in rw e at (lists_of-IsWellFormed (lex s).0 s)
