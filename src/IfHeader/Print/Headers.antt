-- ===== src/IfHeader/Print/Headers.antt =====
-- Round trips of whole headers.
use webdav_serverless.Base.{
  ℕ, zero, suc, ◌+◌, ◌<◌, ◌≤◌, ◌≡◌, refl, ap, ◌∙◌, sym, ◌⊎◌, inl, inr, false, [], ◌∷◌, ◌++◌,
  append_assoc, append-nil, Bytes, length, arith, ◌==◌, All, if◌then◌else◌, trim_space,
  trim_space-ends, is_space, not, ◌&&◌, length-append, bytes_eq,
}
use webdav_serverless.IfHeader.{
  IfList, IfHeader, angle_token, accept, lex, parse_no_tag_lists, parse_tagged_lists, lists_of,
  parse_if_header, Token, Tagged, tagged_round, tagged_start, no_bytes,
}
use webdav_serverless.IfHeader.Print.{
  print_list, print_no_tag, print_tagged, IsPrintable, lex_angle, list_of, parse_list-print,
  print_conditions,
}

abbrev HasNoTag : IfList → Type 0
HasNoTag l = l.resource_tag ≡ []

list_of-eq : (l : IfList) → HasNoTag l → list_of l.conditions ≡ l
unfolding list_of
list_of-eq l e = ground arith

parse_no_tag_lists-print :
    (f : ℕ) (l : IfList) (ls done : IfHeader)
    → length ls < f
    → All IsPrintable (l ∷ ls)
    → All HasNoTag (l ∷ ls)
    → parse_no_tag_lists f (print_no_tag (l ∷ ls)) done ≡ accept (done ++ (l ∷ ls))
unfolding parse_no_tag_lists print_no_tag
parse_no_tag_lists-print zero l ls done lt h k = elim lt [ ]
parse_no_tag_lists-print (suc f) l [] done lt (p, _) (e, _) =
    rw (parse_list-print l [] p.0 p.1, list_of-eq l e)
parse_no_tag_lists-print (suc f) l (m ∷ ls) done lt (p, h) (e, k) =
    rw (parse_list-print l (print_no_tag (m ∷ ls)) p.0 p.1, list_of-eq l e)
      (parse_no_tag_lists-print f m ls (done ++ l ∷ []) (omega arith) h k
        ∙ ap accept (append_assoc done (l ∷ []) (m ∷ ls)))

-- A text in parentheses or with a tag in front, as the header begins and ends.
IsBracketed : ℕ → Bytes → Type 0
IsBracketed b s = (t : Bytes) × (s ≡ (b ∷ t) ++ b')' ∷ [])

print_list-IsBracketed : (l : IfList) → IsBracketed b'(' (print_list l)
unfolding print_list IsBracketed
print_list-IsBracketed l = (print_conditions l.conditions, refl)

append-IsBracketed : (b c : ℕ) (x y : Bytes) → IsBracketed c y → IsBracketed b (b ∷ x ++ y)
unfolding IsBracketed
append-IsBracketed b c x y (t, e) =
    (x ++ (c ∷ t), rw e (ap (λ s. b ∷ s) (sym (append_assoc x (c ∷ t) (b')' ∷ [])))))

-- A printed list, and the lists that follow.
print_list-append-IsBracketed :
    (l : IfList) (r : Bytes) (b : ℕ)
    → (r ≡ []) ⊎ IsBracketed b r
    → IsBracketed b'(' (print_list l ++ r)
unfolding print_list
print_list-append-IsBracketed l r b (inl e) = rw (e, append-nil) (print_list-IsBracketed l)
print_list-append-IsBracketed l r b (inr h) =
    append-IsBracketed b'(' b (print_conditions l.conditions ++ b')' ∷ []) r h

print_no_tag-IsBracketed : (l : IfList) (ls : IfHeader) → IsBracketed b'(' (print_no_tag (l ∷ ls))
unfolding print_no_tag
print_no_tag-IsBracketed l [] = print_list-append-IsBracketed l [] b'(' (inl refl)
print_no_tag-IsBracketed l (m ∷ ls) =
    print_list-append-IsBracketed l _ b'(' (inr (print_no_tag-IsBracketed m ls))

-- A bracketed text after a tag.
tag-IsBracketed : (w s : Bytes) → IsBracketed b'(' s → IsBracketed b'<' (b'<' ∷ w ++ b'>' ∷ s)
unfolding IsBracketed
tag-IsBracketed w s (t, e) = (
  w ++ b'>' ∷ (b'(' ∷ t),
  rw e (ap (λ s. b'<' ∷ s) (sym (append_assoc w (b'>' ∷ (b'(' ∷ t)) (b')' ∷ [])))),
)

print_tagged-IsBracketed : (l : IfList) (ls : IfHeader) → IsBracketed b'<' (print_tagged (l ∷ ls))
unfolding print_tagged
print_tagged-IsBracketed l [] =
    tag-IsBracketed l.resource_tag _ (print_list-append-IsBracketed l [] b'<' (inl refl))
print_tagged-IsBracketed l (m ∷ ls) =
    tag-IsBracketed l.resource_tag _
      (print_list-append-IsBracketed l _ b'<' (inr (print_tagged-IsBracketed m ls)))

trim_space-IsBracketed :
    (b : ℕ) (s : Bytes) → is_space b ≡ false → IsBracketed b s → trim_space s ≡ s
unfolding IsBracketed
trim_space-IsBracketed b s h (t, e) = rw e (trim_space-ends b b')' t h refl)

length-print_no_tag : (ls : IfHeader) → length ls ≤ length (print_no_tag ls)
unfolding print_no_tag print_list
length-print_no_tag [] = omega arith
length-print_no_tag (l ∷ ls) =
    omega (arith, length-append {0} (print_list l) (print_no_tag ls), length-print_no_tag ls)

-- A header of lists with no resource tag, printed, is parsed to itself: the lists have conditions,
-- and each condition has a token with no '>', or an ETag with no ']' and no token.
pub parse_if_header-print_no_tag :
    (l : IfList) (ls : IfHeader)
    → All IsPrintable (l ∷ ls)
    → All HasNoTag (l ∷ ls)
    → parse_if_header (print_no_tag (l ∷ ls)) ≡ accept (l ∷ ls)
unfolding parse_if_header print_no_tag
parse_if_header-print_no_tag l ls h k =
    let text : Bytes = print_no_tag (l ∷ ls) in
    ap (λ s. lists_of (lex s).0 s)
      (trim_space-IsBracketed b'(' text refl (print_no_tag-IsBracketed l ls))
    ∙ parse_no_tag_lists-print (suc (length text)) l ls []
        (omega (arith, length-print_no_tag (l ∷ ls))) h k

-- The loop over tagged lists may read a tag: at the start, or after a list.
ReadsTag : Tagged → Type 0
ReadsTag st = not st.first && st.n == 0 ≡ false

list_of-tag : (l : IfList) → record (list_of l.conditions) { resource_tag = l.resource_tag } ≡ l
unfolding list_of
list_of-tag l = refl

-- The two rounds that read a tag and its list.
tagged_rounds :
    (f : ℕ) (l : IfList) (r : Bytes) (st : Tagged)
    → IsPrintable l
    → ReadsTag st
    → parse_tagged_lists (suc (suc f)) (b'<' ∷ l.resource_tag ++ b'>' ∷ (print_list l ++ r)) st ≡ (
        if no_bytes r
        then accept (st.lists ++ l ∷ [])
        else parse_tagged_lists f r
            (record { first = false; tag = l.resource_tag; n = 1; lists = st.lists ++ l ∷ [] }))
unfolding parse_tagged_lists tagged_round ReadsTag list_of
tagged_rounds f l r st (ne, p, free) ok =
    rw (lex_angle l.resource_tag (print_list l ++ r) free, tagged_round)
      (unfold print_list lex in rw (parse_list-print l r ne p) (rw ok))

parse_tagged_lists-print :
    (f : ℕ) (l : IfList) (ls : IfHeader) (st : Tagged)
    → length ls + length ls + 1 < f
    → All IsPrintable (l ∷ ls)
    → ReadsTag st
    → parse_tagged_lists f (print_tagged (l ∷ ls)) st ≡ accept (st.lists ++ (l ∷ ls))
unfolding print_tagged ReadsTag
parse_tagged_lists-print zero l ls st lt h ok = elim lt [ ]
parse_tagged_lists-print (suc zero) l ls st lt h ok = absurd (omega arith)
parse_tagged_lists-print (suc (suc f)) l [] st lt (p, _) ok = tagged_rounds f l [] st p ok
parse_tagged_lists-print (suc (suc f)) l (m ∷ ls) st lt (p, h) ok =
    tagged_rounds f l (print_tagged (m ∷ ls)) st p ok
    ∙ parse_tagged_lists-print f m ls
        (record { first = false; tag = l.resource_tag; n = 1; lists = st.lists ++ l ∷ [] })
        (omega arith) h refl
    ∙ ap accept (append_assoc st.lists (l ∷ []) (m ∷ ls))

length-print_tagged : (ls : IfHeader) → length ls + length ls ≤ length (print_tagged ls)
unfolding print_tagged print_list
length-print_tagged [] = omega arith
length-print_tagged (l ∷ ls) = omega (
  arith,
  length-append {0} l.resource_tag (b'>' ∷ (print_list l ++ print_tagged ls)),
  length-append {0} (print_list l) (print_tagged ls),
  length-print_tagged ls,
)

-- A header that gives each list its resource tag, printed, is parsed to itself, under the same
-- conditions on the lists, and with no '>' in the tags.
pub parse_if_header-print_tagged :
    (l : IfList) (ls : IfHeader)
    → All IsPrintable (l ∷ ls)
    → parse_if_header (print_tagged (l ∷ ls)) ≡ accept (l ∷ ls)
unfolding parse_if_header ReadsTag
parse_if_header-print_tagged l ls h =
    let text : Bytes = print_tagged (l ∷ ls) in
    let r : Bytes = print_list l ++ print_tagged ls in
    let begins : (lex text).0 ≡ angle_token =
      unfold print_tagged in ap (λ (t : Token). t.0) (lex_angle l.resource_tag r h.0.2) in
    let fits : length ls + length ls + 1 < suc (length text) =
      omega (arith, length-print_tagged (l ∷ ls)) in
    ap (λ s. lists_of (lex s).0 s)
      (trim_space-IsBracketed b'<' text refl (print_tagged-IsBracketed l ls))
    ∙ ap (λ t. lists_of t text) begins
    ∙ parse_tagged_lists-print (suc (length text)) l ls tagged_start fits h refl
