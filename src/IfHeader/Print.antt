-- ===== src/IfHeader/Print.antt =====
-- Printed headers, which the parser of webdav/if.go reads back.
pub mod Headers
use webdav_serverless.Base.{
  ℕ, zero, suc, ◌+◌, ◌<◌, ◌≤◌, ◌≡◌, ◌≢◌, refl, ap, ◌∙◌, sym, ◌⊎◌, inl, inr, Bool, true, false,
  Option, none, some, List, [], ◌∷◌, ◌++◌, append_assoc, append-nil, Bytes, codes, length, arith,
  Bool-cases, ◌==◌, All, if◌then◌else◌, trim_space, trim_space-ends, length-append, bytes_eq,
}
use webdav_serverless.IfHeader.{
  Condition, IfList, IfHeader, TokenType, err_token, eof_token, str_token, not_token, angle_token,
  square_token, rune, Parsed, accept, reject, out_of_fuel, cut, closed, lex, condition_of, negated,
  parse_condition, close_list, parse_conditions, parse_list, parse_no_tag_lists, parse_tagged_lists,
  lists_of, parse_if_header, Token, ◌>>=◌, Tagged, tagged_round, tagged_start, no_bytes, is_rune,
}

print_value : Bytes → Bytes → Bytes
print_value token [] = b'<' ∷ token ++ b'>' ∷ []
print_value token (e ∷ etag) = b'[' ∷ (e ∷ etag) ++ b']' ∷ []

print_condition : Condition → Bytes
unfolding print_value
print_condition c = (if c.is_not then codes "Not" else []) ++ print_value c.token c.etag

print_conditions : List Condition → Bytes
unfolding print_condition
print_conditions [] = []
print_conditions (c ∷ cs) = print_condition c ++ print_conditions cs

print_list : IfList → Bytes
print_list l = b'(' ∷ print_conditions l.conditions ++ b')' ∷ []

-- A No-tag-list header.
pub print_no_tag : IfHeader → Bytes
unfolding print_list
print_no_tag [] = []
print_no_tag (l ∷ ls) = print_list l ++ print_no_tag ls

-- A Tagged-list header, with the resource tag in front of each list.
pub print_tagged : IfHeader → Bytes
unfolding print_list
print_tagged [] = []
print_tagged (l ∷ ls) = b'<' ∷ l.resource_tag ++ b'>' ∷ (print_list l ++ print_tagged ls)

abbrev pub IsFree : ℕ → Bytes → Type 0
IsFree b = All (λ c. c ≢ b)

-- A token with no '>', or an ETag with no ']' and no token.
abbrev IsValue : Bytes → Bytes → Type 0
IsValue token [] = IsFree b'>' token
IsValue token (e ∷ etag) = (token ≡ []) × IsFree b']' (e ∷ etag)

abbrev pub IsPrintable : IfList → Type 0
IsPrintable l =
    (l.conditions ≢ [])
    × All (λ (c : Condition). IsValue c.token c.etag) l.conditions
    × IsFree b'>' l.resource_tag

cut-append : (b : ℕ) (w r : Bytes) → IsFree b w → cut b (w ++ b ∷ r) ≡ some (w, r)
unfolding cut
cut-append b [] r h = ground arith
cut-append b (c ∷ w) r (n, h) = ground (arith, cut-append b w r h)

closed-append :
    (t : TokenType) (b : ℕ) (w r : Bytes) → IsFree b w → closed t b (w ++ b ∷ r) ≡ (t, w, r)
unfolding closed
closed-append t b w r h = rw (cut-append b w r h, closed)

lex_angle : (w r : Bytes) → IsFree b'>' w → lex (b'<' ∷ w ++ b'>' ∷ r) ≡ (angle_token, w, r)
unfolding lex
lex_angle w r h = closed-append angle_token b'>' w r h

lex_square : (w r : Bytes) → IsFree b']' w → lex (b'[' ∷ w ++ b']' ∷ r) ≡ (square_token, w, r)
unfolding lex
lex_square w r h = closed-append square_token b']' w r h

-- The value of a condition, as the lexer reads it.
value_token : Bytes → Bytes → Bytes → Token
value_token token [] r = (angle_token, token, r)
value_token token (e ∷ etag) r = (square_token, e ∷ etag, r)

lex-print_value :
    (token etag r : Bytes)
    → IsValue token etag
    → lex (print_value token etag ++ r) ≡ value_token token etag r
unfolding print_value value_token
lex-print_value token [] r h = rw append_assoc (lex_angle token r h)
lex-print_value token (e ∷ etag) r h = rw append_assoc (lex_square (e ∷ etag) r h.1)

lex_not-print_value :
    (token etag r : Bytes)
    → lex (codes "Not" ++ print_value token etag ++ r)
      ≡ (not_token, [], print_value token etag ++ r)
unfolding print_value lex
lex_not-print_value token [] r = refl
lex_not-print_value token (e ∷ etag) r = refl

condition_of-value_token :
    (n : Bool) (token etag r : Bytes)
    → IsValue token etag
    → condition_of n (value_token token etag r)
      ≡ accept (record { is_not = n; token = token; etag = etag }, r)
unfolding condition_of value_token
condition_of-value_token n token [] r h = refl
condition_of-value_token n token (e ∷ etag) r h = rw h.0

negated-value_token :
    (token etag r : Bytes)
    → negated (value_token token etag r) ≡ condition_of false (value_token token etag r)
unfolding negated value_token
negated-value_token token [] r = refl
negated-value_token token (e ∷ etag) r = refl

parse_condition-value :
    (n : Bool) (token etag r : Bytes)
    → IsValue token etag
    → parse_condition ((if n then codes "Not" else []) ++ print_value token etag ++ r)
      ≡ accept (record { is_not = n; token = token; etag = etag }, r)
unfolding parse_condition
parse_condition-value true token etag r h =
    ap negated (lex_not-print_value token etag r)
    ∙ ap (condition_of true) (lex-print_value token etag r h)
    ∙ condition_of-value_token true token etag r h
parse_condition-value false token etag r h =
    ap negated (lex-print_value token etag r h)
    ∙ negated-value_token token etag r
    ∙ condition_of-value_token false token etag r h

parse_condition-print :
    (c : Condition) (r : Bytes)
    → IsValue c.token c.etag
    → parse_condition (print_condition c ++ r) ≡ accept (c, r)
unfolding print_condition
parse_condition-print c r h = parse_condition-value c.is_not c.token c.etag r h

-- A printed condition begins no closing parenthesis.
lex-print_condition :
    (c : Condition) (r : Bytes)
    → IsValue c.token c.etag
    → is_rune b')' (lex (print_condition c ++ r)).0 ≡ false
unfolding print_condition value_token
lex-print_condition c r h = go c.is_not c.token c.etag h
  where
    go :
        (n : Bool) (token etag : Bytes)
        → IsValue token etag
        → is_rune b')' (lex (((if n then codes "Not" else []) ++ print_value token etag) ++ r)).0
          ≡ false
    go true token etag h = rw (lex_not-print_value token etag r)
    go false token [] h = rw (lex-print_value token [] r h, value_token)
    go false token (e ∷ etag) h = rw (lex-print_value token (e ∷ etag) r h, value_token)

list_of : List Condition → IfList
list_of cs = record { resource_tag = []; conditions = cs }

close_list-eq :
    (cs : List Condition) (r : Bytes) → cs ≢ [] → close_list cs r ≡ accept (list_of cs, r)
unfolding close_list list_of
close_list-eq [] r h = absurd (h refl)
close_list-eq (c ∷ cs) r h = refl

parse_conditions-print :
    (f : ℕ) (cs done : List Condition) (r : Bytes)
    → length cs < f
    → done ++ cs ≢ []
    → All (λ (c : Condition). IsValue c.token c.etag) cs
    → parse_conditions f (print_conditions cs ++ b')' ∷ r) done ≡ accept (list_of (done ++ cs), r)
unfolding parse_conditions print_conditions close_list lex
parse_conditions-print zero cs done r lt ne h = elim lt [ ]
parse_conditions-print (suc f) [] done r lt ne h =
    let ends : done ++ [] ≡ done = append-nil done in
    close_list-eq done r (λ e. ne (ends ∙ e)) ∙ ap (λ cs. accept (list_of cs, r)) (sym ends)
parse_conditions-print (suc f) (c ∷ cs) done r lt ne (hc, h) =
    let tail : Bytes = print_conditions cs ++ b')' ∷ r in
    let first : print_condition c ++ print_conditions cs ++ b')' ∷ r ≡ print_condition c ++ tail =
      append_assoc (print_condition c) _ _ in
    let split : done ++ c ∷ [] ++ cs ≡ done ++ (c ∷ cs) = append_assoc done (c ∷ []) cs in
    ap (λ s. parse_conditions (suc f) s done) first
    ∙ rw (lex-print_condition c tail hc, parse_condition-print c tail hc)
        (parse_conditions-print f cs (done ++ c ∷ []) r (omega arith) (λ e. ne (sym split ∙ e)) h
          ∙ ap (λ cs. accept (list_of cs, r)) split)

length-print_value : (token etag : Bytes) → 0 < length (print_value token etag)
unfolding print_value
length-print_value token [] = omega arith
length-print_value token (e ∷ etag) = omega arith

length-print_conditions : (cs : List Condition) → length cs ≤ length (print_conditions cs)
unfolding print_conditions
length-print_conditions [] = omega arith
length-print_conditions (c ∷ cs) = omega (
  arith,
  length-append {0} (print_condition c) (print_conditions cs),
  length-append {0} (if c.is_not then codes "Not" else []) (print_value c.token c.etag),
  length-print_value c.token c.etag,
  length-print_conditions cs,
)

parse_list-print :
    (l : IfList) (r : Bytes)
    → l.conditions ≢ []
    → All (λ (c : Condition). IsValue c.token c.etag) l.conditions
    → parse_list (print_list l ++ r) ≡ accept (list_of l.conditions, r)
unfolding parse_list print_list
parse_list-print l r ne h =
    let text : Bytes = print_conditions l.conditions ++ b')' ∷ r in
    let fits : length l.conditions < suc (length text) = omega (
      arith,
      length-print_conditions l.conditions,
      length-append {0} (print_conditions l.conditions) (b')' ∷ r),
    ) in
    let same : print_list l ++ r ≡ b'(' ∷ text =
      ap (λ s. b'(' ∷ s) (append_assoc (print_conditions l.conditions) (b')' ∷ []) r) in
    ap parse_list same ∙ parse_conditions-print (suc (length text)) l.conditions [] r fits ne h
