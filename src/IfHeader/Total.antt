-- ===== src/IfHeader/Total.antt =====
-- The fuel of the parser of webdav/if.go.
use mathlib.Core.List.{tail}
use webdav_serverless.Base.{
  ℕ, zero, suc, ◌<◌, ◌≤◌, ◌≡◌, ◌≢◌, refl, ◌⊎◌, inl, inr, Bool, true, false, some, List, [], ◌∷◌,
  ◌++◌, Bytes, length, trim_space, arith, Bool-cases, ◌==◌, if◌then◌else◌,
}
use webdav_serverless.IfHeader.{
  Condition, IfHeader, TokenType, eof_token, str_token, not_token, angle_token, square_token, rune,
  Parsed, accept, reject, out_of_fuel, skip_blanks, word, cut, closed, lex_delimiter, lex_word,
  lex_black, lex, condition_of, negated, parse_condition, close_list, parse_conditions, parse_list,
  parse_no_tag_lists, parse_tagged_lists, lists_of, parse_if_header, is_delimiter, is_rune, Token,
  ◌>>=◌, Tagged, tagged_round,
}

length-skip_blanks : (s : Bytes) → length (skip_blanks s) ≤ length s
unfolding skip_blanks
length-skip_blanks [] = omega arith
length-skip_blanks (c ∷ s) = ground (arith, length-skip_blanks s)

length-word : (s : Bytes) → length (word s).1 ≤ length s
unfolding word
length-word [] = omega arith
length-word (c ∷ s) = ground (arith, length-word s)

length-cut : (b : ℕ) (s x y : Bytes) → cut b s ≡ some (x, y) → length y ≤ length s
unfolding cut
length-cut b [] x y h = cc
length-cut b (c ∷ s) x y h = elim (Bool-cases (c == b)) [
  | inl p ↦ ground arith
  | inr p ↦ ground (arith, length-cut b s (tail x) y)
]

length-closed : (t : TokenType) (b : ℕ) (s : Bytes) → length (closed t b s).2 ≤ length s
unfolding closed
length-closed t b s = grind (arith, length-cut)

length-lex_delimiter : (c : ℕ) (s : Bytes) → length (lex_delimiter c s).2 ≤ length s
unfolding lex_delimiter
length-lex_delimiter c s =
    ground (arith, length-closed angle_token b'>' s, length-closed square_token b']' s)

length-lex_word : (p : Bytes × Bytes) → length (lex_word p).2 ≡ length p.1
unfolding lex_word
length-lex_word (w, s) = ground arith

-- A token that is not the end of the text takes a byte at least.
IsShorter : Token → Bytes → Type 0
IsShorter t s = (t.0 ≡ eof_token) ⊎ (length t.2 < length s)

lex_black-IsShorter : (s : Bytes) → IsShorter (lex_black s) s
unfolding lex_black IsShorter word
lex_black-IsShorter [] = inl refl
lex_black-IsShorter (c ∷ s) = elim (Bool-cases (is_delimiter c)) [
  | inl p ↦ inr (rw p (omega (arith, length-lex_delimiter c s)))
  | inr p ↦ inr (rw p (omega (arith, length-lex_word (c ∷ (word s).0, (word s).1), length-word s)))
]

lex-IsShorter : (s : Bytes) → IsShorter (lex s) s
unfolding lex IsShorter
lex-IsShorter s = elim (lex_black-IsShorter (skip_blanks s)) [
  | inl e ↦ inl e
  | inr h ↦ inr (omega (arith, length-skip_blanks s))
]

-- A parser that has fuel left, and leaves fewer than `n` bytes if it accepts.
abbrev Ends : {A : Type 0} → ℕ → Parsed (A × Bytes) → Type 0
Ends n (accept (a, s)) = length s < n
Ends n reject = Unit
Ends n out_of_fuel = ⊥

condition_of-Ends :
    (b : Bool) (t : Token) (s : Bytes) (n : ℕ)
    → IsShorter t s
    → length s ≤ n
    → Ends n (condition_of b t)
unfolding condition_of IsShorter
condition_of-Ends b (str_token, w, r) s n (inl e) k = cc
condition_of-Ends b (str_token, w, r) s n (inr h) k = omega arith
condition_of-Ends b (angle_token, w, r) s n (inl e) k = cc
condition_of-Ends b (angle_token, w, r) s n (inr h) k = omega arith
condition_of-Ends b (square_token, w, r) s n (inl e) k = cc
condition_of-Ends b (square_token, w, r) s n (inr h) k = omega arith
condition_of-Ends b (_, w, r) s n h k = tt

negated-Ends : (t : Token) (s : Bytes) → IsShorter t s → Ends (length s) (negated t)
unfolding negated IsShorter
negated-Ends (not_token, w, r) s (inl e) = cc
negated-Ends (not_token, w, r) s (inr h) =
    condition_of-Ends true (lex r) r (length s) (lex-IsShorter r) (omega arith)
negated-Ends (t, w, r) s h = condition_of-Ends false (t, w, r) s (length s) h (omega arith)

parse_condition-Ends : (s : Bytes) → Ends (length s) (parse_condition s)
unfolding parse_condition
parse_condition-Ends s = negated-Ends (lex s) s (lex-IsShorter s)

Ends-bind :
    {A B : Type 0} (m n : ℕ) (r : Parsed (A × Bytes)) (g : A × Bytes → Parsed (B × Bytes))
    → Ends m r
    → ((a : A) (s : Bytes) → length s < m → Ends n (g (a, s)))
    → Ends n (r >>= g)
Ends-bind m n (accept (a, s)) g h k = k a s h
Ends-bind m n reject g h k = tt
Ends-bind m n out_of_fuel g h k = absurd h

close_list-Ends :
    (cs : List Condition) (s : Bytes) (n : ℕ) → length s < n → Ends n (close_list cs s)
unfolding close_list
close_list-Ends [] s n h = tt
close_list-Ends (c ∷ cs) s n h = h

-- A rune is not the end of the text.
rune-IsShorter :
    (b : ℕ) (t : Token) (s : Bytes) → is_rune b t.0 ≡ true → IsShorter t s → length t.2 < length s
unfolding IsShorter
rune-IsShorter b (rune c, w, r) s e (inl p) = cc
rune-IsShorter b (rune c, w, r) s e (inr h) = h
rune-IsShorter b (_, w, r) s e h = cc

parse_conditions-Ends :
    (f : ℕ) (s : Bytes) (cs : List Condition) (n : ℕ)
    → length s < f
    → length s ≤ n
    → Ends n (parse_conditions f s cs)
unfolding parse_conditions
parse_conditions-Ends zero s cs n h k = elim h [ ]
parse_conditions-Ends (suc f) s cs n h k = elim (Bool-cases (is_rune b')' (lex s).0)) [
  | inl p ↦
      rw p
        (close_list-Ends cs _ n (omega (arith, rune-IsShorter b')' (lex s) s p (lex-IsShorter s))))
  | inr p ↦ rw p (
      Ends-bind (length s) n (parse_condition s) _ (parse_condition-Ends s)
        (λ c r lt. parse_conditions-Ends f r (cs ++ c ∷ []) n (omega arith) (omega arith)))
]

parse_list-Ends : (s : Bytes) → Ends (length s) (parse_list s)
unfolding parse_list
parse_list-Ends s = elim (Bool-cases (is_rune b'(' (lex s).0)) [
  | inl p ↦ rw p (
      parse_conditions-Ends (suc (length (lex s).2)) (lex s).2 [] (length s) (omega arith)
        (omega (arith, rune-IsShorter b'(' (lex s) s p (lex-IsShorter s))))
  | inr p ↦ rw p tt
]

Stops : {A : Type 0} → Parsed A → Type 0
Stops r = r ≢ out_of_fuel

Stops-bind :
    {A B : Type 0} (m : ℕ) (r : Parsed (A × Bytes)) (g : A × Bytes → Parsed B)
    → Ends m r
    → ((a : A) (s : Bytes) → length s < m → Stops (g (a, s)))
    → Stops (r >>= g)
unfolding Stops
Stops-bind m (accept (a, s)) g h k = k a s h
Stops-bind m reject g h k = λ e. cc
Stops-bind m out_of_fuel g h k = absurd h

Stops-if : {A : Type 0} (b : Bool) (x y : Parsed A) → Stops x → Stops y → Stops (if b then x else y)
Stops-if true x y h k = h
Stops-if false x y h k = k

Stops-accept : {A : Type 0} (a : A) → Stops (accept a)
unfolding Stops
Stops-accept a = λ e. cc

Stops-reject : (A : Type 0) → Stops {A = A} reject
unfolding Stops
Stops-reject A = λ e. cc

parse_no_tag_lists-Stops :
    (f : ℕ) (s : Bytes) (h : IfHeader) → length s < f → Stops (parse_no_tag_lists f s h)
unfolding parse_no_tag_lists
parse_no_tag_lists-Stops zero s h k = elim k [ ]
parse_no_tag_lists-Stops (suc f) s h k =
    Stops-bind (length s) (parse_list s) _ (parse_list-Ends s)
      λ l r lt. Stops-if _ _ _ (Stops-accept _) (parse_no_tag_lists-Stops f r _ (omega arith))

tagged_round-Stops :
    (again : Bytes → Tagged → Parsed IfHeader) (t : Token) (s : Bytes) (st : Tagged)
    → IsShorter t s
    → ((r : Bytes) (st' : Tagged) → length r < length s → Stops (again r st'))
    → Stops (tagged_round again t s st)
unfolding tagged_round IsShorter
tagged_round-Stops again (angle_token, w, r) s st (inl e) ih = cc
tagged_round-Stops again (angle_token, w, r) s st (inr h) ih =
    Stops-if _ _ _ (Stops-reject _) (ih r _ h)
tagged_round-Stops again (rune c, w, r) s st h ih =
    Stops-if _ _ _
      (Stops-bind (length s) (parse_list s) _ (parse_list-Ends s)
        (λ l rest lt. Stops-if _ _ _ (Stops-accept _) (ih rest _ lt)))
      (Stops-reject _)
tagged_round-Stops again (_, w, r) s st h ih = Stops-reject _

parse_tagged_lists-Stops :
    (f : ℕ) (s : Bytes) (st : Tagged) → length s < f → Stops (parse_tagged_lists f s st)
unfolding parse_tagged_lists
parse_tagged_lists-Stops zero s st k = elim k [ ]
parse_tagged_lists-Stops (suc f) s st k =
    tagged_round-Stops _ (lex s) s st (lex-IsShorter s)
      λ r st' lt. parse_tagged_lists-Stops f r st' (omega arith)

lists_of-Stops : (t : TokenType) (s : Bytes) → Stops (lists_of t s)
unfolding lists_of
lists_of-Stops angle_token s = parse_tagged_lists-Stops _ s _ (omega arith)
lists_of-Stops (rune c) s =
    Stops-if _ _ _ (parse_no_tag_lists-Stops _ s [] (omega arith)) (Stops-reject _)
lists_of-Stops _ s = Stops-reject _

-- On every text the header parser returns a header or refuses: the fuel, one more than the length
-- of the text, never runs out, in the outer loops or in the loop over the conditions of a list.
pub parse_if_header-ne-out_of_fuel : (header : Bytes) → parse_if_header header ≢ out_of_fuel
unfolding parse_if_header Stops
parse_if_header-ne-out_of_fuel header =
    lists_of-Stops (lex (trim_space header)).0 (trim_space header)
