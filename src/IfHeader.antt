-- ===== src/IfHeader.antt =====
-- webdav/if.go: the lexer and the parser of the HTTP header "If".
pub mod Total
pub mod Print
pub mod Shape
use webdav_serverless.Base.{
  ℕ, zero, suc, Bool, true, false, ◌&&◌, ◌||◌, ◌+◌, ◌≡◌, refl, Option, none, some, List, [], ◌∷◌,
  ◌++◌, ◌==◌, if◌then◌else◌, beq, Bytes, codes, trim_space, bytes_eq, length, not,
}

-- Not, Token and ETag of a Condition (webdav/lock.go).
pub record Condition : Type 0 where
  pub is_not : Bool
  pub token : Bytes
  pub etag : Bytes

pub record IfList : Type 0 where
  pub resource_tag : Bytes
  pub conditions : List Condition

-- An `ifHeader` is the list of its lists.
abbrev pub IfHeader : Type 0
IfHeader = List IfList

-- The negative token types of the source, and `rune c` for a single-rune token.
pub data TokenType : Type 0 where
  err_token eof_token str_token not_token angle_token square_token : TokenType
  rune : ℕ → TokenType

-- What a parser returns: a value, `ok == false`, or (in the model only) that its fuel ran out.
pub data Parsed {ℓ} (A : Type ℓ) : Type ℓ where
  accept : A → Parsed A
  reject : Parsed A
  out_of_fuel : Parsed A

infixl 5 ◌>>=◌
abbrev pub ◌>>=◌ {ℓ κ} : {A : Type ℓ} {B : Type κ} → Parsed A → (A → Parsed B) → Parsed B
accept a >>= f = f a
reject >>= f = reject
out_of_fuel >>= f = out_of_fuel

skip_blanks : Bytes → Bytes
skip_blanks [] = []
skip_blanks (c ∷ s) = let rest = skip_blanks s in if c == 9 || c == 32 then rest else c ∷ s

-- The bytes that end a word: '\t' ' ' '(' ')' '<' '>' '[' ']'.
abbrev pub is_delimiter : ℕ → Bool
is_delimiter c =
    c == 9 || c == 32 || c == b'(' || c == b')' || c == b'<' || c == b'>' || c == b'[' || c == b']'

-- `s[:i], s[i:]` for the index `i` at which the loop stops.
word : Bytes → Bytes × Bytes
word [] = ([], [])
word (c ∷ s) = let (w, rest) = word s in if is_delimiter c then ([], c ∷ s) else (c ∷ w, rest)

-- `s[:j], s[j+1:]` for `j = strings.IndexByte(s, c)`, and `none` for -1.
cut : ℕ → Bytes → Option (Bytes × Bytes)
cut b [] = none
cut b (c ∷ s) =
    let found = cut b s in
    if c == b
    then some ([], s)
    else elim found [ none ↦ none | some (before, after) ↦ some (c ∷ before, after) ]

-- Token type, token text, and the text that remains.
abbrev pub Token : Type 0
Token = TokenType × Bytes × Bytes

-- A token that is closed by the byte `b`.
closed : TokenType → ℕ → Bytes → Token
unfolding cut
closed t b s = elim (cut b s) [
  | none ↦ (err_token, [], [])
  | some (before, after) ↦ (t, before, after)
]

-- The token that a delimiter begins.
lex_delimiter : ℕ → Bytes → Token
unfolding closed
lex_delimiter c s =
    if c == b'<'
    then closed angle_token b'>' s
    else if c == b'['
    then closed square_token b']' s
    else (rune c, [], s)

lex_word : Bytes × Bytes → Token
lex_word (w, rest) = if beq w (codes "Not") then (not_token, [], rest) else (str_token, w, rest)

lex_black : Bytes → Token
unfolding word lex_word lex_delimiter
lex_black [] = (eof_token, [], [])
lex_black (c ∷ s) = if is_delimiter c then lex_delimiter c s else lex_word (word (c ∷ s))

unfoldable pub lex : Bytes → Token
unfolding lex_black skip_blanks bytes_eq
lex s = lex_black (skip_blanks s)

-- A token type that is the rune `b`.
abbrev pub is_rune : ℕ → TokenType → Bool
is_rune b (rune c) = c == b
is_rune b _ = false

-- The `switch` on the token that carries the text of the condition.
condition_of : Bool → Token → Parsed (Condition × Bytes)
condition_of n (str_token, w, s) = accept (record { is_not = n; token = w; etag = [] }, s)
condition_of n (angle_token, w, s) = accept (record { is_not = n; token = w; etag = [] }, s)
condition_of n (square_token, w, s) = accept (record { is_not = n; token = []; etag = w }, s)
condition_of n (_, w, s) = reject

negated : Token → Parsed (Condition × Bytes)
unfolding condition_of lex
negated (not_token, _, s) = condition_of true (lex s)
negated (t, w, s) = condition_of false (t, w, s)

unfoldable pub parse_condition : Bytes → Parsed (Condition × Bytes)
unfolding negated
parse_condition s = negated (lex s)

-- What `parseList` returns at the closing parenthesis.
close_list : List Condition → Bytes → Parsed (IfList × Bytes)
close_list [] s = reject
close_list (c ∷ cs) s = accept (record { resource_tag = []; conditions = c ∷ cs }, s)

-- The loop of `parseList`, which has read the conditions `cs`.
parse_conditions : ℕ → Bytes → List Condition → Parsed (IfList × Bytes)
parse_conditions zero s cs = out_of_fuel
parse_conditions (suc f) s cs =
    if is_rune b')' (lex s).0
    then close_list cs (lex s).2
    else (do (c, rest) ← parse_condition s; parse_conditions f rest (cs ++ c ∷ []))

unfoldable pub parse_list : Bytes → Parsed (IfList × Bytes)
unfolding parse_conditions close_list parse_condition
parse_list s =
    if is_rune b'(' (lex s).0
    then parse_conditions (suc (length (lex s).2)) (lex s).2 []
    else reject

abbrev no_bytes : Bytes → Bool
no_bytes [] = true
no_bytes (c ∷ s) = false

parse_no_tag_lists : ℕ → Bytes → IfHeader → Parsed IfHeader
parse_no_tag_lists zero s h = out_of_fuel
parse_no_tag_lists (suc f) s h = do
  (l, remaining) ← parse_list s
  let more = parse_no_tag_lists f remaining (h ++ l ∷ [])
  if no_bytes remaining then accept (h ++ l ∷ []) else more

-- The state of the loop of `parseTaggedLists`: `first`, `resourceTag`, `n` and the lists read.
record Tagged : Type 0 where
  first : Bool
  tag : Bytes
  n : ℕ
  lists : IfHeader

-- A round of the loop, with the rounds that follow as `again`.
tagged_round : (Bytes → Tagged → Parsed IfHeader) → Token → Bytes → Tagged → Parsed IfHeader
tagged_round again (angle_token, w, remaining) s st =
    if not st.first && st.n == 0
    then reject
    else again remaining (record st { first = false; tag = w; n = 0 })
tagged_round again (rune c, w, remaining) s st =
    if c == b'('
    then (do
      (l, rest) ← parse_list s
      let lists = st.lists ++ record l { resource_tag = st.tag } ∷ []
      if no_bytes rest
          then accept lists
          else again rest (record st { first = false; n = st.n + 1; lists = lists }))
    else reject
tagged_round again (_, w, remaining) s st = reject

parse_tagged_lists : ℕ → Bytes → Tagged → Parsed IfHeader
parse_tagged_lists zero s st = out_of_fuel
parse_tagged_lists (suc f) s st = tagged_round (parse_tagged_lists f) (lex s) s st

abbrev tagged_start : Tagged
tagged_start = record { first = true; tag = []; n = 0; lists = [] }

lists_of : TokenType → Bytes → Parsed IfHeader
lists_of angle_token s = parse_tagged_lists (suc (length s)) s tagged_start
lists_of (rune c) s = if c == b'(' then parse_no_tag_lists (suc (length s)) s [] else reject
lists_of _ s = reject

unfoldable pub parse_if_header : Bytes → Parsed IfHeader
unfolding lists_of parse_no_tag_lists parse_tagged_lists tagged_round parse_list lex trim_space
parse_if_header header = let s = trim_space header in lists_of (lex s).0 s

test_tagged :
    parse_if_header (codes " <http://x/a> (<t1> [e]) (Not <t2>)")
    ≡ accept (
        record {
          resource_tag = codes "http://x/a";
          conditions =
              record { is_not = false; token = codes "t1"; etag = [] }
              ∷ record { is_not = false; token = []; etag = codes "e" }
              ∷ [];
        }
        ∷ record {
          resource_tag = codes "http://x/a";
          conditions = record { is_not = true; token = codes "t2"; etag = [] } ∷ [];
        }
        ∷ [])
unfolding parse_if_header
test_tagged = refl

test_reject : parse_if_header (codes "<a> <b> (<c>)") ≡ reject
unfolding parse_if_header
test_reject = refl
