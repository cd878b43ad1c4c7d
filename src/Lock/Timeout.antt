-- ===== src/Lock/Timeout.antt =====
-- parseTimeout, which reads the HTTP header "Timeout" (webdav/lock.go).
use webdav_serverless.Base.{
  ℕ, ◌-◌, ◌*◌, ◌^◌, ◌<◌, Bool, true, false, ◌||◌, Option, none, some, [], ◌∷◌, ◌++◌, ◌≡◌, ◌≢◌, refl,
  sym, ap, ◌∙◌, Bytes, codes, if◌then◌else◌, ltb, ◌==◌, beq, bytes_eq, arith, All, All-append,
  append_assoc, has_prefix, drop, length, trim_space, trim_space-ends, is_space,
}
use webdav_serverless.Lock.Decimal.{
  parse_int, format_uint, parse_int-format_uint, AllDigits, format_uint-AllDigits,
  format_uint-EndsDigit,
}

-- A duration in nanoseconds, none for infiniteTimeout; or errInvalidTimeout.
pub data Timeout : Type 0 where
  lasts : Option ℕ → Timeout
  invalid_timeout : Timeout

-- `s[:strings.IndexByte(s, ',')]`
until_comma : Bytes → Bytes
until_comma [] = []
until_comma (c ∷ s) = let rest = until_comma s in if c == b',' then [] else c ∷ rest

abbrev pub seconds_prefix : Bytes
seconds_prefix = codes "Second-"

in_range : Option ℕ → Timeout
in_range none = invalid_timeout
in_range (some n) = if ltb (2 ^ 32 - 1) n then invalid_timeout else lasts (some (n * 1000000000))

parse_seconds : Bytes → Timeout
unfolding in_range parse_int
parse_seconds [] = invalid_timeout
parse_seconds (c ∷ s) =
    if ltb c b'0' || ltb b'9' c then invalid_timeout else in_range (parse_int (c ∷ s))

parse_trimmed : Bytes → Timeout
unfolding parse_seconds has_prefix bytes_eq
parse_trimmed s =
    if beq s (codes "Infinite")
    then lasts none
    else if has_prefix s seconds_prefix
    then parse_seconds (drop (length seconds_prefix) s)
    else invalid_timeout

unfoldable pub parse_timeout : Bytes → Timeout
unfolding parse_trimmed until_comma trim_space
parse_timeout [] = lasts none
parse_timeout (c ∷ s) = parse_trimmed (trim_space (until_comma (c ∷ s)))

test_parse_timeout : parse_timeout (codes " Second-3600, Infinite") ≡ lasts (some 3600000000000)
unfolding parse_timeout
test_parse_timeout = refl

-- No timeout is so long that the product with time.Second is out of an int64.
abbrev pub Fits : Timeout → Type 0
Fits (lasts none) = Unit
Fits (lasts (some d)) = d < 2 ^ 63
Fits invalid_timeout = Unit

Fits-if :
    (b : Bool) (x y : Timeout)
    → (b ≡ true → Fits x)
    → (b ≡ false → Fits y)
    → Fits (if b then x else y)
Fits-if true x y h k = h refl
Fits-if false x y h k = k refl

in_range-Fits : (o : Option ℕ) → Fits (in_range o)
unfolding in_range
in_range-Fits none = tt
in_range-Fits (some n) =
    Fits-if (ltb (2 ^ 32 - 1) n) invalid_timeout (lasts (some (n * 1000000000))) (λ p. tt)
      (λ p. ground (arith, p))

parse_seconds-Fits : (s : Bytes) → Fits (parse_seconds s)
unfolding parse_seconds
parse_seconds-Fits [] = tt
parse_seconds-Fits (c ∷ s) =
    Fits-if (ltb c b'0' || ltb b'9' c) invalid_timeout _ (λ p. tt)
      (λ p. in_range-Fits (parse_int (c ∷ s)))

parse_trimmed-Fits : (s : Bytes) → Fits (parse_trimmed s)
unfolding parse_trimmed
parse_trimmed-Fits s =
    Fits-if (beq s (codes "Infinite")) (lasts none) _ (λ p. tt)
      (λ p.
        Fits-if (has_prefix s seconds_prefix) _ invalid_timeout
          (λ q. parse_seconds-Fits (drop (length seconds_prefix) s)) (λ q. tt))

-- Whatever the header, the timeout that is read is less than 2^63 nanoseconds, so that the product with
-- time.Second does not overflow.
pub parse_timeout-Fits : (s : Bytes) → Fits (parse_timeout s)
unfolding parse_timeout
parse_timeout-Fits [] = tt
parse_timeout-Fits (c ∷ s) = parse_trimmed-Fits (trim_space (until_comma (c ∷ s)))

abbrev HasNoComma : Bytes → Type 0
HasNoComma = All (λ c. c ≢ b',')

until_comma-HasNoComma : (s : Bytes) → HasNoComma s → until_comma s ≡ s
unfolding until_comma
until_comma-HasNoComma [] h = refl
until_comma-HasNoComma (c ∷ s) (n, h) = ground (arith, until_comma-HasNoComma s h, n)

AllDigits-HasNoComma : (s : Bytes) → AllDigits s → HasNoComma s
AllDigits-HasNoComma [] h = tt
AllDigits-HasNoComma (c ∷ s) (d, h) = ((λ e. ground (arith, d, e)), AllDigits-HasNoComma s h)

append-ne-nil : (x : Bytes) (d : ℕ) → x ++ d ∷ [] ≢ []
append-ne-nil [] d e = cc
append-ne-nil (c ∷ x) d e = cc

parse_seconds-digits :
    (s : Bytes) (n : ℕ)
    → AllDigits s
    → s ≢ []
    → parse_int s ≡ some n
    → n < 2 ^ 32
    → parse_seconds s ≡ lasts (some (n * 1000000000))
unfolding parse_seconds in_range
parse_seconds-digits [] n h ne read l = absurd (ne refl)
parse_seconds-digits (c ∷ s) n (d, h) ne read l = ground (arith, d, read, l)

-- A timeout of some seconds, printed, is read back, for each number of 32 bits.
pub parse_timeout-format_uint :
    (n : ℕ)
    → n < 2 ^ 32
    → parse_timeout (seconds_prefix ++ format_uint n) ≡ lasts (some (n * 1000000000))
unfolding parse_timeout parse_trimmed
parse_timeout-format_uint n l =
    let digits : Bytes = format_uint n in
    let text : Bytes = seconds_prefix ++ digits in
    let (x, d, e, is) = format_uint-EndsDigit n in
    let free : HasNoComma text =
      All-append (λ c. c ≢ b',') seconds_prefix digits (ground arith)
        (AllDigits-HasNoComma digits (format_uint-AllDigits n)) in
    let ends : text ≡ (seconds_prefix ++ x) ++ d ∷ [] =
      ap (λ s. seconds_prefix ++ s) e ∙ sym (append_assoc seconds_prefix x (d ∷ [])) in
    let black : is_space d ≡ false = ground (arith, is) in
    let trimmed : trim_space text ≡ text =
      ap trim_space ends ∙ trim_space-ends b'S' d (codes "econd-" ++ x) refl black ∙ sym ends in
    ap (λ s. parse_trimmed (trim_space s)) (until_comma-HasNoComma text free)
    ∙ ap parse_trimmed trimmed
    ∙ parse_seconds-digits digits n (format_uint-AllDigits n) (λ p. append-ne-nil x d (sym e ∙ p))
        (parse_int-format_uint n (omega (arith, l))) l
