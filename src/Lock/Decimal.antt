-- ===== src/Lock/Decimal.antt =====
-- The decimal numbers of Go's package strconv, as webdav/lock.go prints and parses them.
use webdav_serverless.Base.{
  ℕ, zero, suc, ◌+◌, ◌-◌, ◌*◌, ◌/◌, ◌%◌, ◌^◌, ◌<◌, Bool, true, false, ◌&&◌, Option, none, some, [],
  ◌∷◌, ◌++◌, ◌≡◌, ◌≢◌, sym, refl, ap, ◌∙◌, Bytes, if◌then◌else◌, leb, ◌==◌, arith, Bool-cases, inl,
  inr, All,
}

-- strconv.FormatUint(n, 10): the digits of a number, the last one first, as long as there is fuel.
pub digits : ℕ → ℕ → Bytes → Bytes
digits zero n done = done
digits (suc fuel) n done =
    let next = (48 + n % 10) ∷ done in
    let rest = digits fuel (n / 10) next in if n / 10 == 0 then next else rest

-- Twenty digits are enough for 64 bits.
unfoldable pub format_uint : ℕ → Bytes
unfolding digits
format_uint n = digits 20 n []

abbrev pub is_digit : ℕ → Bool
is_digit c = leb 48 c && leb c 57

-- The digits of a text, after those that make `n`; none where another byte stands there.
pub parse_digits : ℕ → Bytes → Option ℕ
parse_digits n [] = some n
parse_digits n (c ∷ s) =
    let rest = parse_digits (n * 10 + (c - 48)) s in if is_digit c then rest else none

-- strconv.ParseInt(s, 10, 64) on a text that begins with a digit: none where it returns an error.
unfoldable pub parse_int : Bytes → Option ℕ
unfolding parse_digits
parse_int s = elim (parse_digits 0 s) [
  | none ↦ none
  | some n ↦ if leb (2 ^ 63) n then none else some n
]

-- 10 to the power of a number.
abbrev pub power : ℕ → ℕ
power zero = 1
power (suc k) = 10 * power k

parse_digit :
    (m r : ℕ) (done : Bytes)
    → r < 10
    → parse_digits m ((48 + r) ∷ done) ≡ parse_digits (m * 10 + r) done
unfolding parse_digits
parse_digit m r done l =
    let is : is_digit (48 + r) ≡ true = ground (arith, l) in
    let value : 48 + r - 48 ≡ r = omega arith in
    ap (λ b. if b then parse_digits (m * 10 + (48 + r - 48)) done else none) is
    ∙ ap (λ k. parse_digits (m * 10 + k) done) value

parse_digits-digits :
    (fuel n : ℕ) (done : Bytes)
    → n < power fuel
    → parse_digits 0 (digits fuel n done) ≡ parse_digits n done
unfolding digits
parse_digits-digits zero n done l =
    let is : 0 ≡ n = omega (arith, l) in ap (λ m. parse_digits m done) is
parse_digits-digits (suc fuel) n done l =
    let small : n % 10 < 10 = omega arith in
    let shorter : n / 10 < power fuel = omega (arith, l) in
    let joined : n / 10 * 10 + n % 10 ≡ n = omega arith in
    elim (Bool-cases (n / 10 == 0)) [
      | inl p ↦
          let is : 0 * 10 + n % 10 ≡ n = ground (arith, p, joined) in
          ap
            (λ b.
              parse_digits 0
                (if b then (48 + n % 10) ∷ done else digits fuel (n / 10) ((48 + n % 10) ∷ done)))
            p
          ∙ parse_digit 0 (n % 10) done small
          ∙ ap (λ m. parse_digits m done) is
      | inr p ↦
          ap
            (λ b.
              parse_digits 0
                (if b then (48 + n % 10) ∷ done else digits fuel (n / 10) ((48 + n % 10) ∷ done)))
            p
          ∙ parse_digits-digits fuel (n / 10) ((48 + n % 10) ∷ done) shorter
          ∙ parse_digit (n / 10) (n % 10) done small
          ∙ ap (λ m. parse_digits m done) joined
    ]

-- What FormatUint prints, ParseInt reads, as far as int64 goes.
pub parse_int-format_uint : (n : ℕ) → n < 2 ^ 63 → parse_int (format_uint n) ≡ some n
unfolding parse_int format_uint
parse_int-format_uint n l =
    let fits : n < power 20 = omega (arith, l) in
    let read : parse_digits 0 (digits 20 n []) ≡ some n = parse_digits-digits 20 n [] fits in
    ground (arith, read, l)

abbrev pub AllDigits : Bytes → Type 0
AllDigits = All (λ c. is_digit c ≡ true)

either : {A : Type 0} (Q : A → Type 0) (b : Bool) (x y : A) → Q x → Q y → Q (if b then x else y)
either Q true x y h k = h
either Q false x y h k = k

digits-AllDigits : (fuel n : ℕ) (done : Bytes) → AllDigits done → AllDigits (digits fuel n done)
unfolding digits
digits-AllDigits zero n done h = h
digits-AllDigits (suc fuel) n done h =
    let is : is_digit (48 + n % 10) ≡ true = ground arith in
    either AllDigits (n / 10 == 0) ((48 + n % 10) ∷ done) _ (is, h)
      (digits-AllDigits fuel (n / 10) ((48 + n % 10) ∷ done) (is, h))

-- The digits that are there stay at the end.
abbrev pub EndsDigit : Bytes → Type 0
EndsDigit s = (x : Bytes) × (d : ℕ) × (s ≡ x ++ d ∷ []) × (is_digit d ≡ true)

digits-EndsDigit : (fuel n : ℕ) (done : Bytes) → EndsDigit done → EndsDigit (digits fuel n done)
unfolding digits
digits-EndsDigit zero n done h = h
digits-EndsDigit (suc fuel) n done (x, d, e, is) =
    let more : EndsDigit ((48 + n % 10) ∷ done) =
      ((48 + n % 10) ∷ x, d, ap (λ s. (48 + n % 10) ∷ s) e, is) in
    either EndsDigit _ _ _ more (digits-EndsDigit fuel (n / 10) ((48 + n % 10) ∷ done) more)

pub format_uint-AllDigits : (n : ℕ) → AllDigits (format_uint n)
unfolding format_uint
format_uint-AllDigits n = digits-AllDigits 20 n [] tt

pub format_uint-EndsDigit : (n : ℕ) → EndsDigit (format_uint n)
unfolding format_uint digits
format_uint-EndsDigit n =
    let is : is_digit (48 + n % 10) ≡ true = ground arith in
    let more : EndsDigit ((48 + n % 10) ∷ []) = ([], 48 + n % 10, refl, is) in
    either EndsDigit _ _ _ more (digits-EndsDigit 19 (n / 10) ((48 + n % 10) ∷ []) more)

pub format_uint-ne-nil : (n : ℕ) → format_uint n ≢ []
format_uint-ne-nil n e = let (x, d, is, _) = format_uint-EndsDigit n in ends x d (sym is ∙ e)
  where
    ends : (x : Bytes) (d : ℕ) → x ++ d ∷ [] ≢ []
    ends [] d e = cc
    ends (c ∷ x) d e = cc
