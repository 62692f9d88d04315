-- ===== src/Common/Decimal/Printed.antt =====
-- What is printed in base 10 parses to the number it was.
use air_whatsbot.Common.{
  ℕ, zero, suc, ◌+◌, ◌-◌, ◌*◌, ◌/◌, ◌%◌, ◌^◌, ◌≤◌, ◌<◌, ◌≡◌, refl, ap, sym, ◌∙◌, true, false,
  Option, none, some, List, [], ◌∷◌, ◌++◌, arith, ltb, leb, lt→ltb, ltb→lt, ltb→ge, nat_beq,
  if◌then◌else◌, Bool-cases, inl, inr,
}
use air_whatsbot.Common.Int.{ℤ, pos, negsuc}
use air_whatsbot.Common.Decimal.{
  is_digit, digits_value, in_range, parse_uint, positive, negative, parse_int, format_rounds,
  format_uint, format_int,
}

digits_value-snoc :
    (acc : ℕ) (xs : List ℕ) (c v : ℕ)
    → is_digit c ≡ true
    → digits_value acc xs ≡ some v
    → digits_value acc (xs ++ c ∷ []) ≡ some (v * 10 + (c - 48))
unfolding digits_value
digits_value-snoc acc [] c v d h = rw d (ap (λ o. value_of o c) h)
  where
    value_of : Option ℕ → ℕ → Option ℕ
    value_of none c = none
    value_of (some v) c = some (v * 10 + (c - 48))
digits_value-snoc acc (x ∷ xs) c v d h = elim (Bool-cases (is_digit x)) [
  | inl e ↦ rw e (digits_value-snoc (acc * 10 + (x - 48)) xs c v d (sym (rw e refl) ∙ h))
  | inr e ↦ absurd (let bad : none ≡ some v = sym (rw e refl) ∙ h in cc)
]

digit_of : (n : ℕ) → n < 10 → is_digit (48 + n) ≡ true
digit_of n l = ground arith

rounds-value : (k n : ℕ) → n ≤ k → digits_value 0 (format_rounds k n) ≡ some n
unfolding digits_value format_rounds
rounds-value zero n l = rw (digit_of (n % 10) (omega arith)) (ap some (omega arith))
rounds-value (suc k) n l = elim (Bool-cases (ltb n 10)) [
  | inl e ↦ rw e (rw (digit_of n (ltb→lt n 10 e)) (ap some (omega arith)))
  | inr e ↦ rw e (
      digits_value-snoc 0 (format_rounds k (n / 10)) (48 + n % 10) (n / 10)
        (digit_of (n % 10) (omega arith)) (rounds-value k (n / 10) (omega (arith, ltb→ge n 10 e)))
      ∙ ap some (omega arith))
]

-- A printed number begins with a digit.
rounds-digit :
    (k n : ℕ) → (c : ℕ) × (rest : List ℕ) × (format_rounds k n ≡ c ∷ rest) × (is_digit c ≡ true)
unfolding format_rounds
rounds-digit zero n = (48 + n % 10, [], refl, digit_of (n % 10) (omega arith))
rounds-digit (suc k) n = elim (Bool-cases (ltb n 10)) [
  | inl e ↦ (48 + n, [], rw e refl, digit_of n (ltb→lt n 10 e))
  | inr e ↦
      (let (c, rest, eq, d) = rounds-digit k (n / 10) in
        (c, rest ++ (48 + n % 10) ∷ [], rw e (ap (λ xs. xs ++ (48 + n % 10) ∷ []) eq), d))
]

parse_uint-cons :
    (c : ℕ) (rest : List ℕ) → parse_uint 64 (c ∷ rest) ≡ in_range 64 (digits_value 0 (c ∷ rest))
unfolding parse_uint
parse_uint-cons c rest = refl

-- A printed number as its first digit and the rest, with what it parses to.
printed :
    (n : ℕ)
    → n < 2 ^ 64
    → (c : ℕ) × (rest : List ℕ) × (format_uint n ≡ c ∷ rest)
      × (is_digit c ≡ true)
      × (parse_uint 64 (c ∷ rest) ≡ some n)
unfolding format_uint
printed n l =
    let (c, rest, eq, d) = rounds-digit n n in
    (
      c,
      rest,
      eq,
      d,
      parse_uint-cons c rest
          ∙ ap (λ xs. in_range 64 (digits_value 0 xs)) (sym eq)
          ∙ ap (in_range 64) (rounds-value n n (omega arith))
          ∙ ap (λ b. if b then some n else none) (lt→ltb n (2 ^ 64) l),
    )

-- The integers of 64 bits.
abbrev pub IsInt64 : ℤ → Type 0
IsInt64 (pos n) = n < 2 ^ 63
IsInt64 (negsuc n) = n < 2 ^ 63

no_sign : (c : ℕ) → is_digit c ≡ true → (nat_beq c 45 ≡ false) × (nat_beq c 43 ≡ false)
no_sign c d = (ground arith, ground arith)

parse_int-digit :
    (c : ℕ) (rest : List ℕ)
    → is_digit c ≡ true
    → parse_int (c ∷ rest) ≡ positive (parse_uint 64 (c ∷ rest))
unfolding parse_int
parse_int-digit c rest d = let (a, b) = no_sign c d in rw a (rw b refl)

-- A printed integer of 64 bits parses to itself.
pub parse_int-format_int : (z : ℤ) → IsInt64 z → parse_int (format_int z) ≡ some z
unfolding format_int
parse_int-format_int (pos n) h =
    let (c, rest, eq, d, p) = printed n (omega arith) in
    ap parse_int eq
    ∙ parse_int-digit c rest d
    ∙ ap positive p
    ∙ ap (λ b. if b then some (pos n) else none) (lt→ltb n (2 ^ 63) h)
parse_int-format_int (negsuc n) h =
    let (c, rest, eq, d, p) = printed (suc n) (omega arith) in
    ap (λ xs. parse_int (45 ∷ xs)) eq
    ∙ parse_int-minus (c ∷ rest)
    ∙ ap negative p
    ∙ ap (λ b. if b then some (negsuc n) else none) (small n h)
  where
    parse_int-minus : (xs : List ℕ) → parse_int (45 ∷ xs) ≡ negative (parse_uint 64 xs)
    parse_int-minus xs = unfold parse_int in refl

    small : (n : ℕ) → n < 2 ^ 63 → leb (suc n) (2 ^ 63) ≡ true
    small n h = ground arith
