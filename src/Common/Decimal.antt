-- ===== src/Common/Decimal.antt =====
-- Go's strconv in base 10 over the bytes of a text: `ParseUint(s, 10, bits)` and `FormatUint(n, 10)`.
pub mod Printed
use Prim.Native.Char.{Char, code}
use air_whatsbot.Common.Int.{ℤ, pos, negsuc}
use air_whatsbot.Common.{
  nat_beq, ◌++◌, suc, ◌%◌, ◌/◌, zero, ℕ, ◌+◌, ◌-◌, ◌*◌, ◌^◌, String, Bool, ◌&&◌, Option, none, some,
  List, [], ◌∷◌, leb, ltb, if◌then◌else◌,
}

-- The code points of a text; its bytes, if it is ASCII.
abbrev pub codes : String → List ℕ
codes String.[] = []
codes (String.◌∷◌ c s) = code c ∷ codes s

abbrev pub is_digit : ℕ → Bool
is_digit c = leb b'0' c && leb c b'9'

-- The value of the digits so far is `acc`; a byte that is no digit is a syntax error.
unfoldable pub digits_value : ℕ → List ℕ → Option ℕ
digits_value acc [] = some acc
digits_value acc (c ∷ rest) =
    let later = digits_value (acc * 10 + (c - b'0')) rest in if is_digit c then later else none

abbrev pub in_range : ℕ → Option ℕ → Option ℕ
in_range bits none = none
in_range bits (some n) = if ltb n (2 ^ bits) then some n else none

-- An empty text is a syntax error, a value of more than `bits` bits a range error.
unfoldable pub parse_uint : ℕ → List ℕ → Option ℕ
unfolding digits_value
parse_uint bits [] = none
parse_uint bits (c ∷ rest) = in_range bits (digits_value 0 (c ∷ rest))

abbrev pub positive : Option ℕ → Option ℤ
positive none = none
positive (some n) = if ltb n (2 ^ 63) then some (pos n) else none

abbrev pub negated : ℕ → ℤ
negated zero = pos 0
negated (suc n) = negsuc n

abbrev pub negative : Option ℕ → Option ℤ
negative none = none
negative (some n) = if leb n (2 ^ 63) then some (negated n) else none

-- strconv.ParseInt(s, 10, 64) over code points
unfoldable pub parse_int : List ℕ → Option ℤ
parse_int [] = none
parse_int (c ∷ rest) =
    if nat_beq c 45
    then negative (parse_uint 64 rest)
    else if nat_beq c 43
    then positive (parse_uint 64 rest)
    else positive (parse_uint 64 (c ∷ rest))

-- Go's %d of a natural number, as code points. A round divides by 10, so as many rounds as the number
-- are enough.
unfoldable pub format_rounds : ℕ → ℕ → List ℕ
format_rounds zero n = (48 + n % 10) ∷ []
format_rounds (suc k) n =
    let rest = format_rounds k (n / 10) in
    if ltb n 10 then (48 + n) ∷ [] else rest ++ (48 + n % 10) ∷ []

unfoldable pub format_uint : ℕ → List ℕ
format_uint n = format_rounds n n

-- Go's %d of an integer
unfoldable pub format_int : ℤ → List ℕ
format_int (pos n) = format_uint n
format_int (negsuc n) = 45 ∷ format_uint (suc n)

-- A digit as a character
abbrev pub digit_char : ℕ → Char
digit_char n =
    if nat_beq n 0
    then "0"
    else if nat_beq n 1
    then "1"
    else if nat_beq n 2
    then "2"
    else if nat_beq n 3
    then "3"
    else if nat_beq n 4
    then "4"
    else if nat_beq n 5
    then "5"
    else if nat_beq n 6
    then "6"
    else if nat_beq n 7
    then "7"
    else if nat_beq n 8
    then "8"
    else "9"

abbrev pub text_of_digits : List ℕ → String
text_of_digits [] = String.[]
text_of_digits (c ∷ cs) = String.◌∷◌ (digit_char (c - 48)) (text_of_digits cs)

-- strconv.FormatUint(n, 10) as a text
unfoldable pub uint_text : ℕ → String
unfolding format_uint
uint_text n = text_of_digits (format_uint n)
