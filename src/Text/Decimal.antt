-- ===== src/Text/Decimal.antt =====
-- Decimal numerals: `%d` of package fmt and `strconv.ParseInt(s, 10, 64)`.
pub mod Laws
use vps_user_portal.Text.{Text}
use vps_user_portal.Base.{
  ℕ, Bool, [], ◌∷◌, leb, Option, ◌^◌, suc, ◌+◌, ◌&&◌, some, none, if◌then◌else◌, ◌/◌, ◌*◌, ltb,
  ◌==◌, ◌++◌, ◌-◌, false, ◌%◌, true, zero,
}

-- An int64, by its value.
pub data ℤ : Type 0 where
  pos : ℕ → ℤ
  negsuc : ℕ → ℤ

digits : ℕ → ℕ → Text
digits zero n = []
digits (suc fuel) n =
    let higher = digits fuel (n / 10) in
    if ltb n 10 then (b'0' + n) ∷ [] else higher ++ (b'0' + n % 10) ∷ []

-- Twenty digits are enough for an int64.
unfoldable pub print : ℕ → Text
unfolding digits
print n = digits 20 n

unfoldable pub print_int : ℤ → Text
unfolding print
print_int (pos n) = print n
print_int (negsuc n) = b'-' ∷ print (n + 1)

unfoldable pub is_digit : ℕ → Bool
is_digit c = leb b'0' c && leb c b'9'

read_digits : ℕ → Text → Option ℕ
unfolding is_digit
read_digits acc [] = some acc
read_digits acc (c ∷ s) =
    let rest = read_digits (acc * 10 + (c - b'0')) s in if is_digit c then rest else none

-- A magnitude: at least one digit, and nothing else.
read_magnitude : Text → Option ℕ
unfolding read_digits
read_magnitude [] = none
read_magnitude (c ∷ s) = read_digits 0 (c ∷ s)

abbrev pub int_bound : ℕ
int_bound = 2 ^ 63

in_range : Bool → ℕ → Option ℤ
in_range false n = if ltb n int_bound then some (pos n) else none
in_range true zero = some (pos 0)
in_range true (suc n) = if leb (suc n) int_bound then some (negsuc n) else none

bounded : Bool → Option ℕ → Option ℤ
unfolding in_range
bounded negative none = none
bounded negative (some n) = in_range negative n

-- A syntax error and a number out of range are both `none`.
unfoldable pub parse_int : Text → Option ℤ
unfolding bounded read_magnitude
parse_int [] = none
parse_int (c ∷ s) =
    if c == b'+'
    then bounded false (read_magnitude s)
    else if c == b'-'
    then bounded true (read_magnitude s)
    else bounded false (read_magnitude (c ∷ s))
