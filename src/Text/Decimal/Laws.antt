-- ===== src/Text/Decimal/Laws.antt =====
-- `strconv.ParseInt` reads back what `%d` prints, and stays in the range of an int64.
use vps_user_portal.Text.{Text}
use vps_user_portal.Text.Decimal.{
  digits, read_digits, is_digit, print, parse_int, int_bound, read_magnitude, pos, bounded,
  in_range, ℤ, negsuc,
}
use vps_user_portal.Base.{
  ℕ, ◌<◌, ◌≡◌, All, ◌^◌, true, some, suc, ◌++◌, Bool-cases, ◌∷◌, zero, ltb, [], inl, ◌*◌, arith,
  ◌+◌, inr, ◌-◌, All-append, ◌/◌, ◌%◌, ap, ◌∙◌, false, is_empty, Bool, refl, Option, ◌==◌, none,
}

digit : (d : ℕ) → d < 10 → is_digit (b'0' + d) ≡ true
unfolding is_digit
digit d h = ground arith

ten_times : (k : ℕ) → 10 ^ suc k ≡ 10 * 10 ^ k
ten_times k = omega arith

digits-is_digit : (fuel n : ℕ) → All (λ c. is_digit c ≡ true) (digits fuel n)
unfolding digits
digits-is_digit zero n = tt
digits-is_digit (suc fuel) n = elim (Bool-cases (ltb n 10)) [
  | inl small ↦ rw small (digit n (ground arith), tt)
  | inr big ↦ rw big (
      All-append (λ c. is_digit c ≡ true) (digits fuel (n / 10)) ((b'0' + n % 10) ∷ [])
        (digits-is_digit fuel (n / 10)) (digit (n % 10) (omega arith), tt))
]

read_digits-append :
    (acc : ℕ) (s : Text) (c n : ℕ)
    → read_digits acc s ≡ some n
    → is_digit c ≡ true
    → read_digits acc (s ++ c ∷ []) ≡ some (n * 10 + (c - b'0'))
unfolding read_digits
read_digits-append acc [] c n h d = ground arith
read_digits-append acc (x ∷ s) c n h d =
    ground (arith, read_digits-append (acc * 10 + (x - b'0')) s c n)

read_digits-digits : (fuel n : ℕ) → n < 10 ^ fuel → read_digits 0 (digits fuel n) ≡ some n
unfolding digits read_digits
read_digits-digits zero n h = ap some (omega arith)
read_digits-digits (suc fuel) n h = elim (Bool-cases (ltb n 10)) [
  | inl small ↦ rw (small, digit n (ground arith)) (ap some (omega arith))
  | inr big ↦ rw big (
      read_digits-append 0 (digits fuel (n / 10)) (b'0' + n % 10) (n / 10)
        (read_digits-digits fuel (n / 10) (omega (arith, ten_times fuel)))
        (digit (n % 10) (omega arith))
      ∙ ap some (omega arith))
]

is_empty-snoc : (s : Text) (c : ℕ) → is_empty (s ++ c ∷ []) ≡ false
is_empty-snoc [] c = refl
is_empty-snoc (x ∷ s) c = refl

is_empty-digits : (fuel n : ℕ) → is_empty (digits (suc fuel) n) ≡ false
unfolding digits
is_empty-digits fuel n = elim (Bool-cases (ltb n 10)) [
  | inl small ↦ rw small refl
  | inr big ↦ rw big (is_empty-snoc (digits fuel (n / 10)) (b'0' + n % 10))
]

-- Only digits are printed.
pub print-is_digit : (n : ℕ) → All (λ c. is_digit c ≡ true) (print n)
unfolding print
print-is_digit n = digits-is_digit 20 n

-- No sign stands before a digit.
parse_int-digits :
    (s : Text)
    → All (λ c. is_digit c ≡ true) s
    → is_empty s ≡ false
    → parse_int s ≡ bounded false (read_digits 0 s)
unfolding parse_int is_digit read_magnitude
parse_int-digits [] h full = cc
parse_int-digits (c ∷ s) h full = ground (arith, h.0)

-- Parsing reads back what printing wrote, for a number that is an int64.
pub parse_int-print : (n : ℕ) → n < int_bound → parse_int (print n) ≡ some (pos n)
unfolding print in_range bounded
parse_int-print n h =
    parse_int-digits (digits 20 n) (digits-is_digit 20 n) (is_empty-digits 19 n)
    ∙ rw (read_digits-digits 20 n (omega (arith, h))) (ground (arith, h))

abbrev pub IsInt64 : ℤ → Type 0
IsInt64 (pos n) = n < int_bound
IsInt64 (negsuc n) = n < int_bound

in_range-IsInt64 : (negative : Bool) (m : ℕ) (n : ℤ) → in_range negative m ≡ some n → IsInt64 n
unfolding in_range
in_range-IsInt64 false m (pos n) h = ground arith
in_range-IsInt64 false m (negsuc n) h = ground arith
in_range-IsInt64 true zero (pos n) h = ground arith
in_range-IsInt64 true zero (negsuc n) h = ground arith
in_range-IsInt64 true (suc m) (pos n) h = ground arith
in_range-IsInt64 true (suc m) (negsuc n) h = ground arith

bounded-IsInt64 : (negative : Bool) (m : Option ℕ) (n : ℤ) → bounded negative m ≡ some n → IsInt64 n
unfolding bounded
bounded-IsInt64 negative none n h = cc
bounded-IsInt64 negative (some m) n h = in_range-IsInt64 negative m n h

-- What `ParseInt` returns without an error is an int64.
pub parse_int-IsInt64 : (s : Text) (n : ℤ) → parse_int s ≡ some n → IsInt64 n
unfolding parse_int
parse_int-IsInt64 [] n h = cc
parse_int-IsInt64 (c ∷ s) n h = elim (Bool-cases (c == b'+')) [
  | inl plus ↦ bounded-IsInt64 false (read_magnitude s) n (rw plus at h)
  | inr other ↦ elim (Bool-cases (c == b'-')) [
    | inl minus ↦ bounded-IsInt64 true (read_magnitude s) n (rw (other, minus) at h)
    | inr none_of ↦ bounded-IsInt64 false (read_magnitude (c ∷ s)) n (rw (other, none_of) at h)
  ]
]
