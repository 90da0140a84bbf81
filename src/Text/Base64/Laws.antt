-- ===== src/Text/Base64/Laws.antt =====
-- Decoding reads back what encoding wrote.
use vps_user_portal.Text.Base64.{
  sextet, letter, sextets, split_bytes, join_sextets, decode64, Alphabet, before, encode64, joined,
  url, std,
}
use vps_user_portal.Base.{
  ℕ, ◌<◌, List, ◌≡◌, ◌==◌, All, some, ◌||◌, map, ◌∷◌, arith, false, [], refl, ◌/◌, ◌%◌, ap, ◌*◌,
  ap₂, ◌+◌,
}

abbrev pub IsByte : ℕ → Type 0
IsByte c = c < 256

abbrev pub IsSextet : ℕ → Type 0
IsSextet v = v < 64

sextet-letter :
    (alphabet : Alphabet) (v : ℕ) → v < 64 → sextet alphabet (letter alphabet v) ≡ some v
unfolding sextet letter
sextet-letter url v h = ground arith
sextet-letter std v h = ground arith

letter-no_break :
    (alphabet : Alphabet) (v : ℕ)
    → v < 64
    → (letter alphabet v == 10 || letter alphabet v == 13) ≡ false
unfolding letter
letter-no_break url v h = ground arith
letter-no_break std v h = ground arith

sextets-letters :
    (alphabet : Alphabet) (vs : List ℕ)
    → All IsSextet vs
    → sextets alphabet (map (letter alphabet) vs) ≡ some vs
unfolding sextets before
sextets-letters alphabet [] h = refl
sextets-letters alphabet (v ∷ vs) h =
    rw (
      letter-no_break alphabet v h.0,
      sextet-letter alphabet v h.0,
      sextets-letters alphabet vs h.1,
    )

pub split_bytes-IsSextet : (bs : List ℕ) → All IsByte bs → All IsSextet (split_bytes bs)
unfolding split_bytes
split_bytes-IsSextet [] h = tt
split_bytes-IsSextet (a ∷ []) h = (omega (arith, h.0), (omega arith, tt))
split_bytes-IsSextet (a ∷ b ∷ []) h =
    (omega (arith, h.0), (omega (arith, h.1.0), (omega arith, tt)))
split_bytes-IsSextet (a ∷ b ∷ c ∷ bs) h = (
  omega (arith, h.0),
  (omega (arith, h.1.0), (omega (arith, h.1.1.0), (omega arith, split_bytes-IsSextet bs h.1.1.1))),
)

high_byte : (a b : ℕ) → b < 256 → a / 4 * 4 + (a % 4 * 16 + b / 16) / 16 ≡ a
high_byte a b h = omega arith

middle_byte :
    (a b c : ℕ)
    → c < 256
    → (a % 4 * 16 + b / 16) % 16 * 16 + (b % 16 * 4 + c / 64) / 4 ≡ b / 16 % 16 * 16 + b % 16
middle_byte a b c h = omega arith

low_byte : (b c : ℕ) → c < 256 → (b % 16 * 4 + c / 64) % 4 * 64 + c % 64 ≡ c
low_byte b c h = omega arith

join_sextets-split_bytes : (bs : List ℕ) → All IsByte bs → join_sextets (split_bytes bs) ≡ some bs
unfolding join_sextets split_bytes before
join_sextets-split_bytes [] h = refl
join_sextets-split_bytes (a ∷ []) h = ap (λ x. some (x ∷ [])) (omega arith)
join_sextets-split_bytes (a ∷ b ∷ []) h =
    ap₂ (λ x z. some (x ∷ z ∷ [])) (high_byte a b h.1.0) (omega (arith, h.1.0))
join_sextets-split_bytes (a ∷ b ∷ c ∷ bs) h =
    rw
      (
        high_byte a b h.1.0,
        middle_byte a b c h.1.1.0,
        low_byte b c h.1.1.0,
        join_sextets-split_bytes bs h.1.1.1,
      )
      (ap (λ x. some (a ∷ x ∷ c ∷ bs)) (omega (arith, h.1.0)))

-- Bytes that were encoded decode to themselves.
pub decode64-encode64 :
    (alphabet : Alphabet) (bs : List ℕ)
    → All IsByte bs
    → decode64 alphabet (encode64 alphabet bs) ≡ some bs
unfolding decode64 encode64 joined
decode64-encode64 alphabet bs h =
    rw (sextets-letters alphabet (split_bytes bs) (split_bytes-IsSextet bs h))
      (join_sextets-split_bytes bs h)
