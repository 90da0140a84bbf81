-- ===== src/Text/Base64.antt =====
-- Package encoding/base64 without padding: `RawURLEncoding` and `RawStdEncoding`.
pub mod Laws
use vps_user_portal.Text.{Text}
use vps_user_portal.Base.{
  ℕ, List, Option, if◌then◌else◌, ◌∷◌, some, map, ltb, leb, ◌/◌, none, ◌==◌, ◌+◌, ◌&&◌, ◌%◌, ◌*◌,
  ◌||◌, ◌-◌, [], ◌++◌,
}

-- The last two letters of the alphabet.
pub data Alphabet : Type 0 where
  url std : Alphabet

abbrev letter_62 : Alphabet → ℕ
letter_62 url = b'-'
letter_62 std = b'+'

abbrev letter_63 : Alphabet → ℕ
letter_63 url = b'_'
letter_63 std = b'/'

unfoldable pub letter : Alphabet → ℕ → ℕ
letter alphabet v =
    if ltb v 26
    then b'A' + v
    else if ltb v 52
    then b'a' + (v - 26)
    else if ltb v 62
    then b'0' + (v - 52)
    else if v == 62
    then letter_62 alphabet
    else letter_63 alphabet

sextet : Alphabet → ℕ → Option ℕ
sextet alphabet c =
    if leb b'A' c && leb c b'Z'
    then some (c - b'A')
    else if leb b'a' c && leb c b'z'
    then some (c - b'a' + 26)
    else if leb b'0' c && leb c b'9'
    then some (c - b'0' + 52)
    else if c == letter_62 alphabet
    then some 62
    else if c == letter_63 alphabet
    then some 63
    else none

-- The six-bit groups of the bytes, the last one filled up with zeros.
pub split_bytes : List ℕ → List ℕ
split_bytes [] = []
split_bytes (a ∷ []) = (a / 4) ∷ (a % 4 * 16) ∷ []
split_bytes (a ∷ b ∷ []) = (a / 4) ∷ (a % 4 * 16 + b / 16) ∷ (b % 16 * 4) ∷ []
split_bytes (a ∷ b ∷ c ∷ bs) =
    (a / 4) ∷ (a % 4 * 16 + b / 16) ∷ (b % 16 * 4 + c / 64) ∷ (c % 64) ∷ split_bytes bs

before : List ℕ → Option (List ℕ) → Option (List ℕ)
before front none = none
before front (some back) = some (front ++ back)

-- What is left of a last group is dropped, and a single group is refused.
join_sextets : List ℕ → Option (List ℕ)
unfolding before
join_sextets [] = some []
join_sextets (a ∷ []) = none
join_sextets (a ∷ b ∷ []) = some ((a * 4 + b / 16) ∷ [])
join_sextets (a ∷ b ∷ c ∷ []) = some ((a * 4 + b / 16) ∷ (b % 16 * 16 + c / 4) ∷ [])
join_sextets (a ∷ b ∷ c ∷ d ∷ vs) =
    before ((a * 4 + b / 16) ∷ (b % 16 * 16 + c / 4) ∷ (c % 4 * 64 + d) ∷ []) (join_sextets vs)

-- `EncodeToString`
unfoldable pub encode64 : Alphabet → List ℕ → Text
unfolding split_bytes letter
encode64 alphabet bs = map (letter alphabet) (split_bytes bs)

-- Carriage returns and newlines are passed over.
sextets : Alphabet → Text → Option (List ℕ)
unfolding sextet before
sextets alphabet [] = some []
sextets alphabet (c ∷ s) =
    let rest = sextets alphabet s in
    if c == 10 || c == 13
    then rest
    else elim (sextet alphabet c) [ none ↦ none | some v ↦ before (v ∷ []) rest ]

joined : Option (List ℕ) → Option (List ℕ)
unfolding join_sextets
joined none = none
joined (some vs) = join_sextets vs

-- `DecodeString`
unfoldable pub decode64 : Alphabet → Text → Option (List ℕ)
unfolding sextets joined
decode64 alphabet s = joined (sextets alphabet s)
