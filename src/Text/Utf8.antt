-- ===== src/Text/Utf8.antt =====
-- UTF-8 as Go reads and writes it: `for _, r := range s`, `utf8.DecodeRuneInString`, `WriteRune`.
use vps_user_portal.Base.{
  ◌∙◌, ℕ, zero, suc, ◌+◌, ◌-◌, ◌*◌, ◌/◌, ◌%◌, ◌<◌, ◌≡◌, refl, ap, Bool, ◌&&◌, ◌||◌, List, [], ◌∷◌,
  ◌++◌, map, arith, ◌==◌, ltb, leb, if◌then◌else◌, All,
}
use mathlib.Core.List.{flat_map}
use vps_user_portal.Text.{Text}

abbrev pub rune_error : ℕ
rune_error = 0xFFFD

abbrev within : ℕ → ℕ → ℕ → Bool
within lo hi b = leb lo b && leb b hi

abbrev is_tail : ℕ → Bool
is_tail = within 0x80 0xBF

-- A bad byte is read as U+FFFD and skipped alone. A result is the rune and the bytes that follow
-- its first one.
abbrev bad : ℕ × ℕ
bad = (rune_error, 0)

decode2 : ℕ → Text → ℕ × ℕ
decode2 b [] = bad
decode2 b (c ∷ s) = if is_tail c then ((b - 0xC0) * 64 + (c - 0x80), 1) else bad

decode3 : ℕ → ℕ → ℕ → Text → ℕ × ℕ
decode3 lo hi b (c ∷ d ∷ s) =
    if within lo hi c && is_tail d
    then ((b - 0xE0) * 4096 + (c - 0x80) * 64 + (d - 0x80), 2)
    else bad
decode3 lo hi b _ = bad

decode4 : ℕ → ℕ → ℕ → Text → ℕ × ℕ
decode4 lo hi b (c ∷ d ∷ e ∷ s) =
    if within lo hi c && is_tail d && is_tail e
    then ((b - 0xF0) * 262144 + (c - 0x80) * 4096 + (d - 0x80) * 64 + (e - 0x80), 3)
    else bad
decode4 lo hi b _ = bad

-- The rune that begins at a byte, by Go's table of first bytes.
pub decode : ℕ → Text → ℕ × ℕ
unfolding decode2 decode3 decode4
decode b s =
    if ltb b 0x80
    then (b, 0)
    else if within 0xC2 0xDF b
    then decode2 b s
    else if b == 0xE0
    then decode3 0xA0 0xBF b s
    else if b == 0xED
    then decode3 0x80 0x9F b s
    else if within 0xE1 0xEF b
    then decode3 0x80 0xBF b s
    else if b == 0xF0
    then decode4 0x90 0xBF b s
    else if b == 0xF4
    then decode4 0x80 0x8F b s
    else if within 0xF1 0xF3 b
    then decode4 0x80 0xBF b s
    else bad

-- The bytes of a rune; what is no rune is written as U+FFFD.
unfoldable pub encode : ℕ → Text
encode r =
    if ltb r 0x80
    then r ∷ []
    else if ltb r 0x800
    then (0xC0 + r / 64) ∷ (0x80 + r % 64) ∷ []
    else if within 0xD800 0xDFFF r || ltb 0x10FFFF r
    then 0xEF ∷ 0xBF ∷ 0xBD ∷ []
    else if ltb r 0x10000
    then (0xE0 + r / 4096) ∷ (0x80 + r / 64 % 64) ∷ (0x80 + r % 64) ∷ []
    else (0xF0 + r / 262144) ∷ (0x80 + r / 4096 % 64) ∷ (0x80 + r / 64 % 64) ∷ (0x80 + r % 64) ∷ []

-- The first component holds the bytes that still belong to the rune before.
segments_from : ℕ → Text → Text × List (ℕ × Text)
segments_from k [] = ([], [])
segments_from zero (b ∷ s) =
    let (r, w) = decode b s in let (own, rest) = segments_from w s in ([], (r, b ∷ own) ∷ rest)
segments_from (suc k) (b ∷ s) = let (own, rest) = segments_from k s in (b ∷ own, rest)

-- The runes of a string, each with its bytes.
unfoldable pub segments : Text → List (ℕ × Text)
unfolding segments_from decode
segments s = (segments_from 0 s).1

unfoldable pub runes : Text → List ℕ
unfolding segments
runes s = map (λ p. p.0) (segments s)

unfoldable pub join_segments : List (ℕ × Text) → Text
unfolding flat_map
join_segments = flat_map (λ p. p.1)

-- `strings.Map`, for a mapping that drops no rune
unfoldable pub map_runes : (ℕ → ℕ) → Text → Text
unfolding runes encode flat_map
map_runes f s = flat_map (λ r. encode (f r)) (runes s)

segments_from_lem :
    (k : ℕ) (s : Text) → (segments_from k s).0 ++ join_segments (segments_from k s).1 ≡ s
unfolding segments_from join_segments
segments_from_lem k [] = refl
segments_from_lem zero (b ∷ s) = ap (◌∷◌ b) (segments_from_lem (decode b s).1 s)
segments_from_lem (suc k) (b ∷ s) = ap (◌∷◌ b) (segments_from_lem k s)

segments_from-zero : (s : Text) → (segments_from 0 s).0 ≡ []
unfolding segments_from
segments_from-zero [] = refl
segments_from-zero (b ∷ s) = refl

-- Cutting a string into runes loses no byte, valid or not.
pub join_segments-segments : (s : Text) → join_segments (segments s) ≡ s
unfolding segments
join_segments-segments s = cc (segments_from_lem 0 s, segments_from-zero s)

abbrev pub IsAscii : Text → Type 0
IsAscii = All (λ b. b < 0x80)

decode-ascii : (b : ℕ) (s : Text) → b < 0x80 → decode b s ≡ (b, 0)
unfolding decode
decode-ascii b s h = ground arith

pub segments-cons_ascii :
    (b : ℕ) (s : Text) → b < 0x80 → segments (b ∷ s) ≡ (b, b ∷ []) ∷ segments s
unfolding segments
segments-cons_ascii b s h = rw (decode-ascii b s h, segments_from-zero s)

pub runes-ascii : (s : Text) → IsAscii s → runes s ≡ s
unfolding runes
runes-ascii [] h = refl
runes-ascii (b ∷ s) h =
    ap (map (λ p. p.0)) (segments-cons_ascii b s h.0) ∙ ap (◌∷◌ b) (runes-ascii s h.1)

pub encode-ascii : (r : ℕ) → r < 0x80 → encode r ≡ r ∷ []
unfolding encode
encode-ascii r h = ground arith

decode_test :
    runes (0x61 ∷ 0xC3 ∷ 0xA9 ∷ 0xE2 ∷ 0x82 ∷ 0xAC ∷ 0xFF ∷ 0xF0 ∷ 0x9F ∷ 0x98 ∷ 0x80 ∷ [])
    ≡ 0x61 ∷ 0xE9 ∷ 0x20AC ∷ rune_error ∷ 0x1F600 ∷ []
unfolding runes
decode_test = refl
