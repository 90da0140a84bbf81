-- ===== src/Text/Parts.antt =====
-- Cutting strings: `Split`, `Cut`, `Join`, `Trim`, `TrimRight`, `TrimSpace`, `FieldsFunc`,
-- `ContainsAny` and `HasPrefix` of package strings.
use vps_user_portal.Base.{
  ℕ, ◌≡◌, refl, Bool, true, false, ◌&&◌, ◌||◌, List, [], ◌∷◌, ◌++◌, ◌==◌, leb, if◌then◌else◌,
  is_empty, any, arith,
}
use vps_user_portal.Text.{Text}
use vps_user_portal.Text.Utf8.{segments, join_segments}

-- The first byte joins the first part.
abbrev push : ℕ → List Text → List Text
push c [] = (c ∷ []) ∷ []
push c (p ∷ ps) = (c ∷ p) ∷ ps

-- `strings.Split(s, sep)` for a separator of one byte
unfoldable pub split : Text → ℕ → List Text
split [] sep = [] ∷ []
split (c ∷ s) sep = let rest = split s sep in if c == sep then [] ∷ rest else push c rest

-- `strings.Cut(s, sep)` for a separator of one byte
unfoldable pub cut : Text → ℕ → Text × Text × Bool
cut [] sep = ([], [], false)
cut (c ∷ s) sep =
    let (before, after, found) = cut s sep in
    if c == sep then ([], s, true) else (c ∷ before, after, found)

-- `strings.Join`
unfoldable pub join : List Text → Text → Text
join [] sep = []
join (p ∷ []) sep = p
join (p ∷ q ∷ ps) sep = p ++ (sep ++ join (q ∷ ps) sep)

module _ {ℓ} {A : Type ℓ} where
  unfoldable pub trim_start : (A → Bool) → List A → List A
  trim_start p [] = []
  trim_start p (x ∷ xs) = if p x then trim_start p xs else x ∷ xs

  unfoldable pub trim_end : (A → Bool) → List A → List A
  trim_end p [] = []
  trim_end p (x ∷ xs) = let rest = trim_end p xs in if is_empty rest && p x then [] else x ∷ rest

-- `strings.Trim(s, cutset)` for a cutset of ASCII bytes
unfoldable pub trim : (ℕ → Bool) → Text → Text
unfolding trim_start trim_end
trim p s = trim_end p (trim_start p s)

-- `unicode.IsSpace`
pub is_space : ℕ → Bool
is_space r =
    leb 9 r && leb r 13
    || r == 0x20
    || r == 0x85
    || r == 0xA0
    || r == 0x1680
    || leb 0x2000 r && leb r 0x200A
    || r == 0x2028
    || r == 0x2029
    || r == 0x202F
    || r == 0x205F
    || r == 0x3000

unfoldable pub trim_space : Text → Text
unfolding segments join_segments trim_start trim_end is_space
trim_space s =
    join_segments (trim_end (λ p. is_space p.0) (trim_start (λ p. is_space p.0) (segments s)))

-- the field that is open, if it holds anything, goes before the rest
abbrev close : Text → List Text → List Text
close [] rest = rest
close (c ∷ cur) rest = (c ∷ cur) ∷ rest

fields_from : (ℕ → Bool) → Text → List (ℕ × Text) → List Text
fields_from p cur [] = close cur []
fields_from p cur ((r, bytes) ∷ segs) =
    let closed = close cur (fields_from p [] segs) in
    let longer = fields_from p (cur ++ bytes) segs in if p r then closed else longer

-- `strings.FieldsFunc`
unfoldable pub fields_func : (ℕ → Bool) → Text → List Text
unfolding fields_from segments
fields_func p s = fields_from p [] (segments s)

-- `strings.ContainsAny(s, chars)` for ASCII characters
unfoldable pub contains_any : Text → (ℕ → Bool) → Bool
contains_any s p = any p s

unfoldable pub has_prefix : Text → Text → Bool
has_prefix s [] = true
has_prefix [] (c ∷ p) = false
has_prefix (d ∷ s) (c ∷ p) = c == d && has_prefix s p

pub has_prefix_sound : (s p : Text) → has_prefix s p ≡ true → (t : Text) × (s ≡ p ++ t)
unfolding has_prefix
has_prefix_sound s [] h = (s, refl)
has_prefix_sound [] (c ∷ p) h = cc
has_prefix_sound (d ∷ s) (c ∷ p) h =
    let (t, e) = has_prefix_sound s p (ground arith) in (t, ground arith)

trim_space_test :
    trim_space (9 ∷ 0x61 ∷ 0x20 ∷ 0x62 ∷ 0xC2 ∷ 0xA0 ∷ 10 ∷ []) ≡ 0x61 ∷ 0x20 ∷ 0x62 ∷ []
unfolding trim_space
trim_space_test = refl

fields_test :
    fields_func (λ r. r == b',') (b',' ∷ 1 ∷ b',' ∷ b',' ∷ 2 ∷ 3 ∷ [])
    ≡ (1 ∷ []) ∷ (2 ∷ 3 ∷ []) ∷ []
unfolding fields_func
fields_test = refl
