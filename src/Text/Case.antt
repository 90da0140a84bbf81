-- ===== src/Text/Case.antt =====
-- Letter case: `strings.ToLower`, `strings.ToUpper` and `strings.EqualFold`. The tables of package
-- unicode for runes above ASCII are a parameter; ASCII is written out.
use vps_user_portal.Base.{
  ℕ, ◌+◌, ◌-◌, ◌≡◌, refl, Bool, true, false, ◌&&◌, List, [], ◌∷◌, arith, ◌==◌, ltb, leb,
  if◌then◌else◌,
}
use vps_user_portal.Text.{Text}
use vps_user_portal.Text.Utf8.{runes, map_runes}

-- `unicode.ToLower` and `unicode.ToUpper` at 0x80 and above, and whether a rune of 0x80 or above (the
-- second) is reached by `unicode.SimpleFold` from a smaller one (the first).
pub record Unicode : Type 0 where
  pub lower_wide : ℕ → ℕ
  pub upper_wide : ℕ → ℕ
  pub fold_wide : ℕ → ℕ → Bool

abbrev is_upper : ℕ → Bool
is_upper r = leb b'A' r && leb r b'Z'

abbrev is_lower : ℕ → Bool
is_lower r = leb b'a' r && leb r b'z'

module _ ⦃u : Unicode⦄ where
  unfoldable pub lower_rune : ℕ → ℕ
  lower_rune r = if ltb r 0x80 then (if is_upper r then r + 32 else r) else u.lower_wide r

  unfoldable pub upper_rune : ℕ → ℕ
  upper_rune r = if ltb r 0x80 then (if is_lower r then r - 32 else r) else u.upper_wide r

  unfoldable pub to_lower : Text → Text
  unfolding map_runes lower_rune
  to_lower s = map_runes lower_rune s

  unfoldable pub to_upper : Text → Text
  unfolding map_runes upper_rune
  to_upper s = map_runes upper_rune s

  -- `low` is smaller than `high`
  fold_ordered : ℕ → ℕ → Bool
  fold_ordered low high =
      if ltb high 0x80 then is_upper low && high == low + 32 else u.fold_wide low high

  pub fold_rune : ℕ → ℕ → Bool
  unfolding fold_ordered
  fold_rune r t = if r == t then true else if ltb t r then fold_ordered t r else fold_ordered r t

  pub fold_runes : List ℕ → List ℕ → Bool
  fold_runes [] [] = true
  fold_runes [] (t ∷ ts) = false
  fold_runes (r ∷ rs) [] = false
  fold_runes (r ∷ rs) (t ∷ ts) = fold_rune r t && fold_runes rs ts

  unfoldable pub equal_fold : Text → Text → Bool
  unfolding fold_runes fold_rune runes
  equal_fold s t = fold_runes (runes s) (runes t)

  fold_runes_refl : (rs : List ℕ) → fold_runes rs rs ≡ true
  unfolding fold_runes fold_rune
  fold_runes_refl [] = refl
  fold_runes_refl (r ∷ rs) = ground (arith, fold_runes_refl rs)

  pub equal_fold_refl : (s : Text) → equal_fold s s ≡ true
  unfolding equal_fold
  equal_fold_refl s = fold_runes_refl (runes s)
