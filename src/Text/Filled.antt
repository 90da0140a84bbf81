-- ===== src/Text/Filled.antt =====
-- The loop that trims each part of a list and leaves out the empty ones.
use vps_user_portal.Base.{List, [], ◌∷◌, is_empty, if◌then◌else◌, All, arith, ◌≡◌, false}
use vps_user_portal.Text.{Text}
use vps_user_portal.Text.Parts.{trim_space}

unfoldable pub keep_filled : List Text → List Text
unfolding trim_space
keep_filled [] = []
keep_filled (p ∷ ps) =
    let rest = keep_filled ps in if is_empty (trim_space p) then rest else trim_space p ∷ rest

abbrev pub Filled : Text → Type 0
Filled g = is_empty g ≡ false

pub keep_filled-Filled : (ps : List Text) → All Filled (keep_filled ps)
unfolding keep_filled
keep_filled-Filled [] = tt
keep_filled-Filled (p ∷ ps) = ground (arith, keep_filled-Filled ps)
