-- ===== src/Userstore/Names.antt =====
-- `ValidUsername` and `DeriveUsername` of internal/userstore/userstore.go.
pub mod Valid
use vps_user_portal.Base.{ℕ, Bool, false, ◌&&◌, ◌||◌, [], ◌∷◌, ◌==◌, leb, length, all, keep}
use mathlib.Core.List.{flat_map}
use vps_user_portal.Text.{Text}
use vps_user_portal.Text.Utf8.{runes, encode}
use vps_user_portal.Text.Case.{Unicode, to_lower}
use vps_user_portal.Text.Parts.{cut, trim}

abbrev pub is_alphanumeric : ℕ → Bool
is_alphanumeric r = leb b'a' r && leb r b'z' || leb b'0' r && leb r b'9'

-- the cutset "._-"
abbrev pub is_joint : ℕ → Bool
is_joint r = r == b'.' || r == b'_' || r == b'-'

-- `^[a-z0-9][a-z0-9._-]{0,63}$`
unfoldable pub valid_username : Text → Bool
valid_username [] = false
valid_username (c ∷ s) =
    is_alphanumeric c && all (λ d. is_alphanumeric d || is_joint d) s && leb (length s) 63

-- the runes that the loop keeps
abbrev pub is_kept : ℕ → Bool
is_kept r = is_alphanumeric r || r == b'.' || r == b'_' || r == b'-'

module _ ⦃u : Unicode⦄ where
  unfoldable pub derive_username : Text → Text
  unfolding cut to_lower runes encode trim flat_map
  derive_username email =
      let local = to_lower (cut email b'@').0 in
      trim is_joint (flat_map encode (keep is_kept (runes local)))
