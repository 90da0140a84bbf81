-- ===== src/Server/Tokens.antt =====
-- internal/server/csrf.go: form tokens that are signed and stored nowhere. `hmac` is HMAC with
-- SHA-256 of packages crypto/hmac and crypto/sha256; a time is in seconds since 1970.
pub mod Laws
use vps_user_portal.Text.Parts.{cut}
use vps_user_portal.Text.Base64.{encode64, decode64, url}
use vps_user_portal.Text.{Text, same}
use vps_user_portal.Text.Decimal.{print_int, ℤ, pos, parse_int, negsuc}
use vps_user_portal.Base.{
  ℕ, ◌*◌, ◌++◌, Bool, List, ◌∷◌, ltb, ◌+◌, Option, false, if◌then◌else◌, true, some, none,
}

-- `csrfTTL` in seconds
abbrev pub csrf_ttl : ℕ
csrf_ttl = 4 * 3600

-- `%d|%s`
unfoldable pub message : ℤ → Text → Text
unfolding print_int
message exp actor = print_int exp ++ b'|' ∷ actor

-- `now.Unix() > exp`
is_past : ℤ → ℕ → Bool
is_past (pos exp) now = ltb exp now
is_past (negsuc exp) now = true

module _ (hmac : Text → Text → List ℕ) where
  unfoldable pub csrf_mac : Text → ℤ → Text → List ℕ
  unfolding message
  csrf_mac secret exp actor = hmac secret (message exp actor)

  unfoldable pub csrf_token : Text → Text → ℕ → Text
  unfolding csrf_mac print_int encode64
  csrf_token secret actor now =
      let exp = pos (now + csrf_ttl) in
      print_int exp ++ b'.' ∷ encode64 url (csrf_mac secret exp actor)

  signed : Text → Text → ℤ → Option (List ℕ) → Bool
  unfolding csrf_mac same
  signed secret actor exp none = false
  signed secret actor exp (some sig) = same sig (csrf_mac secret exp actor)

  expiring : Text → Text → ℕ → Text → Option ℤ → Bool
  unfolding signed is_past decode64
  expiring secret actor now sig_str none = false
  expiring secret actor now sig_str (some exp) =
      if is_past exp now then false else signed secret actor exp (decode64 url sig_str)

  unfoldable pub csrf_valid : Text → Text → Text → ℕ → Bool
  unfolding expiring cut parse_int
  csrf_valid secret actor token now =
      let (exp_str, sig_str, found) = cut token b'.' in
      if found then expiring secret actor now sig_str (parse_int exp_str) else false
