-- ===== src/Server/Invites.antt =====
-- The invite form of internal/server/server.go: `parseInviteLines`, `deriveDisplayName` and
-- `buildInviteUser`.
pub mod Laws
use vps_user_portal.Userstore.Types.{User}
use vps_user_portal.Config.{Config}
use vps_user_portal.Userstore.Names.{derive_username, valid_username}
use vps_user_portal.Text.Parts.{fields_func, cut, split, join, trim_space, contains_any}
use vps_user_portal.Text.Case.{Unicode, to_upper, to_lower}
use vps_user_portal.Base.{
  ◌>>◌, ◌>>=◌, ℕ, Bool, if◌then◌else◌, ◌==◌, ◌∷◌, List, is_empty, ◌||◌, [], map, ◌&&◌, ◌++◌, not,
  Outcome, require, leb, length, ok, false,
}
use vps_user_portal.Text.{Text, contains, lit}

pub record InviteEntry : Type 0 where
  pub email : Text
  pub display_name : Text

pub data Problem : Type 0 where
  not_an_address long_display_name no_username : Problem
  domain_not_allowed : Text → Problem

unfoldable pub is_mark : ℕ → Bool
is_mark r = r == b'.' || r == b'_' || r == b'-' || r == b'+'

-- `strings.ToUpper(f[:1]) + f[1:]`, which cuts behind the first byte
module _ ⦃unicode : Unicode⦄ where
  unfoldable pub capitalise : Text → Text
  unfolding to_upper
  capitalise [] = []
  capitalise (c ∷ f) = to_upper (c ∷ []) ++ f

  unfoldable pub derive_display_name : Text → Text
  unfolding fields_func is_mark capitalise join
  derive_display_name local =
      let name = join (map capitalise (fields_func is_mark local)) (lit " ") in
      if is_empty name then local else name

  unfoldable pub address : Text → Text
  unfolding cut trim_space to_lower
  address line = to_lower (trim_space (cut line b',').0)

  -- The loop over the lines; `seen` has the addresses so far.
  unfoldable pub parse_lines : List Text → List Text → List InviteEntry
  unfolding address contains
  parse_lines seen [] = []
  parse_lines seen (line ∷ lines) =
      let skipped = parse_lines seen lines in
      let taken = parse_lines (address line ∷ seen) lines in
      if is_empty (address line) || contains seen (address line)
      then skipped
      else record { email = address line; display_name = trim_space (cut line b',').1 } ∷ taken

  unfoldable pub parse_invite_lines : Text → List InviteEntry
  unfolding parse_lines split
  parse_invite_lines raw = parse_lines [] (split raw b'\n')

  unfoldable pub is_blank : ℕ → Bool
  is_blank c = c == b' ' || c == 9 || c == 13 || c == 10

  -- The name to show, given or derived.
  unfoldable pub shown_name : Text → Text → Text
  unfolding derive_display_name
  shown_name display_name local =
      if is_empty display_name then derive_display_name local else display_name

  -- `!ok || local == "" || domain == "" || strings.ContainsAny(emailAddr, " \t\r\n")`, negated
  unfoldable pub is_address : Text → Bool
  unfolding cut contains_any is_blank
  is_address email_addr =
      let (local, domain, found) = cut email_addr b'@' in
      found
      && not (is_empty local)
      && not (is_empty domain)
      && not (contains_any email_addr is_blank)

  unfoldable pub build_invite_user : Config → Text → Text → List Text → Outcome Problem User
  unfolding is_address cut contains shown_name derive_username valid_username
  build_invite_user cfg email_addr display_name groups = do
    require (is_address email_addr) not_an_address
    require (contains cfg.allowed_email_domains (cut email_addr b'@').1)
        (domain_not_allowed (cut email_addr b'@').1)
    require (leb (length (shown_name display_name (cut email_addr b'@').0)) 100) long_display_name
    require (valid_username (derive_username email_addr)) no_username
    ok (record {
      username = derive_username email_addr;
      display_name = shown_name display_name (cut email_addr b'@').0;
      email = email_addr;
      groups = groups;
      disabled = false;
    })
