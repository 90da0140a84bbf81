-- ===== src/Tests/Forms.antt =====
-- The guard and the invite form of internal/server on concrete requests.
use vps_user_portal.Config.Laws.{IsUsable, load_config-IsUsable}
use vps_user_portal.Text.Maps.{Dict, get}
use vps_user_portal.Text.Parts.{split}
use vps_user_portal.Tests.Toy.{ascii}
use vps_user_portal.Base.{
  none, some, Option, ◌≡◌, ◌∷◌, [], ◌++◌, map, ok, ◌&&◌, refl, false, not, is_empty,
}
use vps_user_portal.Server.Invites.Laws.{
  IsInvitable, emails, build_invite_user-IsInvitable, parse_invite_lines_lem,
}
use vps_user_portal.Userstore.Types.{User}
use vps_user_portal.Text.Distinct.{IsDistinct}
use vps_user_portal.Server.Invites.{
  parse_invite_lines, build_invite_user, derive_display_name, address,
}
use vps_user_portal.Text.{contains, Text, lit, same}
use vps_user_portal.Server.Requests.Laws.{IsAdmin, require_admin-IsAdmin, selected_groups_iff}
use vps_user_portal.Server.Requests.{
  Headers, require_admin, identity_of, selected_groups, split_groups,
}
use vps_user_portal.Config.{Config, load_config, read_config, parse_labels}

-- The environment: a variable that is not set is empty.
abbrev pub environment : Dict Text
environment =
    (lit "ALLOWED_EMAIL_DOMAINS", lit "X.org")
    ∷ (lit "GROUPS", lit "staff, admins")
    ∷ (lit "GROUP_LABELS", lit "staff=Staff; admins")
    ∷ (lit "ADMIN_GROUP", lit "admins")
    ∷ (lit "PORTAL_SHARED_SECRET", lit "s3cret")
    ∷ (lit "CSRF_SECRET", lit "0123456789abcdef0123456789abcdef")
    ∷ (lit "SSO_URL", lit "https://sso.x.org/")
    ∷ []

abbrev value_of : Option Text → Text
value_of none = []
value_of (some v) = v

abbrev pub getenv : Text → Text
getenv key = value_of (get environment key)

abbrev pub cfg : Config
cfg = record {
  listen_addr = lit ":8080";
  users_file = lit "/authelia-users/users_database.yml";
  provisioners_file = [];
  allowed_email_domains = lit "x.org" ∷ [];
  groups = lit "staff" ∷ lit "admins" ∷ [];
  group_labels = (lit "staff", lit "Staff") ∷ [];
  admin_group = lit "admins";
  shared_secret = lit "s3cret";
  csrf_secret = lit "0123456789abcdef0123456789abcdef";
  sso_url = lit "https://sso.x.org";
  email_backend = lit "none";
  email_host = [];
  email_port = lit "587";
  email_username = [];
  email_password = [];
  email_from = [];
  email_subject_prefix = lit "[User portal]";
  ntfy_url = [];
}

cfg_loads : load_config getenv ≡ ok cfg
unfolding load_config read_config get same parse_labels
cfg_loads = refl

load_config-IsUsable_example : IsUsable cfg
load_config-IsUsable_example = load_config-IsUsable getenv cfg_loads

abbrev pub headers : Headers
headers = record {
  portal_auth = lit "s3cret";
  remote_user = lit "root ";
  remote_email = lit "root@x.org";
  remote_groups = lit "staff, admins,";
}

admin_passes : require_admin cfg headers ≡ ok (identity_of headers)
unfolding require_admin identity_of split_groups
admin_passes = refl

require_admin-IsAdmin_example : IsAdmin cfg headers (identity_of headers)
require_admin-IsAdmin_example = require_admin-IsAdmin cfg headers admin_passes

root_is_not_selected :
    contains (selected_groups cfg (lit "root" ∷ lit "staff" ∷ [])) (lit "root")
    ≡ (contains (lit "root" ∷ lit "staff" ∷ []) (lit "root") && contains cfg.groups (lit "root"))
root_is_not_selected = selected_groups_iff cfg (lit "root" ∷ lit "staff" ∷ []) (lit "root")

abbrev pasted : Text
pasted = lit "Jane.Smith@x.org" ++ b'\n' ∷ lit "jane.smith@X.org , Jane" ++ b'\n' ∷ []

pasted_once :
    parse_invite_lines pasted ≡ record { email = lit "jane.smith@x.org"; display_name = [] } ∷ []
unfolding parse_invite_lines
pasted_once = refl

parse_invite_lines_lem_example :
    IsDistinct (emails (parse_invite_lines pasted))
    × (contains (emails (parse_invite_lines pasted)) (lit "jane.smith@x.org") ≡ (
        contains (map address (split pasted b'\n')) (lit "jane.smith@x.org")
        && not (is_empty (lit "jane.smith@x.org"))))
parse_invite_lines_lem_example = parse_invite_lines_lem pasted (lit "jane.smith@x.org")

abbrev pub jane : User
jane = record {
  username = lit "jane.smith";
  display_name = lit "Jane Smith";
  email = lit "jane.smith@x.org";
  groups = lit "staff" ∷ [];
  disabled = false;
}

pub jane_built : build_invite_user cfg (lit "jane.smith@x.org") [] (lit "staff" ∷ []) ≡ ok jane
unfolding build_invite_user
jane_built = refl

build_invite_user-IsInvitable_example :
    IsInvitable cfg (lit "jane.smith@x.org") (lit "staff" ∷ []) jane
build_invite_user-IsInvitable_example =
    build_invite_user-IsInvitable cfg (lit "jane.smith@x.org") [] (lit "staff" ∷ []) jane_built

-- A name that starts with a letter of two bytes loses it: the first byte alone is no letter.
split_letter : derive_display_name (0xC3 ∷ 0xA9 ∷ lit "ric") ≡ 0xEF ∷ 0xBF ∷ 0xBD ∷ 0xA9 ∷ lit "ric"
unfolding derive_display_name
split_letter = refl
