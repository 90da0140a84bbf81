-- ===== src/Config.antt =====
-- internal/config/config.go: the configuration, read from the environment.
pub mod Laws
use vps_user_portal.Text.Case.{Unicode, to_lower}
use vps_user_portal.Text.Maps.{get, Dict, put}
use vps_user_portal.Text.Parts.{trim_space, cut, split, fields_func, has_prefix, trim_end}
use vps_user_portal.Text.{Text, same, lit}
use vps_user_portal.Base.{
  none, some, ◌>>◌, ◌>>=◌, List, if◌then◌else◌, ◌∷◌, [], ◌==◌, Outcome, is_empty, ◌&&◌, ◌||◌,
  require, not, leb, length, ok,
}
use vps_user_portal.Text.Filled.{keep_filled}

pub record Config : Type 0 where
  pub listen_addr : Text
  pub users_file : Text
  pub provisioners_file : Text
  pub allowed_email_domains : List Text
  pub groups : List Text
  pub group_labels : Dict Text
  pub admin_group : Text
  pub shared_secret : Text
  pub csrf_secret : Text
  pub sso_url : Text
  pub email_backend : Text
  pub email_host : Text
  pub email_port : Text
  pub email_username : Text
  pub email_password : Text
  pub email_from : Text
  pub email_subject_prefix : Text
  pub ntfy_url : Text

pub data ConfigError : Type 0 where
  short_csrf_secret no_domains no_groups no_https_url no_smtp_host : ConfigError
  unknown_backend : Text → ConfigError

-- `get`; `getenv` is `os.Getenv`.
unfoldable pub get_env : (Text → Text) → Text → Text → Text
unfolding trim_space
get_env getenv key fallback =
    if is_empty (trim_space (getenv key)) then fallback else trim_space (getenv key)

pub record GroupOption : Type 0 where
  pub value : Text
  pub label : Text

unfoldable pub label_of : Dict Text → Text → Text
unfolding get
label_of labels g = elim (get labels g) [
  | none ↦ g
  | some label ↦ if is_empty label then g else label
]

options_from : Dict Text → List Text → List GroupOption
unfolding label_of
options_from labels [] = []
options_from labels (g ∷ gs) =
    record { value = g; label = label_of labels g } ∷ options_from labels gs

unfoldable pub group_options : Config → List GroupOption
unfolding options_from
group_options c = options_from c.group_labels c.groups

labels_from : List Text → Dict Text → Dict Text
unfolding cut trim_space put
labels_from [] out = out
labels_from (pair ∷ pairs) out =
    let (before, after, found) = cut pair b'=' in
    let k = trim_space before in
    let label = trim_space after in
    labels_from pairs
      (if found && not (is_empty k) && not (is_empty label) then put out k label else out)

unfoldable pub parse_labels : Text → Dict Text
unfolding labels_from split
parse_labels v = labels_from (split v b';') []

unfoldable pub split_list : Text → List Text
unfolding fields_func keep_filled
split_list v = keep_filled (fields_func (λ r. r == b',' || r == b' ' || r == b'\n') v)

-- The switch on the backend.
unfoldable pub check_backend : Config → Outcome ConfigError (Unit {0})
unfolding same
check_backend c =
    if same c.email_backend (lit "smtp")
    then require (not (is_empty c.email_host || is_empty c.email_from)) no_smtp_host
    else require (same c.email_backend (lit "log") || same c.email_backend (lit "none"))
        (unknown_backend c.email_backend)

unfoldable pub check_config : Config → Outcome ConfigError Config
unfolding has_prefix check_backend
check_config c = do
  require (leb 32 (length c.csrf_secret)) short_csrf_secret
  require (not (is_empty c.allowed_email_domains)) no_domains
  require (not (is_empty c.groups)) no_groups
  require (not (is_empty c.sso_url) && has_prefix c.sso_url (lit "https://")) no_https_url
  check_backend c
  ok c

module _ ⦃unicode : Unicode⦄ where
  unfoldable pub read_config : (Text → Text) → Config
  unfolding get_env split_list parse_labels to_lower trim_end trim_space
  read_config getenv = record {
    listen_addr = get_env getenv (lit "LISTEN_ADDR") (lit ":8080");
    users_file = get_env getenv (lit "USERS_FILE") (lit "/authelia-users/users_database.yml");
    provisioners_file = get_env getenv (lit "PROVISIONERS_FILE") [];
    allowed_email_domains = split_list (to_lower (get_env getenv (lit "ALLOWED_EMAIL_DOMAINS") []));
    groups = split_list (get_env getenv (lit "GROUPS") []);
    group_labels = parse_labels (get_env getenv (lit "GROUP_LABELS") []);
    admin_group = get_env getenv (lit "ADMIN_GROUP") (lit "admin");
    shared_secret = getenv (lit "PORTAL_SHARED_SECRET");
    csrf_secret = trim_space (getenv (lit "CSRF_SECRET"));
    sso_url = trim_end (λ c. c == b'/') (get_env getenv (lit "SSO_URL") []);
    email_backend = get_env getenv (lit "EMAIL_BACKEND") (lit "none");
    email_host = get_env getenv (lit "EMAIL_HOST") [];
    email_port = get_env getenv (lit "EMAIL_PORT") (lit "587");
    email_username = get_env getenv (lit "EMAIL_USERNAME") [];
    email_password = getenv (lit "EMAIL_PASSWORD");
    email_from = get_env getenv (lit "EMAIL_FROM") [];
    email_subject_prefix = get_env getenv (lit "EMAIL_SUBJECT_PREFIX") (lit "[User portal]");
    ntfy_url = get_env getenv (lit "NTFY_URL") [];
  }

  -- `Load`
  unfoldable pub load_config : (Text → Text) → Outcome ConfigError Config
  unfolding read_config check_config
  load_config getenv = check_config (read_config getenv)
