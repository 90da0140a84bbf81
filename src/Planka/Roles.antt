-- ===== src/Planka/Roles.antt =====
-- The role mapping of internal/provision/planka/planka.go: `validPlankaRoles`, the loop of
-- `newFromConfig` over the mapping, `Info` and `roleFor`.
pub mod Laws
use vps_user_portal.Base.{
  List, Bool, Outcome, if◌then◌else◌, ◌∷◌, ok, false, Option, is_empty, [], err, true, some, ◌||◌,
  ◌>>=◌, ◌>>◌, none, require, not, ◌&&◌,
}
use vps_user_portal.Provision.{AppInfo}
use vps_user_portal.Yaml.{Nodes, Node, cons, value, nil, is_mapping, kind, content}
use vps_user_portal.Text.{Text, contains, lit}

pub record RoleRule : Type 0 where
  pub group : Text
  pub role : Text

-- A provisioner but for its connection pool, which is the database of `Planka.Database`.
pub record Provisioner : Type 0 where
  pub name : Text
  pub label : Text
  pub url : Text
  pub roles : List RoleRule

unfoldable pub valid_planka_role : Text → Bool
unfolding contains
valid_planka_role role = contains (lit "admin" ∷ lit "projectOwner" ∷ lit "boardUser" ∷ []) role

pub data ConfigError : Type 0 where
  undecodable no_dsn_env empty_dsn no_roles empty_rule no_pool : ConfigError
  invalid_role : Text → ConfigError

-- A round of the loop.
unfoldable pub read_rule : Node → Node → Outcome ConfigError RoleRule
unfolding valid_planka_role
read_rule k v = do
  require (not (is_empty (value k) || is_empty (value v))) empty_rule
  require (valid_planka_role (value v)) (invalid_role (value v))
  ok (record { group = value k; role = value v })

-- The loop over the content of the roles mapping; what stands behind the last pair is not read.
unfoldable pub read_rules : Nodes → Outcome ConfigError (List RoleRule)
unfolding read_rule
read_rules nil = ok []
read_rules (cons k nil) = ok []
read_rules (cons k (cons v ns)) = do r ← read_rule k v; rules ← read_rules ns; ok (r ∷ rules)

-- What the yaml node decodes to.
pub record RawConfig : Type 0 where
  pub dsn_env : Text
  pub label : Text
  pub url : Text
  pub roles : Node

abbrev has_content : Nodes → Bool
has_content nil = false
has_content (cons n ns) = true

-- `getenv` is `os.Getenv`, and `connects` says whether `pgxpool.New` makes a pool for a DSN.
unfoldable pub new_from_config :
    (Text → Text) → (Text → Bool) → Text → Option RawConfig → Outcome ConfigError Provisioner
unfolding read_rules
new_from_config getenv connects name none = err undecodable
new_from_config getenv connects name (some raw) = do
  require (not (is_empty raw.dsn_env)) no_dsn_env
  require (not (is_empty (getenv raw.dsn_env))) empty_dsn
  require (is_mapping (kind raw.roles) && has_content (content raw.roles)) no_roles
  rules ← read_rules (content raw.roles)
  require (connects (getenv raw.dsn_env)) no_pool
  ok (record { name = name; label = raw.label; url = raw.url; roles = rules })

unfoldable pub info : Provisioner → AppInfo
info p = record {
  name = p.name;
  display_name = if is_empty p.label then p.name else p.label;
  url = p.url;
}

first_role : List Text → List RoleRule → Text
unfolding contains
first_role groups [] = []
first_role groups (r ∷ rs) = if contains groups r.group then r.role else first_role groups rs

-- The empty text means that the user is out of scope.
unfoldable pub role_for : Provisioner → List Text → Text
unfolding first_role
role_for p groups = first_role groups p.roles
