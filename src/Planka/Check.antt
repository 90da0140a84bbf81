-- ===== src/Planka/Check.antt =====
-- `Check` and `checkGrants` of internal/provision/planka/planka.go.
pub mod Laws
use vps_user_portal.Text.{Text, same, contains, lit}
use vps_user_portal.Base.{
  List, ℕ, Option, false, Outcome, Bool, some, if◌then◌else◌, ◌+◌, ok, [], ◌&&◌, err, ◌∷◌, true,
  not, ◌++◌, none, ◌>>◌, ◌>>=◌, require, is_empty, ◌==◌,
}

-- `insertColumns`
unfoldable pub insert_columns : List Text
insert_columns =
    lit "email"
    ∷ lit "name"
    ∷ lit "username"
    ∷ lit "role"
    ∷ lit "is_sso_user"
    ∷ lit "is_deactivated"
    ∷ lit "subscribe_to_own_cards"
    ∷ lit "subscribe_to_card_when_commenting"
    ∷ lit "turn_off_recent_card_highlighting"
    ∷ lit "enable_favorites_by_default"
    ∷ lit "default_editor_mode"
    ∷ lit "default_home_view"
    ∷ lit "default_projects_order"
    ∷ lit "created_at"
    ∷ []

-- A row of `information_schema.columns`.
pub record Column : Type 0 where
  pub name : Text
  pub nullable : Text
  pub default : Option Text

-- The variables of the loop.
pub record Shape : Type 0 where
  pub found : ℕ
  pub id_has_default : Bool
  pub password_exists : Bool
  pub password_null : Bool
  pub unmet : List Text

pub data Grant : Type 0 where
  select_grant insert_grant update_grant sequence_grant : Grant

pub data CheckError : Type 0 where
  query_failed scan_failed rows_failed no_table : CheckError
  unmet_columns : List Text → CheckError
  id_without_default password_not_nullable probe_failed is_superuser : CheckError
  missing_grants : List Grant → CheckError

abbrev pub is_some {ℓ} : {A : Type ℓ} → Option A → Bool
is_some none = false
is_some (some a) = true

-- A column that an INSERT has to give.
unfoldable pub is_required : Column → Bool
unfolding same
is_required c = same c.nullable (lit "NO") && not (is_some c.default)

-- The switch on the name.
unfoldable pub see : Column → Shape → Shape
unfolding same
see c s =
    if same c.name (lit "id")
    then record s { id_has_default = is_some c.default }
    else if same c.name (lit "password")
    then record s { password_exists = true; password_null = same c.nullable (lit "YES") }
    else s

unfoldable pub read_column : Column → Shape → Shape
unfolding see is_required insert_columns contains
read_column c s =
    let seen = see c (record s { found = s.found + 1 }) in
    if is_required c && not (contains insert_columns c.name)
    then record seen { unmet = s.unmet ++ c.name ∷ [] }
    else seen

-- The loop; `none` is a row that does not scan.
unfoldable pub read_columns : List (Option Column) → Shape → Outcome CheckError Shape
unfolding read_column
read_columns [] s = ok s
read_columns (none ∷ cs) s = err scan_failed
read_columns (some c ∷ cs) s = read_columns cs (read_column c s)

abbrev pub start : Shape
start = record {
  found = 0;
  id_has_default = false;
  password_exists = false;
  password_null = false;
  unmet = [];
}

-- The tests behind the loop.
unfoldable pub judge : Shape → Outcome CheckError (Unit {0})
judge s = do
  require (not (s.found == 0)) no_table
  require (is_empty s.unmet) (unmet_columns s.unmet)
  require s.id_has_default id_without_default
  require (s.password_exists && s.password_null) password_not_nullable

-- What the probe of the privileges scans.
pub record Privileges : Type 0 where
  pub select_email : Bool
  pub select_role : Bool
  pub select_deactivated : Bool
  pub can_insert : Bool
  pub update_deactivated : Bool
  pub update_role : Bool
  pub sequence_ok : Bool
  pub is_super : Bool

abbrev unless : Bool → Grant → List Grant
unless true g = []
unless false g = g ∷ []

unfoldable pub lacking : Privileges → List Grant
lacking v =
    unless (v.select_email && (v.select_role && v.select_deactivated)) select_grant
    ++ unless v.can_insert insert_grant
    ++ unless (v.update_deactivated && v.update_role) update_grant
    ++ unless v.sequence_ok sequence_grant

unfoldable pub check_grants : Option Privileges → Outcome CheckError (Unit {0})
unfolding lacking
check_grants none = err probe_failed
check_grants (some v) = do
  require (not v.is_super) is_superuser
  require (is_empty (lacking v)) (missing_grants (lacking v))

-- `columns` is the answer to the first query, if there is one, with the error that ends its rows;
-- `probe` is the answer to the second.
unfoldable pub check :
    Option (List (Option Column) × Bool) → Option Privileges → Outcome CheckError (Unit {0})
unfolding read_columns judge check_grants
check none probe = err query_failed
check (some (columns, failed)) probe = do
  shape ← read_columns columns start
  require (not failed) rows_failed
  u ← judge shape
  check_grants probe
