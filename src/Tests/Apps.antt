-- ===== src/Tests/Apps.antt =====
-- The provisioner of internal/provision/planka on a table of one account.
use vps_user_portal.Planka.Users.Views.{
  seen, provision_sound, reconciled, deprovision_sound, status_sound, sync_sound,
}
use vps_user_portal.Yaml.{mapping, cons, scalar, nil}
use vps_user_portal.Planka.Check.Laws.{IsReady, check_sound}
use vps_user_portal.Planka.Roles.Laws.{applies, role_for_first, role_for_lem}
use vps_user_portal.Tests.Toy.{ascii}
use vps_user_portal.Userstore.Nodes.{fresh}
use vps_user_portal.Planka.Users.Laws.{perform_all, offboarded, invited, perform_all-IsKeeping}
use vps_user_portal.Text.Distinct.{IsDistinct}
use vps_user_portal.Provision.Unique.{load_entries-IsDistinct, names}
use vps_user_portal.Planka.Check.{Column, Privileges, check}
use vps_user_portal.Text.Case.{to_lower}
use vps_user_portal.Text.Maps.{Dict, get}
use vps_user_portal.Planka.Database.Laws.{account, IsUnique, on_account}
use vps_user_portal.Planka.Users.{provision, sync, deprovision, status, new_row, deactivate}
use vps_user_portal.Text.{contains, Text, lit, same}
use vps_user_portal.Base.{
  is_empty, List, [], ◌∷◌, any, ◌≡◌, map, Option, true, some, ok, not, ◌⊎◌, false, refl, none, ℕ,
  if◌then◌else◌, Outcome, length,
}
use vps_user_portal.Planka.Database.{Around, Row, Database, has_email, done}
use vps_user_portal.Provision.{User, load_entries, AppStatus, Entry}
use vps_user_portal.Planka.Roles.{
  Provisioner, RawConfig, RoleRule, new_from_config, role_for, valid_planka_role,
}

abbrev config : RawConfig
config = record {
  dsn_env = lit "DSN";
  label = [];
  url = [];
  roles = fresh mapping (lit "!!map") [] (
      cons (fresh scalar (lit "!!str") (lit "admins") nil) (
        cons (fresh scalar (lit "!!str") (lit "admin") nil) (
          cons (fresh scalar (lit "!!str") (lit "staff") nil)
            (cons (fresh scalar (lit "!!str") (lit "boardUser") nil) nil))));
}

abbrev admins : RoleRule
admins = record { group = lit "admins"; role = lit "admin" }

abbrev staff : RoleRule
staff = record { group = lit "staff"; role = lit "boardUser" }

abbrev pub planka : Provisioner
planka = record { name = lit "planka"; label = []; url = []; roles = admins ∷ staff ∷ [] }

abbrev pub alone : Around
alone = record { others = λ n rows. rows; fate = λ n. done; now = λ n. 7; lower = to_lower }

abbrev carol : User
carol = record {
  username = lit "carol";
  display_name = lit "Carol";
  email = lit "Carol@x.org";
  groups = lit "staff" ∷ [];
}

abbrev pub carol_row : Row
carol_row = new_row (lit "carol@x.org") (lit "Carol") (lit "carol") (lit "boardUser") 7

abbrev no_accounts : Database
no_accounts = record { rows = []; count = 0 }

abbrev one_account : Database
one_account = record { rows = carol_row ∷ []; count = 2 }

abbrev after_update : (Row → Row) → Database
after_update f = record { rows = f carol_row ∷ []; count = 3 }

config_made :
    new_from_config (λ v. lit "postgres") (λ d. true) (lit "planka") (some config) ≡ ok planka
unfolding new_from_config
config_made = refl

role_for_lem_example :
    (is_empty (role_for planka (lit "staff" ∷ []))
      ≡ not (any (applies (lit "staff" ∷ [])) planka.roles))
    × ((role_for planka (lit "staff" ∷ []) ≡ [])
        ⊎ (valid_planka_role (role_for planka (lit "staff" ∷ [])) ≡ true))
role_for_lem_example =
    role_for_lem (λ v. lit "postgres") (λ d. true) (lit "planka") (some config) config_made
      (lit "staff" ∷ [])

staff_only :
    (any (applies (lit "staff" ∷ [])) (admins ∷ []) ≡ false)
    × (applies (lit "staff" ∷ []) staff ≡ true)
unfolding contains
staff_only = (refl, refl)

staff_is_user : role_for planka (lit "staff" ∷ []) ≡ lit "boardUser"
staff_is_user =
    role_for_first planka (lit "staff" ∷ []) (admins ∷ []) staff [] refl staff_only.0 staff_only.1

provision_runs : provision alone planka carol no_accounts ≡ (one_account, ok tt)
unfolding provision new_row
provision_runs = refl

carol_provisioned :
    ((is_empty (role_for planka carol.groups) ≡ true) × (one_account ≡ no_accounts))
    ⊎ ((account (to_lower carol.email) [] ≡ none)
        × ((k : Text)
            → account k one_account.rows ≡ (
                if same (to_lower carol.email) k
                then some (
                    new_row
                      (to_lower carol.email)
                      carol.display_name
                      carol.username
                      (role_for planka carol.groups)
                      7)
                else account k [])))
carol_provisioned = provision_sound alone planka carol no_accounts one_account provision_runs

sync_runs :
    sync alone planka (record carol { groups = [] }) one_account ≡ (after_update deactivate, ok tt)
unfolding sync new_row
sync_runs = refl

sync_sound_example : account (lit "carol@x.org") (after_update deactivate).rows ≡ (
    if same (lit "carol@x.org") (to_lower carol.email)
    then on_account
        (reconciled alone planka (record carol { groups = [] }))
        (account (lit "carol@x.org") one_account.rows)
    else account (lit "carol@x.org") one_account.rows)
sync_sound_example =
    sync_sound alone planka (record carol { groups = [] }) one_account (after_update deactivate)
      sync_runs (lit "carol@x.org")

deprovision_runs : deprovision alone planka carol one_account ≡ (after_update deactivate, ok tt)
unfolding deprovision new_row same
deprovision_runs = refl

carol_deprovisioned : account (lit "carol@x.org") (after_update deactivate).rows ≡ (
    if same (lit "carol@x.org") (to_lower carol.email)
    then on_account deactivate (account (lit "carol@x.org") one_account.rows)
    else account (lit "carol@x.org") one_account.rows)
carol_deprovisioned =
    deprovision_sound alone planka carol one_account (after_update deactivate) deprovision_runs
      (lit "carol@x.org")

abbrev carol_seen : Dict AppStatus
carol_seen =
    (lit "carol@x.org", record { present = true; role = lit "boardUser"; deactivated = false }) ∷ []

status_runs :
    status alone planka (carol.email ∷ []) one_account
    ≡ (record { rows = carol_row ∷ []; count = 3 }, ok carol_seen)
unfolding status new_row
status_runs = refl

carol_lowered :
    (to_lower carol_row.email ≡ carol_row.email) × (has_email carol_row.email [] ≡ false)
unfolding to_lower new_row has_email
carol_lowered = (refl, refl)

carol_asked : contains (map to_lower (carol.email ∷ [])) (lit "carol@x.org") ≡ true
unfolding to_lower contains
carol_asked = refl

status_sound_example :
    get carol_seen (lit "carol@x.org")
    ≡ on_account seen (account (lit "carol@x.org") one_account.rows)
status_sound_example =
    status_sound alone planka (carol.email ∷ []) one_account
      (record { rows = carol_row ∷ []; count = 3 }) carol_seen status_runs (carol_lowered.0, tt)
      (carol_lowered.1, tt) (lit "carol@x.org") carol_asked

carol_there : has_email (lit "carol@x.org") one_account.rows ≡ true
unfolding has_email new_row same
carol_there = refl

perform_all-IsKeeping_example :
    IsUnique (perform_all alone planka (offboarded carol ∷ invited carol ∷ []) one_account).rows
    × (has_email
          (lit "carol@x.org")
          (perform_all alone planka (offboarded carol ∷ invited carol ∷ []) one_account).rows
        ≡ true)
perform_all-IsKeeping_example =
    perform_all-IsKeeping alone planka (lit "carol@x.org") (offboarded carol ∷ invited carol ∷ [])
      one_account (λ n rows. (λ unique. unique, λ e there. there)) (carol_lowered.1, tt) carol_there

abbrev schema : List (Option Column)
schema =
    some (record { name = lit "id"; nullable = lit "NO"; default = some (lit "next_id()") })
    ∷ some (record { name = lit "email"; nullable = lit "NO"; default = none })
    ∷ some (record { name = lit "password"; nullable = lit "YES"; default = none })
    ∷ []

abbrev granted : Privileges
granted = record {
  select_email = true;
  select_role = true;
  select_deactivated = true;
  can_insert = true;
  update_deactivated = true;
  update_role = true;
  sequence_ok = true;
  is_super = false;
}

check_runs : check (some (schema, false)) (some granted) ≡ ok tt
unfolding check
check_runs = refl

check_sound_example : IsReady (some (schema, false)) (some granted)
check_sound_example = check_sound (some (schema, false)) (some granted) check_runs

-- Two entries, of which the second takes its type for its name.
abbrev entries : List (Entry ℕ)
entries =
    (some (record { kind = lit "planka-postgres"; name = lit "main" }), 1)
    ∷ (some (record { kind = lit "planka-postgres"; name = [] }), 2)
    ∷ []

abbrev factories : Text → Option (Text → ℕ → Outcome Text ℕ)
factories kind = if same kind (lit "planka-postgres") then some (λ name n. ok n) else none

abbrev two_made : List (Text × ℕ)
two_made = (lit "main", 1) ∷ (lit "planka-postgres", 2) ∷ []

entries_load : load_entries factories entries ≡ ok two_made
unfolding load_entries same
entries_load = refl

load_entries-IsDistinct_example : IsDistinct (names two_made) × (length two_made ≡ length entries)
load_entries-IsDistinct_example = load_entries-IsDistinct factories entries entries_load
