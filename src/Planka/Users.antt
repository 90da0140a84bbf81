-- ===== src/Planka/Users.antt =====
-- The operations of internal/provision/planka/planka.go on users: `Provision`, `Sync`, `Deprovision`
-- and `Status`.
mod Answers
pub mod Laws
pub mod Views
use vps_user_portal.Planka.Roles.{role_for, Provisioner}
use vps_user_portal.Provision.{AppStatus, User}
use vps_user_portal.Base.{
  ℕ, Option, false, true, List, Outcome, Bool, none, err, some, suc, ok, [], ◌∷◌, map, zero,
  if◌then◌else◌, is_empty, not,
}
use vps_user_portal.Text.Case.{Unicode, to_lower}
use vps_user_portal.Text.Maps.{put, Dict}
use vps_user_portal.Planka.Database.{
  run, Database, Row, insert, Around, select_exists, update, select_matching,
}
use vps_user_portal.Text.{Text, lit}

pub data Error : Type 0 where
  check_failed insert_failed update_failed deactivate_failed query_failed : Error
  already_exists : Text → Error

-- The columns of the INSERT, with the preferences of a new account.
unfoldable pub new_row : Text → Text → Text → Text → ℕ → Row
new_row email name username role now = record {
  email = email;
  name = name;
  username = username;
  role = role;
  is_sso_user = true;
  is_deactivated = false;
  subscribe_to_own_cards = false;
  subscribe_to_card_when_commenting = true;
  turn_off_recent_card_highlighting = false;
  enable_favorites_by_default = true;
  default_editor_mode = lit "wysiwyg";
  default_home_view = lit "groupedProjects";
  default_projects_order = lit "byDefault";
  created_at = now;
  password = none;
}

unfoldable pub inserted : Text → Option ℕ → Outcome Error (Unit {0})
inserted email none = err insert_failed
inserted email (some zero) = err (already_exists email)
inserted email (some (suc n)) = ok tt

unfoldable pub checked :
    Around → Text → (ℕ → Row) → Database × Option Bool → Database × Outcome Error (Unit {0})
unfolding run insert inserted
checked around email make (d, none) = (d, err check_failed)
checked around email make (d, some true) = (d, err (already_exists email))
checked around email make (d, some false) =
    let (after, made) = run around (insert make) d in (after, inserted email made)

unfoldable pub or_error : Error → Database × Option (Unit {0}) → Database × Outcome Error (Unit {0})
or_error e (d, none) = (d, err e)
or_error e (d, some u) = (d, ok tt)

unfoldable pub set_role : Text → Row → Row
set_role role r = record r { role = role; is_deactivated = false }

unfoldable pub deactivate : Row → Row
deactivate r = record r { is_deactivated = true }

unfoldable pub collect : List (Text × Text × Bool) → Dict AppStatus → Dict AppStatus
unfolding put
collect [] out = out
collect ((email, role, deactivated) ∷ rs) out =
    collect rs (put out email (record { present = true; role = role; deactivated = deactivated }))

unfoldable pub reported :
    Database × Option (List (Text × Text × Bool)) → Database × Outcome Error (Dict AppStatus)
unfolding collect
reported (d, none) = (d, err query_failed)
reported (d, some rs) = (d, ok (collect rs []))

module _ ⦃unicode : Unicode⦄ (around : Around) (p : Provisioner) where
  unfoldable pub provision : User → Database → Database × Outcome Error (Unit {0})
  unfolding role_for to_lower run select_exists checked new_row
  provision u d =
      if is_empty (role_for p u.groups)
      then (d, ok tt)
      else checked around (to_lower u.email)
          (new_row (to_lower u.email) u.display_name u.username (role_for p u.groups))
          (run around (select_exists (to_lower u.email)) d)

  unfoldable pub sync : User → Database → Database × Outcome Error (Unit {0})
  unfolding role_for to_lower run update set_role deactivate or_error
  sync u d =
      if not (is_empty (role_for p u.groups))
      then or_error update_failed
          (run around (update (to_lower u.email) (set_role (role_for p u.groups))) d)
      else or_error deactivate_failed (run around (update (to_lower u.email) deactivate) d)

  unfoldable pub deprovision : User → Database → Database × Outcome Error (Unit {0})
  unfolding to_lower run update deactivate or_error
  deprovision u d = or_error deactivate_failed (run around (update (to_lower u.email) deactivate) d)

  unfoldable pub status : List Text → Database → Database × Outcome Error (Dict AppStatus)
  unfolding to_lower run select_matching reported
  status emails d = reported (run around (select_matching around.lower (map to_lower emails)) d)
