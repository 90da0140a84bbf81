-- ===== src/Userstore/Store.antt =====
-- The methods of `Store` in internal/userstore/userstore.go.
pub mod Sound
pub mod Granted
pub mod Listing
pub mod Added
pub mod Deleted
pub mod Keeping
pub mod Regrouped
pub mod Refined
pub mod Got
use vps_user_portal.Base.{ok, err, ◌>>=◌, or_fail, Bool, List, [], ◌∷◌, if◌then◌else◌}
use vps_user_portal.Text.{Text, same}
use vps_user_portal.Text.Case.{Unicode}
use vps_user_portal.Yaml.{Node, content, Yaml}
use vps_user_portal.Userstore.Types.{User, read_failed, invalid_username, not_found, Result}
use vps_user_portal.Userstore.Names.{valid_username}
use vps_user_portal.Userstore.Nodes.{parse_bytes, users_map, decode_users}
use vps_user_portal.Userstore.Edits.{
  add_edit, add_verify, set_groups_edit, set_groups_verify, delete_edit, delete_verify,
}
use vps_user_portal.Userstore.Disk.{Dir, read_file}
use vps_user_portal.Userstore.Mutate.{Circumstances, mutate}

module _ (y : Yaml) (file : Text) where
  unfoldable pub parse_file : Bool → Dir → Result Node
  unfolding read_file parse_bytes
  parse_file fails dir = do b ← or_fail (read_file fails dir file) read_failed; parse_bytes y b

  -- `List`
  unfoldable pub list_users : Bool → Dir → Result (List User)
  unfolding parse_file users_map decode_users
  list_users fails dir = do
    root ← parse_file fails dir
    users ← users_map root
    ok (decode_users y (content users))

  first_named : Text → List User → Result User
  unfolding same
  first_named username [] = err (not_found username)
  first_named username (u ∷ users) =
      if same u.username username then ok u else first_named username users

  -- `Get`
  unfoldable pub get_user : Bool → Dir → Text → Result User
  unfolding list_users first_named
  get_user fails dir username = do users ← list_users fails dir; first_named username users

module _ ⦃u : Unicode⦄ (y : Yaml) (file : Text) where
  unfoldable pub add : User → Text → Circumstances → Dir → Dir × Result (Unit {0})
  unfolding mutate add_edit add_verify valid_username
  add new hash c dir =
      if valid_username new.username
      then mutate y file (record { edit = add_edit y new hash; verify = add_verify y new }) c dir
      else (dir, err (invalid_username new.username))

module _ (y : Yaml) (file : Text) where
  unfoldable pub set_groups : Text → List Text → Circumstances → Dir → Dir × Result (Unit {0})
  unfolding mutate set_groups_edit set_groups_verify
  set_groups username groups c dir =
      mutate y file
        (record {
          edit = set_groups_edit username groups;
          verify = set_groups_verify y username groups;
        })
        c dir

  unfoldable pub delete : Text → Circumstances → Dir → Dir × Result (Unit {0})
  unfolding mutate delete_edit delete_verify
  delete username c dir =
      mutate y file (record { edit = delete_edit username; verify = delete_verify y username }) c
        dir
