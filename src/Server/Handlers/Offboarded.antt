-- ===== src/Server/Handlers/Offboarded.antt =====
-- `handleDelete` of internal/server/server.go with Planka, of internal/provision/planka, as the app.
use vps_user_portal.Server.Handlers.OneApp.{call_all_one, failed_of_ok, if-passed}
use vps_user_portal.Server.Events.{deletion_failed, removal}
use vps_user_portal.Planka.Users.{deprovision, deactivate}
use vps_user_portal.Planka.Users.Views.{deprovision_sound, found}
use vps_user_portal.Planka.Database.Laws.{account, on_account}
use vps_user_portal.Userstore.Edits.Verified.{IsDeleted}
use vps_user_portal.Userstore.Disk.{Dir}
use vps_user_portal.Userstore.Store.Sound.{IsStored, delete-IsStored}
use vps_user_portal.Userstore.Store.{get_user, delete}
use vps_user_portal.Userstore.Types.{User, Result}
use vps_user_portal.Userstore.Mutate.Publish.{IsProper}
use vps_user_portal.Yaml.{Yaml}
use vps_user_portal.Planka.Database.{Database, Around}
use vps_user_portal.Provision.{Provisioner}
use vps_user_portal.Text.{Text, same}
use vps_user_portal.Text.Case.{Unicode, to_lower}
use vps_user_portal.Base.{List, ◌≡◌, ◌∷◌, [], ok, err, refl, if◌then◌else◌, not}
use vps_user_portal.Planka.Connected.{Catalog, PlankaError, connected}
use vps_user_portal.Server.Handlers.{
  call_all, removed, Post, World, deleted, delete_found, handle_delete, record_event, for_app,
  bad_token, unconfirmed,
}
use vps_user_portal.Planka.Roles

removed_injective :
    {E : Type 0} (c d : Text) (a b : List (Text × E)) → removed c a ≡ removed d b → a ≡ b
removed_injective c d a b h = cc

module _ ⦃unicode : Unicode⦄ (y : Yaml) (file : Text) (proper : IsProper file) (catalog : Catalog)
    (around : Around) (p : Roles.Provisioner) (post : Post) (username email : Text) where
  abbrev planka : List (Provisioner Database PlankaError)
  planka = connected catalog around p ∷ []

  -- The user was there; it is gone from the users file, in which every other entry is as it was;
  -- and the account of its email in Planka is deactivated, while every other email has the account
  -- that it had when the statement ran.
  pub record IsOffboarded (w after : World Database) : Type 0 where
    pub user : User
    pub was_there : get_user y file post.read_fails w.dir username ≡ ok user
    pub stored : IsStored y file (IsDeleted y username) after.dir
    pub accounts :
        (k : Text)
        → account k after.apps.rows ≡ (
            if same k (to_lower user.email)
            then on_account deactivate (account k (found around p w.apps))
            else account k (found around p w.apps))

  deleted-IsOffboarded :
      (u : User) (out : Dir × Result (Unit {0})) (w : World Database)
      → get_user y file post.read_fails w.dir username ≡ ok u
      → (out.1 ≡ ok tt → IsStored y file (IsDeleted y username) out.0)
      → (deleted y file planka post username u out w).1 ≡ removed email []
      → IsOffboarded w (deleted y file planka post username u out w).0
  unfolding deleted record_event deletion_failed removal call_all connected for_app
  deleted-IsOffboarded u (dir, err e) w there stored h = cc
  deleted-IsOffboarded u (dir, ok t) w there stored h =
      let quiet_call =
        call_all_one (λ q. q.deprovision (for_app u)) (connected catalog around p) w.apps
          (removed_injective u.email email _ [] h) in
      record {
        user = u;
        was_there = there;
        stored = stored refl;
        accounts =
            deprovision_sound around p (for_app u) w.apps _
              (failed_of_ok (deprovision around p (for_app u) w.apps) quiet_call);
      }

  delete_found-IsOffboarded :
      (r : Result User) (w : World Database)
      → get_user y file post.read_fails w.dir username ≡ r
      → (delete_found y file planka post username r w).1 ≡ removed email []
      → IsOffboarded w (delete_found y file planka post username r w).0
  unfolding delete_found
  delete_found-IsOffboarded (err e) w there h = cc
  delete_found-IsOffboarded (ok u) w there h =
      deleted-IsOffboarded u (delete y file username post.around w.dir) w there
        (delete-IsStored y file proper username post.around w.dir) h

  -- Where `handleDelete` answers that the user is removed, without a warning, and Planka is the
  -- only app: the user was there, and is gone from the users file, in which every other entry
  -- marshals to what it did; the account of its email in Planka is deactivated, whichever groups the
  -- user has, and every other email has the account that it had.
  pub handle_delete-IsOffboarded :
      (w : World Database)
      → (handle_delete y file planka post username w).1 ≡ removed email []
      → IsOffboarded w (handle_delete y file planka post username w).0
  unfolding handle_delete
  handle_delete-IsOffboarded w h =
      if-passed (IsOffboarded w) (removed email []) (not post.token_valid) bad_token _ w (λ e. cc)
        (if-passed (IsOffboarded w) (removed email []) (not post.confirmed) unconfirmed
          (delete_found y file planka post username (get_user y file post.read_fails w.dir username)
            w)
          w (λ e. cc)
          (delete_found-IsOffboarded (get_user y file post.read_fails w.dir username) w refl))
        h
