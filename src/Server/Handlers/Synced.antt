-- ===== src/Server/Handlers/Synced.antt =====
-- `handleSetGroups` of internal/server/server.go with Planka, of internal/provision/planka, as the
-- app.
use vps_user_portal.Userstore.Mutate.Safety.{LeavesAlone}
use vps_user_portal.Userstore.Disk.{Dir}
use vps_user_portal.Planka.Database.Laws.{account, on_account}
use vps_user_portal.Userstore.Types.{Result}
use vps_user_portal.Userstore.Store.{get_user, list_users, set_groups}
use vps_user_portal.Server.Requests.{selected_groups}
use vps_user_portal.Provision.{Provisioner}
use vps_user_portal.Base.{
  List, ◌≡◌, ◌∷◌, [], false, ok, if◌then◌else◌, err, subst, ok_injective, ℕ, ap, ◌∙◌, refl, not,
}
use vps_user_portal.Config.{Config}
use vps_user_portal.Planka.Database.{Around, Database}
use vps_user_portal.Userstore.Store.Keeping.{IsKeeping}
use vps_user_portal.Userstore.Store.Listing.{IsFaithful}
use vps_user_portal.Userstore.Mutate.Publish.{IsProper}
use vps_user_portal.Text.{Text, same}
use vps_user_portal.Yaml.{Yaml}
use vps_user_portal.Text.Case.{Unicode, to_lower}
use vps_user_portal.Server.Handlers.OneApp.{call_all_one, failed_of_ok, if-passed}
use vps_user_portal.Planka.Users.{sync}
use vps_user_portal.Planka.Users.Views.{sync_sound, reconciled, found}
use vps_user_portal.Userstore.Store.Got.{IsOnce, get_user-set_groups}
use vps_user_portal.Server.Handlers.{
  synced, regrouped, handle_set_groups, updated, World, Post, for_app, record_event, call_all,
  bad_token,
}
use vps_user_portal.Planka.Roles
use vps_user_portal.Userstore.Types.{User}
use vps_user_portal.Server.Events.{access, access_failed}
use vps_user_portal.Planka.Connected.{Catalog, PlankaError, connected}

module _ ⦃unicode : Unicode⦄ (y : Yaml) (file : Text) (proper : IsProper file)
    (faithful : IsFaithful y) (keeping : IsKeeping y) (catalog : Catalog) (around : Around)
    (p : Roles.Provisioner) (post : Post) (cfg : Config) (username : Text) where
  abbrev planka : List (Provisioner Database PlankaError)
  planka = connected catalog around p ∷ []

  abbrev asked : List Text
  asked = selected_groups cfg post.groups

  -- The user has the groups asked for, and is otherwise as before; the account of the email has the
  -- role that these give, or is deactivated, and every other email has the account that it had when
  -- the statement ran.
  pub record IsSynced (w after : World Database) : Type 0 where
    pub user : User
    pub was_there : get_user y file false w.dir username ≡ ok user
    pub stored : get_user y file false after.dir username ≡ ok (record user { groups = asked })
    pub accounts :
        (k : Text)
        → account k after.apps.rows ≡ (
            if same k (to_lower user.email)
            then on_account
                (reconciled around p (for_app (record user { groups = asked })))
                (account k (found around p w.apps))
            else account k (found around p w.apps))

  -- The loop of `Sync`, without a warning, for the user that `Get` gives
  synced_sound :
      (u : User) (r : Result User) (s : Database)
      → r ≡ ok u
      → (synced y file planka post r s).1 ≡ []
      → (k : Text)
      → account k (synced y file planka post r s).0.rows ≡ (
          if same k (to_lower u.email)
          then on_account (reconciled around p (for_app u)) (account k (found around p s))
          else account k (found around p s))
  unfolding synced call_all connected for_app
  synced_sound u (err e) s there quiet k = cc
  synced_sound u (ok v) s there quiet k =
      subst
        (λ (x : User). account k (synced y file planka post (ok v) s).0.rows ≡ (
          if same k (to_lower x.email)
          then on_account (reconciled around p (for_app x)) (account k (found around p s))
          else account k (found around p s)))
        (ok_injective there)
        (sync_sound around p (for_app v) s _
          (failed_of_ok (sync around p (for_app v) s)
            (call_all_one (λ q. q.sync (for_app v)) (connected catalog around p) s quiet))
          k)

  updated_injective : (a b : List (Text × PlankaError)) → updated a ≡ updated b → a ≡ b
  updated_injective a b h = cc

  regrouped-IsSynced :
      (out : Dir × Result (Unit {0})) (w : World Database)
      → post.read_fails ≡ false
      → (out.1 ≡ ok tt
          → (u : User) × (get_user y file false w.dir username ≡ ok u)
            × (get_user y file false out.0 username ≡ ok (record u { groups = asked })))
      → (regrouped y file planka post username asked out w).1 ≡ updated []
      → IsSynced w (regrouped y file planka post username asked out w).0
  unfolding regrouped record_event access access_failed
  regrouped-IsSynced (dir, err e) w reads got h = cc
  regrouped-IsSynced (dir, ok t) w reads got h =
      let (u, was, now) = got refl in
      record {
        user = u;
        was_there = was;
        stored = now;
        accounts =
            synced_sound (record u { groups = asked })
              (get_user y file post.read_fails dir username) w.apps
              (ap (λ b. get_user y file b dir username) reads ∙ now) (updated_injective _ [] h);
      }

  -- With a YAML library that reads back what it writes, keeps of an entry what is not replaced, and
  -- reads groups alike in both ways, no other process that writes the users file, which can be
  -- read, and Planka as the only app: where exactly one user has the name, and `handleSetGroups`
  -- answers without a warning, the user has in the users file exactly the configured ones of the
  -- posted groups and is otherwise as before; and the account of its email in Planka has the role
  -- that these groups give and is active, or is deactivated if they give none, while every other
  -- email has the account that it had.
  pub handle_set_groups-IsSynced :
      (w : World Database) (before : List User)
      → ((round : ℕ) → LeavesAlone file (post.around.around round))
      → post.read_fails ≡ false
      → list_users y file false w.dir ≡ ok before
      → IsOnce username before
      → (handle_set_groups y file planka post cfg username w).1 ≡ updated []
      → IsSynced w (handle_set_groups y file planka post cfg username w).0
  unfolding handle_set_groups
  handle_set_groups-IsSynced w before alone reads there once h =
      let got =
        get_user-set_groups y file proper faithful keeping username asked post.around w.dir before
          alone there once in
      if-passed (IsSynced w) (updated []) (not post.token_valid) bad_token _ w (λ e. cc)
        (regrouped-IsSynced (set_groups y file username asked post.around w.dir) w reads got) h
