-- ===== src/Server/Handlers.antt =====
-- The handlers of internal/server/server.go that change state: `handleInvite`, `handleSetGroups` and
-- `handleDelete`. `S` is the state of the apps, and `E` the type of their errors.
pub mod Laws
pub mod Offboarded
pub mod OneApp
pub mod Synced
pub mod Batch
use vps_user_portal.Email.{Envelope}
use vps_user_portal.Server.Events.{Event, deletion_failed, access_failed, removal, access}
use vps_user_portal.Server.Requests.{selected_groups}
use vps_user_portal.Config.{Config}
use vps_user_portal.Userstore.Store.{delete, get_user, set_groups}
use vps_user_portal.Userstore.Mutate.{Circumstances}
use vps_user_portal.Yaml.{Yaml}
use vps_user_portal.Base.{
  Bool, List, Outcome, ◌++◌, ℕ, ok, ◌∷◌, err, [], if◌then◌else◌, true, not, length, false,
}
use vps_user_portal.Userstore.Disk.{Dir}
use vps_user_portal.Text.{Text, lit}
use vps_user_portal.Userstore.Types.{User, Error, Result}
use vps_user_portal.Provision.{Provisioner}
use vps_user_portal.Provision

-- The directory of the users file, the apps, the audit log, and the mails that the mail server took.
pub record World (S : Type 0) : Type 0 where
  pub dir : Dir
  pub apps : S
  pub audit : List Event
  pub mails : List Envelope

-- What a handler reads of a request, and what other processes do around it.
pub record Post : Type 0 where
  pub token_valid : Bool
  pub actor : Text
  pub confirmed : Bool
  pub groups : List Text
  pub read_fails : Bool
  pub around : Circumstances

pub data Page (E : Type 0) : Type 0 where
  bad_token unconfirmed no_user : Page E
  went_wrong : Error → Page E
  -- with the email of the user
  removed : Text → List (Text × E) → Page E
  updated : List (Text × E) → Page E

unfoldable pub for_app : User → Provision.User
for_app u = record {
  username = u.username;
  display_name = u.display_name;
  email = u.email;
  groups = u.groups;
}

unfoldable pub record_event : {S : Type 0} → Event → World S → World S
record_event e w = record w { audit = w.audit ++ e ∷ [] }

warning : {E : Type 0} → Text → Outcome E (Unit {0}) → List (Text × E)
warning name (ok u) = []
warning name (err e) = (name, e) ∷ []

module _ {S E : Type 0} where
  -- The loop over the provisioners, with its warnings.
  unfoldable pub call_all :
      (Provisioner S E → S → S × Outcome E (Unit {0}))
      → List (Provisioner S E)
      → S
      → S × List (Text × E)
  unfolding warning
  call_all op [] s = (s, [])
  call_all op (p ∷ ps) s =
      let first = op p s in
      let rest = call_all op ps first.0 in (rest.0, warning p.name first.1 ++ rest.1)

module _ {S E : Type 0} (y : Yaml) (file : Text) (provs : List (Provisioner S E))
    (post : Post) where
  unfoldable pub deleted : Text → User → Dir × Result (Unit {0}) → World S → World S × Page E
  unfolding call_all record_event for_app deletion_failed removal
  deleted username u (dir, err e) w =
      (record_event (deletion_failed post.actor u e) (record w { dir = dir }), went_wrong e)
  deleted username u (dir, ok t) w =
      let (apps, warnings) = call_all (λ p. p.deprovision (for_app u)) provs w.apps in
      (
        record_event (removal post.actor username u (length warnings))
            (record w { dir = dir; apps = apps }),
        removed u.email warnings,
      )

  unfoldable pub delete_found : Text → Result User → World S → World S × Page E
  unfolding deleted delete
  delete_found username (err e) w = (w, no_user)
  delete_found username (ok u) w = deleted username u (delete y file username post.around w.dir) w

  -- `handleDelete`
  unfoldable pub handle_delete : Text → World S → World S × Page E
  unfolding delete_found get_user
  handle_delete username w =
      if not post.token_valid
      then (w, bad_token)
      else if not post.confirmed
      then (w, unconfirmed)
      else delete_found username (get_user y file post.read_fails w.dir username) w

  unfoldable pub synced : Result User → S → S × List (Text × E)
  unfolding call_all for_app
  synced (err e) s = (s, [])
  synced (ok u) s = call_all (λ p. p.sync (for_app u)) provs s

  unfoldable pub regrouped : Text → List Text → Dir × Result (Unit {0}) → World S → World S × Page E
  unfolding synced record_event get_user access_failed access
  regrouped username groups (dir, err e) w = (
    record_event (access_failed post.actor username groups e) (record w { dir = dir }),
    went_wrong e,
  )
  regrouped username groups (dir, ok t) w =
      let (apps, warnings) = synced (get_user y file post.read_fails dir username) w.apps in
      (
        record_event (access post.actor username groups (length warnings))
            (record w { dir = dir; apps = apps }),
        updated warnings,
      )

  -- `handleSetGroups`; an update without warnings is the redirection.
  unfoldable pub handle_set_groups : Config → Text → World S → World S × Page E
  unfolding regrouped set_groups selected_groups
  handle_set_groups cfg username w =
      if not post.token_valid
      then (w, bad_token)
      else regrouped username (selected_groups cfg post.groups)
          (set_groups y file username (selected_groups cfg post.groups) post.around w.dir) w
