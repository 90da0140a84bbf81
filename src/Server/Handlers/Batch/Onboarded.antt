-- ===== src/Server/Handlers/Batch/Onboarded.antt =====
-- `handleInvite` of internal/server/server.go with Planka, of internal/provision/planka, as the app.
use vps_user_portal.Userstore.Store.{add}
use vps_user_portal.Userstore.Mutate.Publish.{IsProper}
use vps_user_portal.Planka.Database.Laws.{account}
use vps_user_portal.Userstore.Disk.{Dir}
use vps_user_portal.Text.{Text, same}
use vps_user_portal.Base.{
  ◌∷◌, is_empty, [], ◌≡◌, true, Bool, ◌⊎◌, ok, err, Bool-cases, ◌+◌, inl, none, inr, if◌then◌else◌,
  subst, sym, some, List, refl, Option, Outcome,
}
use vps_user_portal.Planka.Database.{Around, Database}
use vps_user_portal.Text.Case.{Unicode, to_lower}
use vps_user_portal.Server.Handlers.OneApp.{call_all_one, failed_of_ok}
use vps_user_portal.Server.Handlers.Batch.Laws.{mailed-lem}
use vps_user_portal.Server.Handlers.Batch.{Batch, Luck, created, added, hashed, built, invite_one}
use vps_user_portal.Server.Handlers.{World, for_app, record_event, call_all}
use vps_user_portal.Server.Invites.{InviteEntry, Problem, build_invite_user}
use vps_user_portal.Server.Invites.Laws.{IsInvitable, build_invite_user-IsInvitable}
use vps_user_portal.Planka.Users.{provision, new_row}
use vps_user_portal.Planka.Users.Views.{provision_sound, found}
use vps_user_portal.Planka.Roles
use vps_user_portal.Planka.Roles.{role_for}
use vps_user_portal.Planka.Connected.{Catalog, PlankaError, connected}
use vps_user_portal.Userstore.Store.Sound.{IsStored, add-IsStored}
use vps_user_portal.Userstore.Edits.Verified.{IsAdded}
use vps_user_portal.Userstore.Types.{User, Result, is_duplicate}

created_injective :
    {E : Type 0} (xs ys : List (Text × E)) (c d : Bool) → created xs c ≡ created ys d → xs ≡ ys
created_injective xs ys c d h = cc

module _ ⦃unicode : Unicode⦄ (catalog : Catalog) (around : Around) (p : Roles.Provisioner)
    (common : Batch Database PlankaError) where
  -- The batch with Planka as the only app
  abbrev pub with_planka : Batch Database PlankaError
  with_planka = record common { provs = connected catalog around p ∷ [] }

  -- Where the groups give no role, Planka is as it was; otherwise the lowercased email had no account
  -- and has one with that role now, and every other email has the account that it had.
  abbrev pub IsProvisioned : User → Database → Database → Type 0
  IsProvisioned u d after =
      ((is_empty (role_for p u.groups) ≡ true) × (after ≡ d))
      ⊎ ((account (to_lower u.email) (around.others (d.count + 1) (found around p d)) ≡ none)
          × ((k : Text)
              → account k after.rows ≡ (
                  if same (to_lower u.email) k
                  then some (
                      new_row (to_lower u.email) u.display_name u.username (role_for p u.groups)
                        (around.now (d.count + 1)))
                  else account k (around.others (d.count + 1) (found around p d)))))

  pub record IsOnboarded (email : Text) (w after : World Database) : Type 0 where
    pub user : User
    pub invitable : IsInvitable common.config email common.groups user
    pub stored : IsStored common.yaml common.file (IsAdded common.yaml user) after.dir
    pub provisioned : IsProvisioned user w.apps after.apps

  added-IsOnboarded :
      (email : Text) (u : User) (luck : Luck) (out : Dir × Result (Unit {0})) (w : World Database)
      (mail_failed : Bool)
      → IsInvitable common.config email common.groups u
      → (out.1 ≡ ok tt → IsStored common.yaml common.file (IsAdded common.yaml u) out.0)
      → (added with_planka u luck out w).1 ≡ created [] mail_failed
      → IsOnboarded email w (added with_planka u luck out w).0
  unfolding added record_event call_all connected for_app
  added-IsOnboarded email u luck (dir, err e) w mail_failed fine stored h =
      elim (Bool-cases (is_duplicate e)) [
        | inl again ↦ cc (rw again at h)
        | inr other ↦ cc (rw other at h)
      ]
  added-IsOnboarded email u luck (dir, ok t) w mail_failed fine stored h =
      let told = call_all (λ q. q.provision (for_app u)) with_planka.provs w.apps in
      let (same_dir, same_apps) =
        mailed-lem with_planka u luck (record w { dir = dir; apps = told.0 }) in
      record {
        user = u;
        invitable = fine;
        stored =
            subst (IsStored common.yaml common.file (IsAdded common.yaml u)) (sym same_dir)
              (stored refl);
        provisioned = subst (IsProvisioned u w.apps) (sym same_apps) (
            provision_sound around p (for_app u) w.apps _ (
              failed_of_ok (provision around p (for_app u) w.apps) (
                call_all_one (λ q. q.provision (for_app u)) (connected catalog around p) w.apps
                  (created_injective _ [] _ mail_failed h))));
      }

  hashed-IsOnboarded :
      (email : Text) (u : User) (luck : Luck) (hash : Option Text) (w : World Database)
      (mail_failed : Bool)
      → IsProper common.file
      → IsInvitable common.config email common.groups u
      → (hashed with_planka u luck hash w).1 ≡ created [] mail_failed
      → IsOnboarded email w (hashed with_planka u luck hash w).0
  unfolding hashed
  hashed-IsOnboarded email u luck none w mail_failed proper fine h = cc
  hashed-IsOnboarded email u luck (some hash) w mail_failed proper fine h =
      added-IsOnboarded email u luck (add common.yaml common.file u hash luck.around w.dir) w
        mail_failed fine (add-IsStored common.yaml common.file proper u hash luck.around w.dir) h

  built-IsOnboarded :
      (email : Text) (luck : Luck) (out : Outcome Problem User) (w : World Database)
      (mail_failed : Bool)
      → IsProper common.file
      → ((u : User) → out ≡ ok u → IsInvitable common.config email common.groups u)
      → (built with_planka luck out w).1 ≡ created [] mail_failed
      → IsOnboarded email w (built with_planka luck out w).0
  unfolding built
  built-IsOnboarded email luck (err e) w mail_failed proper fine h = cc
  built-IsOnboarded email luck (ok u) w mail_failed proper fine h =
      hashed-IsOnboarded email u luck luck.hash w mail_failed proper (fine u refl) h

  -- An entry of an invitation that is reported as created, with no warning of Planka, which is the
  -- only app, has made a user that the form can make, which is in the users file with every other
  -- entry as before; and in Planka nothing has changed if the groups give no role, or else the
  -- lowercased address had no account when the row was inserted and has one with the role that the
  -- groups give now, and every other email has the account that it had.
  pub invite_one-IsOnboarded :
      (entry : InviteEntry) (luck : Luck) (w : World Database) (mail_failed : Bool)
      → IsProper common.file
      → (invite_one with_planka entry luck w).1 ≡ created [] mail_failed
      → IsOnboarded entry.email w (invite_one with_planka entry luck w).0
  unfolding invite_one
  invite_one-IsOnboarded entry luck w mail_failed proper h =
      built-IsOnboarded entry.email luck
        (build_invite_user common.config entry.email entry.display_name common.groups) w mail_failed
        proper
        (λ u.
          build_invite_user-IsInvitable common.config entry.email entry.display_name common.groups
            {u = u})
        h
