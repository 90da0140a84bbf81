-- ===== src/Server/Handlers/Laws.antt =====
-- The order of the writes of `handleDelete` and `handleSetGroups` in internal/server/server.go.
use vps_user_portal.Userstore.Store.Granted.{IsGranted, set_groups-IsGranted}
use vps_user_portal.Server.Events.{Cause, deletion_failed, access_failed, removal, access}
use vps_user_portal.Userstore.Store.{delete, get_user, set_groups}
use vps_user_portal.Userstore.Edits.Verified.{IsDeleted}
use vps_user_portal.Server.Requests.{selected_groups}
use vps_user_portal.Config.{Config}
use vps_user_portal.Userstore.Store.Sound.{IsStored, delete-IsStored}
use vps_user_portal.Userstore.Mutate.Publish.{IsProper}
use vps_user_portal.Base.{
  ◌≡◌, ◌⊎◌, List, ◌++◌, ◌∷◌, [], ok, true, err, false, inr, inl, refl, Bool, not, if◌then◌else◌,
  some, none,
}
use vps_user_portal.Text.{Text, lit}
use vps_user_portal.Server.Handlers.{
  World, Event, Post, deleted, regrouped, delete_found, handle_delete, handle_set_groups,
  record_event, Page, bad_token, unconfirmed,
}
use vps_user_portal.Yaml.{Yaml}
use vps_user_portal.Userstore.Disk.{Dir}
use vps_user_portal.Userstore.Types.{User, Result}
use vps_user_portal.Provision.{Provisioner}

-- A request changed nothing; or it is on record, with who made it and what it is: as failed, and no
-- app was called; or it is on record as done, and the users file was changed as asked.
abbrev pub IsOrdered : {S : Type 0} → Text → Text → (Dir → Type 0) → World S → World S → Type 0
IsOrdered actor action Done w after =
    (after ≡ w)
    ⊎ ((e : Event) × (after.audit ≡ w.audit ++ e ∷ [])
        × (e.actor ≡ actor)
        × (e.action ≡ action)
        × (after.mails ≡ w.mails)
        × (((c : Cause) × (e.cause ≡ some c) × (after.apps ≡ w.apps))
            ⊎ ((e.cause ≡ none) × Done after.dir)))

if-IsOrdered :
    {S E : Type 0} (actor action : Text) (Done : Dir → Type 0) (b : Bool) (p q : World S × Page E)
    (w : World S)
    → IsOrdered actor action Done w p.0
    → IsOrdered actor action Done w q.0
    → IsOrdered actor action Done w (if b then p else q).0
if-IsOrdered actor action Done true p q w h k = h
if-IsOrdered actor action Done false p q w h k = k

module _ {S E : Type 0} (y : Yaml) (file : Text) (proper : IsProper file)
    (provs : List (Provisioner S E)) (post : Post) where
  deleted-IsOrdered :
      (username : Text) (u : User) (Done : Dir → Type 0) (out : Dir × Result (Unit {0}))
      (w : World S)
      → (out.1 ≡ ok tt → Done out.0)
      → IsOrdered post.actor (lit "delete") Done w (deleted y file provs post username u out w).0
  unfolding deleted record_event deletion_failed removal
  deleted-IsOrdered username u Done (dir, err e) w done =
      inr (_, refl, refl, refl, refl, inl (_, refl, refl))
  deleted-IsOrdered username u Done (dir, ok t) w done =
      inr (_, refl, refl, refl, refl, inr (refl, done refl))

  regrouped-IsOrdered :
      (username : Text) (groups : List Text) (Done : Dir → Type 0) (out : Dir × Result (Unit {0}))
      (w : World S)
      → (out.1 ≡ ok tt → Done out.0)
      → IsOrdered post.actor
          (lit "set-access")
          Done
          w
          (regrouped y file provs post username groups out w).0
  unfolding regrouped record_event access_failed access
  regrouped-IsOrdered username groups Done (dir, err e) w done =
      inr (_, refl, refl, refl, refl, inl (_, refl, refl))
  regrouped-IsOrdered username groups Done (dir, ok t) w done =
      inr (_, refl, refl, refl, refl, inr (refl, done refl))

  delete_found-IsOrdered :
      (username : Text) (found : Result User) (w : World S)
      → IsOrdered post.actor
          (lit "delete")
          (IsStored y file (IsDeleted y username))
          w
          (delete_found y file provs post username found w).0
  unfolding delete_found
  delete_found-IsOrdered username (err e) w = inl refl
  delete_found-IsOrdered username (ok u) w =
      deleted-IsOrdered username u (IsStored y file (IsDeleted y username))
        (delete y file username post.around w.dir) w
        (delete-IsStored y file proper username post.around w.dir)

  -- `handleDelete` changes nothing, or puts one event in the audit log, with the acting administrator
  -- and the action: of a failure, and then no app was called, or of a success, and then the users file
  -- no longer has the user, and the entry of every other user marshals to what it did.
  pub handle_delete-IsOrdered :
      (username : Text) (w : World S)
      → IsOrdered post.actor
          (lit "delete")
          (IsStored y file (IsDeleted y username))
          w
          (handle_delete y file provs post username w).0
  unfolding handle_delete
  handle_delete-IsOrdered username w =
      if-IsOrdered post.actor (lit "delete") (IsStored y file (IsDeleted y username))
        (not post.token_valid) (w, bad_token) _ w (inl refl)
        (if-IsOrdered post.actor (lit "delete") (IsStored y file (IsDeleted y username))
          (not post.confirmed) (w, unconfirmed) _ w (inl refl)
          (delete_found-IsOrdered username (get_user y file post.read_fails w.dir username) w))

  -- `handleSetGroups` changes nothing, or puts one event in the audit log, with the acting
  -- administrator and the action: of a failure, and then no app was called, or of a success, and
  -- then the user stood in the users file and stands in it, the file is the tree of the old one with
  -- the configured ones of the posted groups as the field `groups` of the user's entry, read back it
  -- has exactly these, and the entry of every other user marshals to what it did.
  pub handle_set_groups-IsOrdered :
      (cfg : Config) (username : Text) (w : World S)
      → IsOrdered post.actor
          (lit "set-access")
          (IsGranted y file username (selected_groups cfg post.groups))
          w
          (handle_set_groups y file provs post cfg username w).0
  unfolding handle_set_groups
  handle_set_groups-IsOrdered cfg username w =
      let groups = selected_groups cfg post.groups in
      if-IsOrdered post.actor (lit "set-access") (IsGranted y file username groups)
        (not post.token_valid) (w, bad_token) _ w (inl refl)
        (regrouped-IsOrdered username groups (IsGranted y file username groups)
          (set_groups y file username groups post.around w.dir) w
          (set_groups-IsGranted y file username groups post.around w.dir proper))
