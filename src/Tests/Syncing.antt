-- ===== src/Tests/Syncing.antt =====
-- A change of groups with Planka as the app, on the file and the table of the tests.
use vps_user_portal.Planka.Database.{Database}
use vps_user_portal.Config.{Config}
use vps_user_portal.Tests.Store.{dir_ab}
use vps_user_portal.Base.{inr, false, ◌∷◌, inl, [], ◌≡◌, ok, refl, true}
use vps_user_portal.Userstore.Types.{User}
use vps_user_portal.Tests.Toy.{
  toy_encode, toy, toy_parse, file_name, toy_user, toy_fields, calm, ascii, bob,
}
use vps_user_portal.Text.{same, lit}
use vps_user_portal.Userstore.Store.Got.{IsOnce, get_user-set_groups}
use vps_user_portal.Server.Handlers.Synced.{IsSynced, handle_set_groups-IsSynced}
use vps_user_portal.Server.Handlers.{handle_set_groups, updated, Post, World}
use vps_user_portal.Userstore.Store.{set_groups, get_user}
use vps_user_portal.Planka.Connected.{connected}
use vps_user_portal.Planka.Users.{sync, new_row}
use vps_user_portal.Tests.Offboarding.{with_planka, unasked, users_ab, lists_ab, bob_row}
use vps_user_portal.Tests.Faithful.{file_name-IsProper, toy-IsFaithful, toy-IsKeeping}
use vps_user_portal.Tests.Calls.{calm-LeavesAlone}
use vps_user_portal.Tests.Handling.{post}
use vps_user_portal.Tests.Apps.{alone, planka, carol_row}
use vps_user_portal.Tests.Forms.{cfg}

bob-IsOnce : IsOnce (lit "bob") users_ab
unfolding same
bob-IsOnce = inr (refl, inl (refl, tt))

bob_regrouped : (set_groups toy file_name (lit "bob") bob.groups calm dir_ab).1 ≡ ok tt
unfolding set_groups toy_encode toy_parse toy_user toy_fields
bob_regrouped = refl

get_user-set_groups_example :
    (u : User) × (get_user toy file_name false dir_ab (lit "bob") ≡ ok u)
    × (get_user toy file_name false
          (set_groups toy file_name (lit "bob") bob.groups calm dir_ab).0
          (lit "bob")
        ≡ ok (record u { groups = bob.groups }))
get_user-set_groups_example =
    get_user-set_groups toy file_name file_name-IsProper toy-IsFaithful toy-IsKeeping (lit "bob")
      bob.groups calm dir_ab users_ab calm-LeavesAlone lists_ab bob-IsOnce bob_regrouped

abbrev open_cfg : Config
open_cfg = record cfg { groups = lit "staff" ∷ lit "ops" ∷ [] }

-- A group that is not configured is posted too.
abbrev access_post : Post
access_post = record post { groups = lit "staff" ∷ lit "root" ∷ lit "ops" ∷ [] }

-- The account of bob is deactivated.
abbrev before : World Database
before = record with_planka {
  apps = record { rows = carol_row ∷ record bob_row { is_deactivated = true } ∷ []; count = 0 };
}

bob_saved :
    (handle_set_groups toy file_name
      (connected unasked alone planka ∷ [])
      access_post
      open_cfg
      (lit "bob")
      before).1
    ≡ updated []
unfolding handle_set_groups toy_encode toy_parse toy_user toy_fields connected sync new_row
bob_saved = refl

handle_set_groups-IsSynced_example :
    IsSynced toy file_name file_name-IsProper toy-IsFaithful toy-IsKeeping unasked alone planka
      access_post open_cfg
      (lit "bob")
      before
      (handle_set_groups toy file_name
        (connected unasked alone planka ∷ [])
        access_post
        open_cfg
        (lit "bob")
        before).0
handle_set_groups-IsSynced_example =
    handle_set_groups-IsSynced toy file_name file_name-IsProper toy-IsFaithful toy-IsKeeping unasked
      alone planka access_post open_cfg (lit "bob") before users_ab calm-LeavesAlone refl lists_ab
      bob-IsOnce bob_saved
