-- ===== src/Tests/Offboarding.antt =====
-- A removal and the list page with Planka as the app, on the file and the table of the tests.
use vps_user_portal.Text.Case.{to_lower}
use vps_user_portal.Planka.Roles.{info}
use vps_user_portal.Planka.Database.Laws.{IsUnique, account}
use vps_user_portal.Server.Pages.Listed.{with_status, shown_account, handle_list-shown, IsLowering}
use vps_user_portal.Planka.Users.Views.{IsLowered, found}
use vps_user_portal.Server.Pages.{handle_list, UserRow, list_view}
use vps_user_portal.Userstore.Store.{list_users}
use vps_user_portal.Userstore.Types.{User}
use vps_user_portal.Tests.Handling.{post}
use vps_user_portal.Tests.Faithful.{file_name-IsProper}
use vps_user_portal.Tests.Apps.{carol_row, alone, planka}
use vps_user_portal.Tests.Store.{dir_ab}
use vps_user_portal.Text.{lit, same}
use vps_user_portal.Tests.Toy.{
  toy_encode, toy, toy_parse, file_name, toy_user, ascii, toy_fields, alice, bob,
}
use vps_user_portal.Planka.Database.{Database, has_email, Row}
use vps_user_portal.Base.{none, ◌∷◌, [], ◌≡◌, refl, List, false, ok, true, All}
use vps_user_portal.Planka.Users.{new_row, deprovision, status}
use vps_user_portal.Server.Handlers.Offboarded.{IsOffboarded, handle_delete-IsOffboarded}
use vps_user_portal.Server.Handlers.{World, handle_delete, removed}
use vps_user_portal.Planka.Connected.{Catalog, connected}

abbrev pub bob_row : Row
bob_row = new_row (lit "bob@x.org") (lit "Bob") (lit "bob") (lit "boardUser") 7

abbrev pub unasked : Catalog
unasked = record { columns = λ n. none; grants = λ n. none }

abbrev pub with_planka : World Database
with_planka = record {
  dir = dir_ab;
  apps = record { rows = carol_row ∷ bob_row ∷ []; count = 0 };
  audit = [];
  mails = [];
}

bob_removed :
    (handle_delete toy file_name
      (connected unasked alone planka ∷ [])
      post
      (lit "bob")
      with_planka).1
    ≡ removed (lit "bob@x.org") []
unfolding handle_delete toy_encode toy_parse toy_user toy_fields connected deprovision new_row
bob_removed = refl

handle_delete-IsOffboarded_example :
    IsOffboarded toy file_name file_name-IsProper unasked alone planka post
      (lit "bob")
      (lit "bob@x.org")
      with_planka
      (handle_delete toy file_name
        (connected unasked alone planka ∷ [])
        post
        (lit "bob")
        with_planka).0
handle_delete-IsOffboarded_example =
    handle_delete-IsOffboarded toy file_name file_name-IsProper unasked alone planka post
      (lit "bob") (lit "bob@x.org") with_planka bob_removed

abbrev pub users_ab : List User
users_ab = alice ∷ record bob { email = lit "bob@x.org" } ∷ []

pub lists_ab : list_users toy file_name false dir_ab ≡ ok users_ab
unfolding list_users toy_parse toy_user
lists_ab = refl

abbrev rows_ab : List UserRow
rows_ab =
    record {
      user = alice;
      apps = (lit "planka", record { present = false; role = []; deactivated = false }) ∷ [];
    }
    ∷ record {
      user = record bob { email = lit "bob@x.org" };
      apps =
          (lit "planka", record { present = true; role = lit "boardUser"; deactivated = false })
          ∷ [];
    }
    ∷ []

page_ab :
    (handle_list toy file_name (connected unasked alone planka ∷ []) false with_planka).1
    ≡ list_view rows_ab (lit "planka" ∷ []) (info planka ∷ []) []
unfolding handle_list toy_parse toy_user connected status new_row
page_ab = refl

found-IsLowered : IsLowered alone (found alone planka with_planka.apps)
unfolding new_row to_lower
found-IsLowered = (refl, (refl, tt))

found-IsUnique : IsUnique (found alone planka with_planka.apps)
unfolding new_row has_email same
found-IsUnique = (refl, (refl, tt))

users_ab-IsLowering : All IsLowering users_ab
unfolding to_lower
users_ab-IsLowering = (refl, (refl, tt))

handle_list-shown_example :
    rows_ab
    ≡ with_status planka.name
        (λ u. shown_account (account (to_lower u.email) (found alone planka with_planka.apps)))
        users_ab
handle_list-shown_example =
    handle_list-shown toy file_name unasked alone planka false users_ab with_planka rows_ab
      (lit "planka" ∷ []) (info planka ∷ []) lists_ab page_ab found-IsLowered found-IsUnique
      users_ab-IsLowering
