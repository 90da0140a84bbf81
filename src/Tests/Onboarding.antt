-- ===== src/Tests/Onboarding.antt =====
-- An invitation with Planka as the app, on the file with one user and a table with another account.
use vps_user_portal.Email.{off}
use vps_user_portal.Tests.Forms.{cfg}
use vps_user_portal.Tests.Faithful.{file_name-IsProper}
use vps_user_portal.Base.{false, ◌∷◌, [], ◌≡◌, refl}
use vps_user_portal.Text.{lit}
use vps_user_portal.Tests.Toy.{
  toy_encode, dir_a, toy, toy_parse, file_name, toy_user, toy_fields, ascii,
}
use vps_user_portal.Planka.Database.{Database}
use vps_user_portal.Server.Handlers.Batch.Onboarded.{IsOnboarded, invite_one-IsOnboarded}
use vps_user_portal.Server.Handlers.Batch.{Batch, invite_one, created, Status}
use vps_user_portal.Server.Handlers.{World}
use vps_user_portal.Planka.Connected.{connected, PlankaError}
use vps_user_portal.Planka.Users.{provision, new_row}
use vps_user_portal.Tests.Offboarding.{unasked}
use vps_user_portal.Tests.Apps.{alone, planka, carol_row}
use vps_user_portal.Tests.Handling.{lucky, bob_entry}

abbrev one_user : World Database
one_user = record {
  dir = dir_a;
  apps = record { rows = carol_row ∷ []; count = 0 };
  audit = [];
  mails = [];
}

abbrev common : Batch Database PlankaError
common = record {
  yaml = toy;
  file = file_name;
  config = cfg;
  provs = [];
  actor = lit "root";
  groups = lit "ops" ∷ lit "staff" ∷ [];
  send_email = false;
  sender = off;
}

abbrev invited : World Database × Status PlankaError
invited =
    invite_one (record common { provs = connected unasked alone planka ∷ [] }) bob_entry lucky
      one_user

bob_invited : invited.1 ≡ created [] false
unfolding invite_one toy_encode toy_parse toy_user toy_fields connected provision new_row
bob_invited = refl

invite_one-IsOnboarded_example :
    IsOnboarded unasked alone planka common (lit "bob@x.org") one_user invited.0
invite_one-IsOnboarded_example =
    invite_one-IsOnboarded unasked alone planka common bob_entry lucky one_user false
      file_name-IsProper bob_invited
