-- ===== src/Tests/Handling.antt =====
-- The handlers of internal/server on the two files of the tests, with an app that counts its calls.
use vps_user_portal.Userstore.Store.Granted.{IsGranted}
use vps_user_portal.Tests.Tokens.{relay}
use vps_user_portal.Email.{smtp, envelope}
use vps_user_portal.Server.Health.{
  handle_healthz, run_checks, healthy, IsPassing, handle_healthz_iff,
}
use vps_user_portal.Server.Requests.{selected_groups}
use vps_user_portal.Tests.Forms.{cfg}
use vps_user_portal.Userstore.Edits.Verified.{IsDeleted}
use vps_user_portal.Tests.Store.{dir_ab}
use vps_user_portal.Tests.Faithful.{file_name-IsProper}
use vps_user_portal.Userstore.Store.Sound.{IsStored}
use vps_user_portal.Tests.Toy.{
  toy_encode, dir_a, toy_parse, toy, calm, toy_user, file_name, ascii, toy_fields,
}
use vps_user_portal.Text.{Text, lit}
use vps_user_portal.Server.Handlers.Batch.Laws.{
  IsHandled, invite_one-IsHandled, invite_all_lem, recipients, is_smtp, reached_emails,
}
use vps_user_portal.Server.Invites.{InviteEntry}
use vps_user_portal.Server.Handlers.Batch.{Batch, Luck, invite_one, invite_all, created}
use vps_user_portal.Server.Handlers.Laws.{
  IsOrdered, handle_delete-IsOrdered, handle_set_groups-IsOrdered,
}
use vps_user_portal.Server.Handlers.{Post, handle_delete, World, handle_set_groups}
use vps_user_portal.Userstore.Disk.{Dir}
use vps_user_portal.Base.{
  ℕ, List, length, Outcome, true, some, ◌∷◌, ◌+◌, [], ◌≡◌, ok, false, if◌then◌else◌, ◌++◌, refl,
  ◌↔◌, ◌&&◌,
}
use vps_user_portal.Provision.{Provisioner}

abbrev counting : ℕ → ℕ × Outcome Text (Unit {0})
counting n = (n + 1, ok tt)

abbrev pub app : Provisioner ℕ Text
app = record {
  name = lit "app";
  info = record { name = lit "app"; display_name = lit "App"; url = [] };
  check = counting;
  provision = λ u. counting;
  sync = λ u. counting;
  deprovision = λ u. counting;
  status = λ es n. (n, ok []);
}

abbrev pub world : Dir → World ℕ
world dir = record { dir = dir; apps = 0; audit = []; mails = [] }

abbrev pub post : Post
post = record {
  token_valid = true;
  actor = lit "root";
  confirmed = true;
  groups = lit "staff" ∷ [];
  read_fails = false;
  around = calm;
}

delete_calls : (handle_delete toy file_name (app ∷ []) post (lit "bob") (world dir_ab)).0.apps ≡ 1
unfolding handle_delete toy_encode toy_parse toy_user toy_fields
delete_calls = refl

handle_delete-IsOrdered_example :
    IsOrdered post.actor
      (lit "delete")
      (IsStored toy file_name (IsDeleted toy (lit "bob")))
      (world dir_ab)
      (handle_delete toy file_name (app ∷ []) post (lit "bob") (world dir_ab)).0
handle_delete-IsOrdered_example =
    handle_delete-IsOrdered toy file_name file_name-IsProper (app ∷ []) post (lit "bob")
      (world dir_ab)

handle_set_groups-IsOrdered_example :
    IsOrdered post.actor
      (lit "set-access")
      (IsGranted toy file_name (lit "bob") (selected_groups cfg post.groups))
      (world dir_ab)
      (handle_set_groups toy file_name (app ∷ []) post cfg (lit "bob") (world dir_ab)).0
handle_set_groups-IsOrdered_example =
    handle_set_groups-IsOrdered toy file_name file_name-IsProper (app ∷ []) post cfg (lit "bob")
      (world dir_ab)

abbrev pub batch : Batch ℕ Text
batch = record {
  yaml = toy;
  file = file_name;
  config = cfg;
  provs = app ∷ [];
  actor = lit "root";
  groups = lit "ops" ∷ lit "staff" ∷ [];
  send_email = true;
  sender = smtp relay;
}

abbrev pub lucky : Luck
lucky = record { hash = some (lit "k"); around = calm; takes_mail = λ e. true }

abbrev pub bob_entry : InviteEntry
bob_entry = record { email = lit "bob@x.org"; display_name = lit "Bob" }

bob_created : (invite_one batch bob_entry lucky (world dir_a)).1 ≡ created [] false
unfolding invite_one toy_encode toy_parse toy_user toy_fields
bob_created = refl

invite_one-IsHandled_example :
    IsHandled batch bob_entry.email lucky
      (world dir_a)
      (invite_one batch bob_entry lucky (world dir_a)).0
      (invite_one batch bob_entry lucky (world dir_a)).1
invite_one-IsHandled_example =
    invite_one-IsHandled batch bob_entry lucky (world dir_a) file_name-IsProper

-- The second entry is skipped.
abbrev entries : List InviteEntry
entries = bob_entry ∷ bob_entry ∷ []

mailed_once :
    (invite_all batch (λ n. lucky) 0 entries (world dir_a)).0.mails
    ≡ envelope relay (lit "bob@x.org") (lit "Bob") cfg.sso_url ∷ []
unfolding invite_all toy_encode toy_parse toy_user toy_fields
mailed_once = refl

invite_all_lem_example :
    (length (invite_all batch (λ n. lucky) 0 entries (world dir_a)).1 ≡ length entries)
    × (recipients (invite_all batch (λ n. lucky) 0 entries (world dir_a)).0.mails ≡ (
        if batch.send_email && is_smtp batch.sender
        then recipients []
          ++ reached_emails (invite_all batch (λ n. lucky) 0 entries (world dir_a)).1
        else recipients []))
invite_all_lem_example =
    invite_all_lem batch (λ n. lucky) 0 entries (world dir_a) file_name-IsProper

calm_is_healthy :
    (handle_healthz (run_checks (app ∷ app ∷ []) 0).1 ≡ healthy) ↔ IsPassing (app ∷ app ∷ []) 0
calm_is_healthy = handle_healthz_iff (app ∷ app ∷ []) 0
