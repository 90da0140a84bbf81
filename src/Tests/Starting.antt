-- ===== src/Tests/Starting.antt =====
-- A start of main.go with one app, and the probe.
use vps_user_portal.Text.Parts.{has_prefix}
use vps_user_portal.Server.Health.{run_checks}
use vps_user_portal.Userstore.Store.{list_users}
use vps_user_portal.Text.Maps.{get}
use vps_user_portal.Tests.Tokens.{length_mac, toy_argon2}
use vps_user_portal.Config.{load_config, read_config, parse_labels}
use vps_user_portal.Tests.Handling.{app}
use vps_user_portal.Email.{off}
use vps_user_portal.Tests.Forms.{cfg, getenv}
use vps_user_portal.Provision.{Provisioner, load, load_entries}
use vps_user_portal.Tests.Serving.{srv, parse_form}
use vps_user_portal.Tests.Toy.{dir_a, file_name, toy, toy_parse, toy_user, ascii, toy_fields}
use vps_user_portal.Main.Ready.{start_portal-IsServing, IsServing}
use vps_user_portal.Base.{if◌then◌else◌, Option, ℕ, [], Outcome, ◌≡◌, some, refl, ok, ◌∷◌, none}
use vps_user_portal.Main.{
  Outside, Portal, start_portal, probe_address, prepare, check_prepared, checked_start, new_portal,
  mail_of,
}
use vps_user_portal.Text.{Text, same, lit}

-- The environment of the forms, with a file of provisioners.
abbrev getenv_apps : Text → Text
getenv_apps key = if same key (lit "PROVISIONERS_FILE") then lit "apps.yml" else getenv key

abbrev factories : Text → Option (Text → ℕ → Outcome Text (Provisioner ℕ Text))
factories kind = if same kind (lit "count") then some (λ name n. ok app) else none

abbrev outside : Outside ℕ Text Text ℕ
outside = record {
  getenv = getenv_apps;
  locate = λ path. (dir_a, file_name);
  yaml = toy;
  read = λ path. ok (lit "count");
  expand = λ s. s;
  entries = λ s. ok ((some (record { kind = s; name = [] }), 0) ∷ []);
  factories = factories;
  hmac = length_mac;
  argon2 = toy_argon2;
  parse_form = parse_form;
}

abbrev started : Portal ℕ Text
started = record {
  server = record srv { config = record cfg { provisioners_file = lit "apps.yml" }; mail = off };
  ntfy_url = [];
}

starts : (start_portal outside 0).1 ≡ ok started
unfolding start_portal prepare check_prepared checked_start new_portal mail_of load_config
    read_config get same parse_labels list_users toy_parse toy_user toy_fields load load_entries
    run_checks
starts = refl

start_portal-IsServing_example : IsServing outside 0 started
start_portal-IsServing_example = start_portal-IsServing outside 0 starts

-- Without an address of its own the portal listens on port 8080.
probe_asks : probe_address (λ key. []) ≡ lit "http://127.0.0.1:8080/healthz"
unfolding probe_address has_prefix
probe_asks = refl

-- With a blank before it, the address that the portal listens on is not the one that the probe asks.
blank_listens : (read_config (λ key. lit " :8080")).listen_addr ≡ lit ":8080"
unfolding read_config
blank_listens = refl

blank_probes : probe_address (λ key. lit " :8080") ≡ lit "http:// :8080/healthz"
unfolding probe_address has_prefix
blank_probes = refl
