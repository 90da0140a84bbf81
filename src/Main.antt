-- ===== src/Main.antt =====
-- main.go: what must hold before the portal serves, and the probe of the container's health check.
pub mod Ready
pub mod Probed
use vps_user_portal.Text.Parts.{has_prefix}
use vps_user_portal.Base.{
  ◌>>=◌, false, ◌++◌, map, Option, Outcome, if◌then◌else◌, ◌⊎◌, List, ok, err, is_empty, ℕ, some,
  ◌==◌, none,
}
use vps_user_portal.Userstore.Hash.{Argon2}
use vps_user_portal.Provision.{LoadError, Entry, Provisioner, load, as_error}
use vps_user_portal.Userstore.Store.{list_users}
use vps_user_portal.Yaml.{Yaml}
use vps_user_portal.Server.Health.{run_checks}
use vps_user_portal.Email.{Sender, smtp, log, off}
use vps_user_portal.Userstore.Disk.{Dir}
use vps_user_portal.Userstore.Types.{Error}
use vps_user_portal.Text.Case.{Unicode}
use vps_user_portal.Server.Routes.{Server}
use vps_user_portal.Server.Mux.{Form}
use vps_user_portal.Text.{Text, same, lit}
use vps_user_portal.Config.{ConfigError, Config, load_config}

-- Why the program ends before it serves.
pub data Exit (F E : Type 0) : Type 0 where
  config_invalid : ConfigError → Exit F E
  users_unreadable : Error → Exit F E
  provisioners_invalid : F ⊎ LoadError E → Exit F E
  check_failed : Text × E → Exit F E

-- The libraries and the system: the environment, files, YAML with the entries of the provisioners'
-- file, the registered factories, HMAC, Argon2 and forms. `locate` gives the directory of a path
-- and the name of its file.
pub record Outside (S E F N : Type 0) : Type 0 where
  pub getenv : Text → Text
  pub locate : Text → Dir × Text
  pub yaml : Yaml
  pub read : Text → Outcome F Text
  pub expand : Text → Text
  pub entries : Text → Outcome F (List (Entry N))
  pub factories : Text → Option (Text → N → Outcome E (Provisioner S E))
  pub hmac : Text → Text → List ℕ
  pub argon2 : Argon2
  pub parse_form : Text → Form

-- The mail backend of the configuration
unfoldable pub mail_of : Config → Sender
unfolding same
mail_of cfg =
    if same cfg.email_backend (lit "smtp")
    then smtp (record {
      host = cfg.email_host;
      port = cfg.email_port;
      username = cfg.email_username;
      password = cfg.email_password;
      from = cfg.email_from;
      subject_prefix = cfg.email_subject_prefix;
    })
    else if same cfg.email_backend (lit "log")
    then log
    else off

-- What serves, and the audit log's URL for notifications
pub record Portal (S E : Type 0) : Type 0 where
  pub server : Server S E
  pub ntfy_url : Text

module _ ⦃unicode : Unicode⦄ {S E F N : Type 0} (out : Outside S E F N) where
  -- `server.New` and the fields of the logger
  unfoldable pub new_portal : Config → List (Provisioner S E) → Portal S E
  unfolding mail_of
  new_portal cfg provs = record {
    server = record {
      config = cfg;
      yaml = out.yaml;
      file = (out.locate cfg.users_file).1;
      provs = provs;
      mail = mail_of cfg;
      check_error = none;
      hmac = out.hmac;
      argon2 = out.argon2;
      parse_form = out.parse_form;
    };
    ntfy_url = cfg.ntfy_url;
  }

  unfoldable pub checked_start :
      Portal S E → S × Option (Text × E) → S × Outcome (Exit F E) (Portal S E)
  checked_start portal (s, none) = (s, ok portal)
  checked_start portal (s, some e) = (s, err (check_failed e))

  -- The configuration, the users file and the provisioners
  unfoldable pub prepare : Outcome (Exit F E) (Portal S E)
  unfolding load_config list_users load new_portal
  prepare = do
    cfg ← as_error config_invalid (load_config out.getenv)
    users ←
        as_error users_unreadable
          (list_users out.yaml (out.locate cfg.users_file).1 false (out.locate cfg.users_file).0)
    provs ←
        as_error provisioners_invalid
          (load out.factories out.read out.expand out.entries cfg.provisioners_file)
    ok (new_portal cfg (map (λ p. p.1) provs))

  unfoldable pub check_prepared :
      Outcome (Exit F E) (Portal S E) → S → S × Outcome (Exit F E) (Portal S E)
  unfolding checked_start run_checks
  check_prepared (err e) s = (s, err e)
  check_prepared (ok portal) s = checked_start portal (run_checks portal.server.provs s)

  -- `main` until it listens
  unfoldable pub start_portal : S → S × Outcome (Exit F E) (Portal S E)
  unfolding prepare check_prepared
  start_portal s = check_prepared prepare s

-- The address that `probe` asks.
unfoldable pub probe_address : (Text → Text) → Text
probe_address getenv =
    let addr =
      if is_empty (getenv (lit "LISTEN_ADDR")) then lit ":8080" else getenv (lit "LISTEN_ADDR") in
    let whole = if has_prefix addr (lit ":") then lit "127.0.0.1" ++ addr else addr in
    lit "http://" ++ whole ++ lit "/healthz"

unfoldable pub exit_code : {F : Type 0} → Outcome F ℕ → ℕ
exit_code (err e) = 1
exit_code (ok status) = if status == 200 then 0 else 1

-- `probe`: its exit code; `fetch` is `http.Client.Get`, with the status code of the response.
unfoldable pub probe : {F : Type 0} → (Text → Text) → (Text → Outcome F ℕ) → ℕ
unfolding probe_address exit_code
probe getenv fetch = exit_code (fetch (probe_address getenv))
