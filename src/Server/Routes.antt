-- ===== src/Server/Routes.antt =====
-- `Handler`, `securityHeaders`, `requireAdmin` and `checkCSRF` of internal/server/server.go put
-- together: what the portal does with a request.
pub mod Guarded
pub mod Responses
use vps_user_portal.Server.Wording.{removal_warning, access_warning}
use vps_user_portal.Email.{Sender, Envelope, em_dash}
use vps_user_portal.Server.Mux.{
  Form, Request, form_of, security_headers, Route, route, user, health, to_set_groups, css,
  to_delete, unrouted, list, invite_form, invite, wrong_method,
}
use vps_user_portal.Userstore.Mutate.{Circumstances}
use vps_user_portal.Provision.{Provisioner}
use vps_user_portal.Server.Handlers.{
  World, Post, Page, went_wrong, removed, handle_set_groups, handle_delete, updated, bad_token,
  unconfirmed, no_user,
}
use vps_user_portal.Server.Health.{Health, handle_healthz, healthy, unhealthy}
use vps_user_portal.Server.Tokens.{csrf_valid}
use vps_user_portal.Server.Pages.{
  render, redirect, View, http_error, Response, not_found_page, reshow_view, handle_list, plain,
  result_view, handle_invite_form, handle_css, problem_view, handle_user, message_view, method_page,
}
use vps_user_portal.Userstore.Hash.{HashError, throwaway_hash, Argon2}
use vps_user_portal.Yaml.{Yaml}
use vps_user_portal.Server.Requests.{
  Headers, Identity, Refusal, selected_groups, forbidden, not_behind_guard, require_admin,
}
use vps_user_portal.Text.Case.{Unicode}
use vps_user_portal.Server.Handlers.Batch.{
  no_groups, no_entries, Status, Row, created, Batch, Luck, Answer, results, handle_invite,
}
use vps_user_portal.Text.Maps.{Dict}
use vps_user_portal.Base.{
  ℕ, [], Outcome, List, Bool, if◌then◌else◌, ◌*◌, ◌||◌, ◌∷◌, leb, Option, ◌&&◌, length, ok, true,
  ◌+◌, err, not, some, false, is_empty, none, ◌++◌, map,
}
use vps_user_portal.Config.{Config, group_options}
use vps_user_portal.Text.{Text, same, lit}

-- `Server`, with what the pages need of the libraries: HMAC, Argon2 and `Request.ParseForm`.
pub record Server (S E : Type 0) : Type 0 where
  pub config : Config
  pub yaml : Yaml
  pub file : Text
  pub provs : List (Provisioner S E)
  pub mail : Sender
  pub check_error : Option (Text × E)
  pub hmac : Text → Text → List ℕ
  pub argon2 : Argon2
  pub parse_form : Text → Form

-- What happens around a request: the time when the token is checked and when the page is made, whether
-- the users file can be read, what other processes do around the write of the file, and for each entry
-- of a batch the random bytes, the write and whether the mail server takes a mail.
pub record Surroundings : Type 0 where
  pub now : ℕ
  pub later : ℕ
  pub read_fails : Bool
  pub around : Circumstances
  pub entropy : ℕ → Option (List ℕ) × Option (List ℕ)
  pub around_entry : ℕ → Circumstances
  pub takes_mail : ℕ → Envelope → Bool

abbrev pub bad_token_text : Text
bad_token_text =
    lit "invalid or expired form token " ++ em_dash ++ lit " go back, reload the page and retry"

unfoldable pub hash_of : Outcome HashError Text → Option Text
hash_of (ok h) = some h
hash_of (err e) = none

unfoldable pub is_created : {E : Type 0} → Status E → Bool
is_created (created warnings mail_failed) = true
is_created status = false

unfoldable pub count_created : {E : Type 0} → List (Row E) → ℕ
unfolding is_created
count_created [] = 0
count_created (row ∷ rows) =
    let rest = count_created rows in if is_created row.status then rest + 1 else rest

module _ ⦃unicode : Unicode⦄ {S E : Type 0} (srv : Server S E) (around : Surroundings)
    (request : Request) where
  unfoldable pub form : Form
  unfolding form_of
  form = form_of srv.parse_form request.body

  -- A page for an administrator
  unfoldable pub page : Identity → View E → Response E
  unfolding render
  page id view = render srv.hmac srv.config id.user around.later view security_headers

  -- `checkCSRF`
  unfoldable pub check_csrf : Identity → Bool
  unfolding csrf_valid form
  check_csrf id = csrf_valid srv.hmac srv.config.csrf_secret id.user form.csrf around.now

  unfoldable pub post_of : Identity → Post
  unfolding check_csrf
  post_of id = record {
    token_valid = check_csrf id;
    actor = id.user;
    confirmed = same form.confirm (lit "on");
    groups = form.groups;
    read_fails = around.read_fails;
    around = around.around;
  }

  unfoldable pub batch_of : Identity → Batch S E
  batch_of id = record {
    yaml = srv.yaml;
    file = srv.file;
    config = srv.config;
    provs = srv.provs;
    actor = id.user;
    groups = form.groups;
    send_email = same form.send_email (lit "on");
    sender = srv.mail;
  }

  unfoldable pub luck_of : ℕ → Luck
  unfolding hash_of throwaway_hash
  luck_of i = record {
    hash = hash_of (throwaway_hash srv.argon2 (around.entropy i).0 (around.entropy i).1);
    around = around.around_entry i;
    takes_mail = around.takes_mail i;
  }

  -- What the client gets of `handleDelete` and `handleSetGroups`
  unfoldable pub answer_page : Identity → Text → Page E → Response E
  unfolding page redirect http_error not_found_page
  answer_page id username bad_token = http_error bad_token_text 403 security_headers
  answer_page id username unconfirmed =
      http_error (lit "confirmation checkbox required") 400 security_headers
  answer_page id username no_user = not_found_page security_headers
  answer_page id username (went_wrong e) = page id (problem_view e)
  answer_page id username (removed email warnings) = page id (
      message_view (lit "User removed")
        (email
          ++ lit
              " can no longer sign in. Existing sessions expire within the hour; restart Authelia to revoke immediately.")
        (map removal_warning warnings))
  answer_page id username (updated []) = redirect (lit "/users/" ++ username) security_headers
  answer_page id username (updated (warning ∷ warnings)) = page id (
      message_view (lit "Access updated") (lit "Access for " ++ username ++ lit " was saved.")
        (map access_warning (warning ∷ warnings)))

  unfoldable pub reshow : Identity → Text → Response E
  unfolding page group_options selected_groups
  reshow id problem = page id (
      reshow_view problem (group_options srv.config) srv.config.allowed_email_domains form.users
        (selected_groups srv.config form.groups) (same form.send_email (lit "on")))

  -- What the client gets of `handleInvite`
  unfoldable pub answer_invite : Identity → Answer E → Response E
  unfolding reshow count_created
  answer_invite id vps_user_portal.Server.Handlers.Batch.bad_token =
      http_error bad_token_text 403 security_headers
  answer_invite id no_groups = reshow id (lit "Select at least one access level to grant.")
  answer_invite id no_entries = reshow id (lit "Enter at least one email address (one per line).")
  answer_invite id (results rows) = page id (
      result_view rows (count_created rows) (length rows) (same form.send_email (lit "on"))
        srv.config.sso_url)

  unfoldable pub answer_user : Identity → Option (View E) → Response E
  answer_user id none = not_found_page security_headers
  answer_user id (some view) = page id view

  -- The handlers behind `requireAdmin`
  unfoldable pub handle : Identity → Route → World S → World S × Response E
  handle id list w =
      let (after, view) = handle_list srv.yaml srv.file srv.provs around.read_fails w in
      (after, page id view)
  handle id invite_form w = (w, page id (handle_invite_form srv.config))
  handle id invite w =
      let (after, answer) = handle_invite (batch_of id) (check_csrf id) form.users luck_of w in
      (after, answer_invite id answer)
  handle id (user name) w =
      let (after, view) =
        handle_user srv.yaml srv.file srv.config srv.provs around.read_fails name w in
      (after, answer_user id view)
  handle id (to_set_groups name) w =
      let (after, answer) =
        handle_set_groups srv.yaml srv.file srv.provs (post_of id) srv.config name w in
      (after, answer_page id name answer)
  handle id (to_delete name) w =
      let (after, answer) = handle_delete srv.yaml srv.file srv.provs (post_of id) name w in
      (after, answer_page id name answer)
  handle id other w = (w, not_found_page security_headers)

  unfoldable pub refusal : Refusal → Response E
  refusal forbidden = http_error (lit "forbidden") 403 security_headers
  refusal not_behind_guard =
      http_error (lit "forbidden: this service must sit behind the forward-auth admin guard") 403
        security_headers

  unfoldable pub guarded : Outcome Refusal Identity → Route → World S → World S × Response E
  unfolding refusal handle
  guarded (err e) r w = (w, refusal e)
  guarded (ok id) r w = handle id r w

  unfoldable pub health_page : Health → Response E
  health_page healthy = record {
    status = 200;
    headers = security_headers;
    body = plain (lit "ok" ++ b'\n' ∷ []);
  }
  health_page unhealthy = http_error (lit "unhealthy") 503 security_headers

  -- Two pages need no administrator.
  unfoldable pub dispatch : Route → World S → World S × Response E
  dispatch health w = (w, health_page (handle_healthz srv.check_error))
  dispatch css w = (w, handle_css security_headers)
  dispatch unrouted w = (w, not_found_page security_headers)
  dispatch (wrong_method allowed) w = (w, method_page allowed security_headers)
  dispatch r w = guarded (require_admin srv.config request.headers) r w

  unfoldable pub serve : World S → World S × Response E
  serve w = dispatch (route request.method request.path) w
