-- ===== src/Server/Handlers/Batch.antt =====
-- `handleInvite` of internal/server/server.go: one account for each line of the form.
pub mod Laws
pub mod Onboarded
use vps_user_portal.Server.Events.{invitation_failed, invitation, no_entropy, not_stored}
use vps_user_portal.Email.{Envelope, Sender, send_welcome, envelope, smtp, log, off}
use vps_user_portal.Userstore.Disk.{Dir}
use vps_user_portal.Userstore.Store.{add}
use vps_user_portal.Server.Requests.{selected_groups}
use vps_user_portal.Config.{Config}
use vps_user_portal.Userstore.Mutate.{Circumstances}
use vps_user_portal.Text.Case.{Unicode}
use vps_user_portal.Server.Handlers.{World, call_all, record_event, for_app}
use vps_user_portal.Yaml.{Yaml}
use vps_user_portal.Text.{Text, lit}
use vps_user_portal.Server.Invites.{Problem, build_invite_user, InviteEntry, parse_invite_lines}
use vps_user_portal.Base.{
  Option, List, ℕ, Bool, if◌then◌else◌, Outcome, ◌++◌, ◌&&◌, true, err, ◌∷◌, is_empty, [], not,
  some, ok, ◌+◌, none, length, false, ◌==◌,
}
use vps_user_portal.Userstore.Types.{User, Error, Result, is_duplicate}
use vps_user_portal.Provision.{Provisioner}

-- What happens around an entry: the password hash, if it can be made, what other processes do around
-- the write, and whether `smtp.SendMail` takes a mail.
pub record Luck : Type 0 where
  pub hash : Option Text
  pub around : Circumstances
  pub takes_mail : Envelope → Bool

pub data Status (E : Type 0) : Type 0 where
  not_accepted : Problem → Status E
  no_hash already_exists : Status E
  not_written : Error → Status E
  -- with the warnings of the apps, and whether the mail failed
  created : List (Text × E) → Bool → Status E

pub record Row (E : Type 0) : Type 0 where
  pub email : Text
  pub status : Status E

pub data Answer (E : Type 0) : Type 0 where
  bad_token no_groups no_entries : Answer E
  results : List (Row E) → Answer E

-- What is common to the entries of a batch.
pub record Batch (S E : Type 0) : Type 0 where
  pub yaml : Yaml
  pub file : Text
  pub config : Config
  pub provs : List (Provisioner S E)
  pub actor : Text
  pub groups : List Text
  pub send_email : Bool
  pub sender : Sender

abbrev is_failed : Outcome (Unit {0}) (Unit {0}) → Bool
is_failed (ok u) = false
is_failed (err e) = true

module _ {S E : Type 0} (b : Batch S E) where
  -- The mail of the SMTP backend, if the mail server takes it; the other backends send none.
  unfoldable pub posted : Sender → User → Luck → List Envelope
  unfolding envelope
  posted (smtp s) u luck =
      let mail = envelope s u.email u.display_name b.config.sso_url in
      if luck.takes_mail mail then mail ∷ [] else []
  posted log u luck = []
  posted off u luck = []

  unfoldable pub mailed : User → Luck → World S → World S
  unfolding posted
  mailed u luck w =
      if b.send_email then record w { mails = w.mails ++ posted b.sender u luck } else w

  -- `s.mail.SendWelcome`
  unfoldable pub welcomed : User → Luck → Outcome (Unit {0}) (Unit {0})
  unfolding send_welcome
  welcomed u luck =
      send_welcome (λ e. if luck.takes_mail e then ok tt else err tt) b.sender u.email
        u.display_name b.config.sso_url

  mail_failures : User → Luck → ℕ
  unfolding welcomed
  mail_failures u luck = if b.send_email && is_failed (welcomed u luck) then 1 else 0

  -- Behind `s.store.Add`
  unfoldable pub added : User → Luck → Dir × Result (Unit {0}) → World S → World S × Status E
  unfolding call_all record_event for_app invitation_failed invitation mailed mail_failures
  added u luck (dir, err e) w =
      if is_duplicate e then (record w { dir = dir }, already_exists) else (
        record_event (invitation_failed b.actor u (not_stored e)) (record w { dir = dir }),
        not_written e,
      )
  added u luck (dir, ok t) w =
      let (apps, warnings) = call_all (λ p. p.provision (for_app u)) b.provs w.apps in
      (
        record_event
            (invitation b.actor u b.groups b.send_email (length warnings + mail_failures u luck))
            (mailed u luck (record w { dir = dir; apps = apps })),
        created warnings (mail_failures u luck == 1),
      )

module _ ⦃unicode : Unicode⦄ {S E : Type 0} (b : Batch S E) where
  unfoldable pub hashed : User → Luck → Option Text → World S → World S × Status E
  unfolding added add record_event invitation_failed
  hashed u luck none w = (record_event (invitation_failed b.actor u no_entropy) w, no_hash)
  hashed u luck (some h) w = added b u luck (add b.yaml b.file u h luck.around w.dir) w

  unfoldable pub built : Luck → Outcome Problem User → World S → World S × Status E
  unfolding hashed
  built luck (err e) w = (w, not_accepted e)
  built luck (ok u) w = hashed u luck luck.hash w

  unfoldable pub invite_one : InviteEntry → Luck → World S → World S × Status E
  unfolding built build_invite_user
  invite_one entry luck w =
      built luck (build_invite_user b.config entry.email entry.display_name b.groups) w

  -- The loop; `luck` is by the number of the entry.
  unfoldable pub invite_all : (ℕ → Luck) → ℕ → List InviteEntry → World S → World S × List (Row E)
  unfolding invite_one
  invite_all luck i [] w = (w, [])
  invite_all luck i (entry ∷ entries) w =
      let (after, status) = invite_one entry (luck i) w in
      let (last, rows) = invite_all luck (i + 1) entries after in
      (last, record { email = entry.email; status = status } ∷ rows)

-- `handleInvite`; `raw` is the text of the form, and the groups of `b` are those posted.
module _ ⦃unicode : Unicode⦄ {S E : Type 0} where
  unfoldable pub invite_with :
      Batch S E → (ℕ → Luck) → List InviteEntry → World S → World S × Answer E
  unfolding invite_all
  invite_with b luck entries w =
      if is_empty b.groups
      then (w, no_groups)
      else if is_empty entries
      then (w, no_entries)
      else (let (after, rows) = invite_all b luck 0 entries w in (after, results rows))

  unfoldable pub handle_invite : Batch S E → Bool → Text → (ℕ → Luck) → World S → World S × Answer E
  unfolding invite_with parse_invite_lines selected_groups
  handle_invite b token_valid raw luck w =
      if not token_valid
      then (w, bad_token)
      else invite_with (record b { groups = selected_groups b.config b.groups }) luck
          (parse_invite_lines raw) w
