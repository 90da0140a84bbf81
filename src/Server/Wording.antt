-- ===== src/Server/Wording.antt =====
-- What the pages of internal/server/server.go say of a failure.
use vps_user_portal.Userstore.Types.{Error}
use vps_user_portal.Server.Invites.{
  Problem, not_an_address, long_display_name, no_username, domain_not_allowed,
}
use vps_user_portal.Server.Handlers.Batch.{
  Status, not_accepted, no_hash, already_exists, not_written, created,
}
use vps_user_portal.Email.{em_dash}
use vps_user_portal.Text.Parts.{join}
use vps_user_portal.Text.{Text, lit}
use vps_user_portal.Base.{List, Bool, map, ◌++◌, ◌∷◌, [], if◌then◌else◌}

-- The texts of the errors of the user store, of the apps and of the mail server
pub record Words (E : Type 0) : Type 0 where
  pub store : Error → Text
  pub app : E → Text
  pub mail : Text

-- A text with the error of an app in it
pub record Warning (E : Type 0) : Type 0 where
  pub before : Text
  pub error : E
  pub behind : Text

unfoldable pub warning_text : {E : Type 0} → Words E → Warning E → Text
warning_text words w = w.before ++ words.app w.error ++ w.behind

module _ {E : Type 0} where
  unfoldable pub status_warning : Text × E → Warning E
  status_warning (name, e) = record {
    before = name ++ lit " status unavailable: ";
    error = e;
    behind = [];
  }

  unfoldable pub invitation_warning : Text × E → Warning E
  invitation_warning (name, e) = record {
    before = name ++ lit ": ";
    error = e;
    behind = lit " (will self-heal at first login)";
  }

  unfoldable pub access_warning : Text × E → Warning E
  access_warning (name, e) = record {
    before = name ++ lit ": couldn't apply the change immediately: ";
    error = e;
    behind = lit " (it will apply at the user's next login)";
  }

  unfoldable pub removal_warning : Text × E → Warning E
  removal_warning (name, e) = record {
    before = name ++ lit ": deactivation failed: ";
    error = e;
    behind = lit " " ++ em_dash ++ lit " deactivate manually in the app";
  }

-- The errors of `buildInviteUser`
unfoldable pub problem_text : Problem → Text
problem_text not_an_address = lit "not a valid email address"
problem_text (domain_not_allowed domain) =
    lit "domain @" ++ domain ++ lit " is not on the allowlist"
problem_text long_display_name = lit "display name is too long (max 100 characters)"
problem_text no_username = lit "could not derive a valid username from the email"

module _ {E : Type 0} (words : Words E) where
  mail_warning : Bool → List Text
  mail_warning failed = if failed then (lit "welcome email failed: " ++ words.mail) ∷ [] else []

  -- The detail of an `inviteResult`
  unfoldable pub detail_of : Status E → Text
  unfolding problem_text join warning_text invitation_warning mail_warning
  detail_of (not_accepted p) = problem_text p
  detail_of no_hash = lit "internal error creating the account"
  detail_of already_exists = lit "already exists"
  detail_of (not_written e) = lit "could not write the user store"
  detail_of (created warnings mail_failed) =
      join
        (map (λ w. warning_text words (invitation_warning w)) warnings ++ mail_warning mail_failed)
        (lit "; ")

-- The status of an `inviteResult`
unfoldable pub status_word : {E : Type 0} → Status E → Text
status_word (created warnings mail_failed) = lit "created"
status_word already_exists = lit "skipped"
status_word status = lit "failed"
