-- ===== src/Server/Events.antt =====
-- The events of internal/server/server.go for the audit log: the actions, targets and details that the
-- handlers hand to `Event` of internal/audit/audit.go, with the error that it is told.
use vps_user_portal.Userstore.Types.{Error, User}
use vps_user_portal.Text.Parts.{join}
use vps_user_portal.Text.Decimal.{print}
use vps_user_portal.Text.{Text, lit}
use vps_user_portal.Base.{Bool, List, Option, ℕ, if◌then◌else◌, ◌++◌, none, some, []}
use vps_user_portal.Audit.{Call}

-- Why a change failed.
pub data Cause : Type 0 where
  no_entropy : Cause
  not_stored : Error → Cause

pub record Event : Type 0 where
  pub actor : Text
  pub action : Text
  pub target : Text
  pub detail : Text
  pub cause : Option Cause

-- `%t`
abbrev print_bool : Bool → Text
print_bool b = if b then lit "true" else lit "false"

abbrev joined : List Text → Text
joined groups = join groups (lit " ")

unfoldable pub deletion_failed : Text → User → Error → Event
deletion_failed actor u e = record {
  actor = actor;
  action = lit "delete";
  target = u.email;
  detail = [];
  cause = some (not_stored e);
}

unfoldable pub removal : Text → Text → User → ℕ → Event
unfolding print
removal actor username u warnings = record {
  actor = actor;
  action = lit "delete";
  target = u.email;
  detail = lit "username=" ++ username ++ lit " warnings=" ++ print warnings;
  cause = none;
}

unfoldable pub access_failed : Text → Text → List Text → Error → Event
unfolding join
access_failed actor username groups e = record {
  actor = actor;
  action = lit "set-access";
  target = username;
  detail = lit "groups=" ++ joined groups;
  cause = some (not_stored e);
}

unfoldable pub access : Text → Text → List Text → ℕ → Event
unfolding join print
access actor username groups warnings = record {
  actor = actor;
  action = lit "set-access";
  target = username;
  detail = lit "groups=" ++ joined groups ++ lit " warnings=" ++ print warnings;
  cause = none;
}

unfoldable pub invitation_failed : Text → User → Cause → Event
invitation_failed actor u cause = record {
  actor = actor;
  action = lit "invite";
  target = u.email;
  detail = [];
  cause = some cause;
}

unfoldable pub invitation : Text → User → List Text → Bool → ℕ → Event
unfolding join print
invitation actor u groups send_email warnings = record {
  actor = actor;
  action = lit "invite";
  target = u.email;
  detail =
      lit "username="
      ++ u.username
      ++ lit " groups="
      ++ joined groups
      ++ lit " email="
      ++ print_bool send_email
      ++ lit " warnings="
      ++ print warnings;
  cause = none;
}

abbrev worded : (Cause → Text) → Option Cause → Option Text
worded say none = none
worded say (some c) = some (say c)

-- What the audit log is called with; `say` words an error.
unfoldable pub call_of : (Cause → Text) → Event → Call
call_of say e = record {
  actor = e.actor;
  action = e.action;
  target = e.target;
  detail = e.detail;
  error = worded say e.cause;
}
