-- ===== src/Audit.antt =====
-- internal/audit/audit.go: what `Event` logs, and the notification that it sends to ntfy.
use vps_user_portal.Email.{em_dash}
use vps_user_portal.Base.{Option, List, if◌then◌else◌, some, [], ◌∷◌, is_empty, none, ◌++◌}
use vps_user_portal.Text.{Text, lit}

-- What `Event` is given.
pub record Call : Type 0 where
  pub actor : Text
  pub action : Text
  pub target : Text
  pub detail : Text
  pub error : Option Text

-- The attributes of the line in the log
pub record Line : Type 0 where
  pub actor : Text
  pub action : Text
  pub target : Text
  pub detail : Text
  pub outcome : Text

-- The POST to ntfy: its headers in the order in which they are set
pub record Notice : Type 0 where
  pub url : Text
  pub headers : List (Text × Text)
  pub body : Text

unfoldable pub outcome : Option Text → Text
outcome none = lit "ok"
outcome (some e) = lit "error: " ++ e

unfoldable pub line_of : Call → Line
unfolding outcome
line_of c = record {
  actor = c.actor;
  action = c.action;
  target = c.target;
  detail = c.detail;
  outcome = outcome c.error;
}

urgent : Option Text → List (Text × Text)
urgent none = []
urgent (some e) = (lit "Priority", lit "high") ∷ (lit "Tags", lit "warning") ∷ []

-- `notify`, but for the sending
unfoldable pub notify : Text → Text → Text → Option Text → Notice
unfolding urgent
notify ntfy_url title body error = record {
  url = ntfy_url;
  headers = (lit "Title", title) ∷ urgent error;
  body = body;
}

-- `Event`: the line, and the notification, if the logger has a URL
unfoldable pub event : Text → Call → Line × Option Notice
unfolding line_of notify
event ntfy_url c = (
  line_of c,
  if is_empty ntfy_url
      then none
      else some (
          notify ntfy_url (lit "user-portal: " ++ c.action ++ lit " " ++ c.target)
            (lit "by "
              ++ c.actor
              ++ lit " "
              ++ em_dash
              ++ lit " "
              ++ c.detail
              ++ lit " ("
              ++ outcome c.error
              ++ lit ")")
            c.error),
)
