-- ===== src/Email.antt =====
-- internal/email/email.go: the welcome mail, and the three ways to send it.
pub mod Laws
use vps_user_portal.Text.Parts.{trim_space, join}
use vps_user_portal.Base.{
  List, Outcome, Option, ◌∷◌, if◌then◌else◌, ◌++◌, ok, [], is_empty, none, some,
}
use vps_user_portal.Text.{Text, lit}

pub record Smtp : Type 0 where
  pub host : Text
  pub port : Text
  pub username : Text
  pub password : Text
  pub from : Text
  pub subject_prefix : Text

pub data Sender : Type 0 where
  smtp : Smtp → Sender
  log off : Sender

-- What `smtp.PlainAuth` is given.
pub record Login : Type 0 where
  pub username : Text
  pub password : Text
  pub host : Text

-- What `smtp.SendMail` is given.
pub record Envelope : Type 0 where
  pub addr : Text
  pub auth : Option Login
  pub from : Text
  pub to : List Text
  pub msg : Text

abbrev pub line_end : Text
line_end = 13 ∷ 10 ∷ []

-- U+2014
abbrev pub em_dash : Text
em_dash = 0xE2 ∷ 0x80 ∷ 0x94 ∷ []

abbrev lines : List Text → Text
lines [] = []
lines (l ∷ ls) = l ++ 10 ∷ lines ls

unfoldable pub welcome_body : Text → Text → Text → Text
unfolding trim_space
welcome_body display_name email sso_url =
    let name = if is_empty (trim_space display_name) then email else trim_space display_name in
    lines (
      (lit "Hello " ++ name ++ lit ",")
      ∷ []
      ∷ (lit "An account has been created for you (" ++ email ++ lit ").")
      ∷ []
      ∷ lit "To get started, set your password:"
      ∷ []
      ∷ (lit "  1. Go to " ++ sso_url)
      ∷ lit "  2. Click \"Reset password?\""
      ∷ lit "  3. Enter your email address and follow the emailed instructions."
      ∷ []
      ∷ lit "Once your password is set, sign in at the same address."
      ∷ []
      ∷ (lit "If you weren't expecting this account, you can ignore this email "
          ++ em_dash
          ++ lit " the")
      ∷ lit "account cannot be used until you set a password."
      ∷ [])

-- The header lines of a mail to this address.
unfoldable pub headers : Smtp → Text → List Text
headers s to =
    (lit "From: " ++ s.from)
    ∷ (lit "To: " ++ to)
    ∷ (lit "Subject: " ++ s.subject_prefix ++ lit " Your account is ready")
    ∷ lit "MIME-Version: 1.0"
    ∷ lit "Content-Type: text/plain; charset=utf-8"
    ∷ []

unfoldable pub message : Smtp → Text → Text → Text → Text
unfolding headers welcome_body join
message s to display_name sso_url =
    join (headers s to ++ [] ∷ welcome_body display_name to sso_url ∷ []) line_end

unfoldable pub envelope : Smtp → Text → Text → Text → Envelope
unfolding message
envelope s to display_name sso_url = record {
  addr = s.host ++ b':' ∷ s.port;
  auth =
      if is_empty s.username
      then none
      else some (record { username = s.username; password = s.password; host = s.host });
  from = s.from;
  to = to ∷ [];
  msg = message s to display_name sso_url;
}

-- `SendWelcome`; `post` is `smtp.SendMail`. The log backend prints the mail and the third does
-- nothing.
unfoldable pub send_welcome :
    {E : Type 0}
    → (Envelope → Outcome E (Unit {0}))
    → Sender
    → Text
    → Text
    → Text
    → Outcome E (Unit {0})
unfolding envelope
send_welcome post (smtp s) to display_name sso_url = post (envelope s to display_name sso_url)
send_welcome post log to display_name sso_url = ok tt
send_welcome post off to display_name sso_url = ok tt

-- `Instructions`, for an administrator who forwards them
unfoldable pub instructions : Text → Text → Text
instructions email sso_url =
    lit "Account created for "
    ++ email
    ++ lit ". To activate: go to "
    ++ sso_url
    ++ lit
        ", click \"Reset password?\", enter this email address and follow the emailed instructions."
