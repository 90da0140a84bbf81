-- ===== src/Server/Mux.antt =====
-- The requests of internal/server/server.go, and the patterns of `Handler`: which handler takes a
-- request. A form that was posted: the first value of each field, and every value of `groups`.
use vps_user_portal.Server.Requests.{Headers}
use vps_user_portal.Text.Maps.{Dict}
use vps_user_portal.Base.{
  ℕ, [], List, Bool, ◌*◌, if◌then◌else◌, ◌||◌, ◌∷◌, leb, ◌&&◌, length, not, is_empty,
}
use vps_user_portal.Text.{Text, same, lit}

pub record Form : Type 0 where
  pub csrf : Text
  pub confirm : Text
  pub send_email : Text
  pub users : Text
  pub groups : List Text

-- A request: the path is the unescaped segments behind the first slash, none for `/`.
pub record Request : Type 0 where
  pub method : Text
  pub path : List Text
  pub headers : Headers
  pub body : Text

pub data Route : Type 0 where
  health css list invite_form invite unrouted : Route
  user to_set_groups to_delete : Text → Route
  -- another method has a pattern for the path; with the methods that have one
  wrong_method : Text → Route

-- A pattern for GET matches HEAD too.
abbrev reads : Text → Bool
reads method = same method (lit "GET") || same method (lit "HEAD")

abbrev posts : Text → Bool
posts method = same method (lit "POST")

abbrev read_methods : Text
read_methods = lit "GET, HEAD"

-- The patterns of the mux, which answers itself where none matches.
unfoldable pub route : Text → List Text → Route
unfolding same
route method [] = if reads method then list else wrong_method read_methods
route method (a ∷ []) =
    if same a (lit "healthz")
    then if reads method then health else wrong_method read_methods
    else if same a (lit "invite")
    then if reads method
      then invite_form
      else if posts method
      then invite
      else wrong_method (lit "GET, HEAD, POST")
    else unrouted
route method (a ∷ b ∷ []) =
    if same a (lit "static") && same b (lit "style.css")
    then if reads method then css else wrong_method read_methods
    else if same a (lit "users") && not (is_empty b)
    then if reads method then user b else wrong_method read_methods
    else unrouted
route method (a ∷ b ∷ c ∷ []) =
    if same a (lit "users") && not (is_empty b)
    then if same c (lit "groups")
      then if posts method then to_set_groups b else wrong_method (lit "POST")
      else if same c (lit "delete")
      then if posts method then to_delete b else wrong_method (lit "POST")
      else unrouted
    else unrouted
route method (a ∷ b ∷ c ∷ d ∷ rest) = unrouted

abbrev pub max_body_bytes : ℕ
max_body_bytes = 64 * 1024

abbrev pub no_form : Form
no_form = record { csrf = []; confirm = []; send_email = []; users = []; groups = [] }

-- `http.MaxBytesReader`: no form is read of a body that is too large.
unfoldable pub form_of : (Text → Form) → Text → Form
form_of parse body = if leb (length body) max_body_bytes then parse body else no_form

-- What `securityHeaders` sets
abbrev pub security_headers : Dict Text
security_headers =
    (
      lit "Content-Security-Policy",
      lit
          "default-src 'none'; style-src 'self'; img-src data:; base-uri 'none'; form-action 'self'; frame-ancestors 'none'",
    )
    ∷ (lit "X-Content-Type-Options", lit "nosniff")
    ∷ (lit "Referrer-Policy", lit "no-referrer")
    ∷ (lit "Cache-Control", lit "private, no-cache")
    ∷ []
