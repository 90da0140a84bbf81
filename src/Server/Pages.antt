-- ===== src/Server/Pages.antt =====
-- What the handlers of internal/server/server.go show, the three that only read, and `render` and
-- `handleCSS` of internal/server/templates.go. `Server.Templates` has the HTML of a view.
pub mod Listed
use vps_user_portal.Server.Wording.{Warning}
use vps_user_portal.Server.Handlers.Batch.{Row}
use vps_user_portal.Server.Handlers.{World}
use vps_user_portal.Userstore.Store.{list_users, get_user}
use vps_user_portal.Userstore.Types.{Error, Result, User}
use vps_user_portal.Config.{GroupOption, Config, group_options}
use vps_user_portal.Yaml.{Yaml}
use vps_user_portal.Server.Tokens.{csrf_token}
use vps_user_portal.Text.Case.{Unicode, to_lower}
use vps_user_portal.Text.Maps.{put, Dict, get}
use vps_user_portal.Base.{
  List, ℕ, Outcome, [], ◌∷◌, err, map, ok, ◌++◌, Bool, Option, none, false, some,
}
use vps_user_portal.Text.{Text, lit}
use vps_user_portal.Provision.{AppStatus, AppInfo, Provisioner}

-- `userRow`
pub record UserRow : Type 0 where
  pub user : User
  pub apps : Dict AppStatus

-- `appStatusRow`
pub record AppStatusRow : Type 0 where
  pub display_name : Text
  pub status : AppStatus

-- The page templates with their data, but for what every page gets. A group form comes with the
-- options and the groups that are ticked.
pub data View (E : Type 0) : Type 0 where
  list_view : List UserRow → List Text → List AppInfo → List (Text × E) → View E
  invite_view : List GroupOption → List Text → List Text → View E
  user_view : User → List GroupOption → List Text → List AppStatusRow → View E
  -- `message.html`: an error, or a title and a message with warnings
  problem_view : Error → View E
  message_view : Text → Text → List (Warning E) → View E
  -- the form again: what is wrong, the text typed, the groups ticked, and whether to send mails
  reshow_view : Text → List GroupOption → List Text → Text → List Text → Bool → View E
  -- the rows, how many were created and how many there are, whether mails were sent, and the URL
  result_view : List (Row E) → ℕ → ℕ → Bool → Text → View E

pub data Body (E : Type 0) : Type 0 where
  nothing style_sheet : Body E
  plain : Text → Body E
  -- with the acting administrator and the token of the page's form
  html : Text → Text → View E → Body E

pub record Response (E : Type 0) : Type 0 where
  pub status : ℕ
  pub headers : Dict Text
  pub body : Body E

-- `http.Error`
unfoldable pub http_error : {E : Type 0} → Text → ℕ → Dict Text → Response E
unfolding put
http_error text status headers = record {
  status = status;
  headers =
      put (put headers (lit "Content-Type") (lit "text/plain; charset=utf-8"))
        (lit "X-Content-Type-Options") (lit "nosniff");
  body = plain (text ++ b'\n' ∷ []);
}

-- `http.NotFound`
unfoldable pub not_found_page : {E : Type 0} → Dict Text → Response E
unfolding http_error
not_found_page headers = http_error (lit "404 page not found") 404 headers

-- The answer of the mux to another method than those of its patterns for the path
unfoldable pub method_page : {E : Type 0} → Text → Dict Text → Response E
unfolding http_error put
method_page allowed headers =
    http_error (lit "Method Not Allowed") 405 (put headers (lit "Allow") allowed)

-- `http.Redirect` of a POST; the location is made a valid URL by the library.
unfoldable pub redirect : {E : Type 0} → Text → Dict Text → Response E
unfolding put
redirect url headers = record {
  status = 303;
  headers = put headers (lit "Location") url;
  body = nothing;
}

-- `handleCSS`
unfoldable pub handle_css : {E : Type 0} → Dict Text → Response E
unfolding put
handle_css headers = record {
  status = 200;
  headers =
      put (put headers (lit "Content-Type") (lit "text/css; charset=utf-8")) (lit "Cache-Control")
        (lit "public, max-age=3600");
  body = style_sheet;
}

-- `render`
unfoldable pub render :
    {E : Type 0} → (Text → Text → List ℕ) → Config → Text → ℕ → View E → Dict Text → Response E
unfolding put csrf_token
render hmac cfg actor now view headers = record {
  status = 200;
  headers = put headers (lit "Content-Type") (lit "text/html; charset=utf-8");
  body = html actor (csrf_token hmac cfg.csrf_secret actor now) view;
}

-- The value of a map for a key that it lacks is the zero value.
unfoldable pub or_absent : Option AppStatus → AppStatus
or_absent none = record { present = false; role = []; deactivated = false }
or_absent (some status) = status

unfoldable pub status_of : Dict AppStatus → Text → AppStatus
unfolding get or_absent
status_of statuses email = or_absent (get statuses email)

module _ ⦃unicode : Unicode⦄ where
  -- The rows with the column of one app.
  unfoldable pub with_column : Text → Dict AppStatus → List UserRow → List UserRow
  unfolding put status_of to_lower
  with_column name statuses [] = []
  with_column name statuses (row ∷ rows) =
      record row { apps = put row.apps name (status_of statuses (to_lower row.user.email)) }
      ∷ with_column name statuses rows

  -- What the answer of one app does to the rows, and its warning.
  unfoldable pub shown :
      {E : Type 0}
      → Text
      → Outcome E (Dict AppStatus)
      → List UserRow
      → List UserRow × List (Text × E)
  unfolding with_column
  shown name (err e) rows = (rows, (name, e) ∷ [])
  shown name (ok statuses) rows = (with_column name statuses rows, [])

  unfoldable pub gather :
      {S E : Type 0}
      → List (Provisioner S E)
      → List Text
      → List UserRow
      → S
      → S × List UserRow × List (Text × E)
  unfolding shown
  gather [] emails rows s = (s, rows, [])
  gather (p ∷ ps) emails rows s =
      let (after, answer) = p.status emails s in
      let (filled, warnings) = shown p.name answer rows in
      let (last, all_rows, later) = gather ps emails filled after in
      (last, all_rows, warnings ++ later)

abbrev pub empty_row : User → UserRow
empty_row u = record { user = u; apps = [] }

module _ {S E : Type 0} (provs : List (Provisioner S E)) where
  unfoldable pub provisioner_names : List Text
  provisioner_names = map (λ p. p.name) provs

  unfoldable pub app_infos : List AppInfo
  app_infos = map (λ p. p.info) provs

module _ ⦃unicode : Unicode⦄ {S E : Type 0} (y : Yaml) (file : Text)
    (provs : List (Provisioner S E)) where
  unfoldable pub list_found : Result (List User) → World S → World S × View E
  unfolding gather provisioner_names app_infos
  list_found (err e) w = (w, problem_view e)
  list_found (ok users) w =
      let (apps, rows, warnings) =
        gather provs (map (λ u. to_lower u.email) users) (map empty_row users) w.apps in
      (
        record w { apps = apps },
        list_view rows (provisioner_names provs) (app_infos provs) warnings,
      )

  -- `handleList`
  unfoldable pub handle_list : Bool → World S → World S × View E
  unfolding list_found list_users
  handle_list read_fails w = list_found (list_users y file read_fails w.dir) w

unfoldable pub app_row :
    {E : Type 0} → AppInfo → Text → Outcome E (Dict AppStatus) → List AppStatusRow
unfolding status_of
app_row info email (err e) = []
app_row info email (ok statuses) =
    record { display_name = info.display_name; status = status_of statuses email } ∷ []

unfoldable pub app_rows : {S E : Type 0} → List (Provisioner S E) → Text → S → S × List AppStatusRow
unfolding app_row
app_rows [] email s = (s, [])
app_rows (p ∷ ps) email s =
    let (after, answer) = p.status (email ∷ []) s in
    let (last, rows) = app_rows ps email after in (last, app_row p.info email answer ++ rows)

-- `handleInviteForm`
unfoldable pub handle_invite_form : {E : Type 0} → Config → View E
unfolding group_options
handle_invite_form cfg = invite_view (group_options cfg) cfg.allowed_email_domains []

module _ ⦃unicode : Unicode⦄ {S E : Type 0} (y : Yaml) (file : Text) (cfg : Config)
    (provs : List (Provisioner S E)) where
  unfoldable pub user_found : Result User → World S → World S × Option (View E)
  unfolding app_rows group_options to_lower
  user_found (err e) w = (w, none)
  user_found (ok u) w =
      let (apps, rows) = app_rows provs (to_lower u.email) w.apps in
      (record w { apps = apps }, some (user_view u (group_options cfg) u.groups rows))

  -- `handleUser`; no view is the page that is not found.
  unfoldable pub handle_user : Bool → Text → World S → World S × Option (View E)
  unfolding user_found get_user
  handle_user read_fails username w = user_found (get_user y file read_fails w.dir username) w
