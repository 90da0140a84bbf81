-- ===== src/Server/Templates/Own/Pages.antt =====
-- The pages of internal/server/templates are made of its own texts, and of data.
use vps_user_portal.Server.Templates.Own.Frame.{
  foot-AreOwn, each-AreOwn, icon_x-AreOwn, icon_user_plus-AreOwn, icon_check-AreOwn,
  icon_dash-AreOwn,
}
use vps_user_portal.Server.Handlers.Batch.{Row}
use vps_user_portal.Config.{GroupOption}
use vps_user_portal.Server.Wording.{Words, status_word}
use vps_user_portal.Text.Maps.{Dict}
use vps_user_portal.Provision.{AppInfo, AppStatus}
use vps_user_portal.Server.Pages.{AppStatusRow, UserRow, status_of}
use vps_user_portal.Text.{Text, contains, same, lit}
use vps_user_portal.Server.Templates.Results.{
  result_line, result_page, message_warning, message_page,
}
use vps_user_portal.Server.Templates.Reports.{
  app_item, warning_line, app_head, group_tag, app_cell, user_line, list_page,
}
use vps_user_portal.Server.Templates.Forms.{
  domain_item, group_box, invite_page, app_line, user_page,
}
use vps_user_portal.Server.Templates.Own.{
  are_own, AreOwn, if-AreOwn, leading-AreOwn, texts-AreOwn, ◌⊕◌, flat_map-AreOwn,
}
use vps_user_portal.Userstore.Types.{User}
use vps_user_portal.Base.{refl, Bool, List, ℕ, not, is_empty}

pub domain_item-AreOwn : (later : Bool) (d : Text) → AreOwn (domain_item later d)
unfolding are_own domain_item
domain_item-AreOwn later d =
    if-AreOwn later (texts-AreOwn refl) (texts-AreOwn refl) ⊕ texts-AreOwn refl

pub group_box-AreOwn :
    (selected : List Text) (option : GroupOption) → AreOwn (group_box selected option)
unfolding are_own group_box
group_box-AreOwn selected option = leading-AreOwn 3 refl (
    if-AreOwn (contains selected option.value) (texts-AreOwn refl) (texts-AreOwn refl)
    ⊕ texts-AreOwn refl
    ⊕ if-AreOwn (not (same option.label option.value)) (texts-AreOwn refl) (texts-AreOwn refl)
    ⊕ texts-AreOwn refl)

pub invite_page-AreOwn :
    (actor : Text) (token : Text) (problem : Text) (groups : List GroupOption) (domains : List Text)
    (users : Text) (selected : List Text) (send_email : Bool)
    → AreOwn (invite_page actor token problem groups domains users selected send_email)
unfolding are_own invite_page
invite_page-AreOwn actor token problem groups domains users selected send_email =
    leading-AreOwn 26 refl (
      if-AreOwn (not (is_empty problem)) (texts-AreOwn refl) (texts-AreOwn refl)
      ⊕ texts-AreOwn refl
      ⊕ each-AreOwn _ domain_item-AreOwn domains
      ⊕ texts-AreOwn refl
      ⊕ flat_map-AreOwn _ (group_box-AreOwn selected) groups
      ⊕ texts-AreOwn refl
      ⊕ if-AreOwn send_email (texts-AreOwn refl) (texts-AreOwn refl)
      ⊕ texts-AreOwn refl
      ⊕ icon_user_plus-AreOwn
      ⊕ texts-AreOwn refl
      ⊕ foot-AreOwn
      ⊕ texts-AreOwn refl)

pub app_line-AreOwn : (app : AppStatusRow) → AreOwn (app_line app)
unfolding are_own app_line
app_line-AreOwn app = leading-AreOwn 4 refl (
    if-AreOwn (not app.status.present) (texts-AreOwn refl)
      (if-AreOwn app.status.deactivated (texts-AreOwn refl) (texts-AreOwn refl))
    ⊕ texts-AreOwn refl)

pub user_page-AreOwn :
    (actor : Text) (token : Text) (u : User) (groups : List GroupOption) (selected : List Text)
    (apps : List AppStatusRow)
    → AreOwn (user_page actor token u groups selected apps)
unfolding are_own user_page
user_page-AreOwn actor token u groups selected apps = leading-AreOwn 33 refl (
    if-AreOwn (not (is_empty apps))
      (leading-AreOwn 4 refl (flat_map-AreOwn _ app_line-AreOwn apps ⊕ texts-AreOwn refl))
      (texts-AreOwn refl)
    ⊕ texts-AreOwn refl
    ⊕ flat_map-AreOwn _ (group_box-AreOwn selected) groups
    ⊕ texts-AreOwn refl
    ⊕ foot-AreOwn
    ⊕ texts-AreOwn refl)

pub app_item-AreOwn : (later : Bool) (a : AppInfo) → AreOwn (app_item later a)
unfolding are_own app_item
app_item-AreOwn later a =
    if-AreOwn later (texts-AreOwn refl) (texts-AreOwn refl)
    ⊕ texts-AreOwn refl
    ⊕ if-AreOwn (not (is_empty a.url)) (texts-AreOwn refl) (texts-AreOwn refl)

pub warning_line-AreOwn : (x : Text) → AreOwn (warning_line x)
unfolding are_own warning_line
warning_line-AreOwn x = texts-AreOwn refl

pub app_head-AreOwn : (a : AppInfo) → AreOwn (app_head a)
unfolding are_own app_head
app_head-AreOwn a = texts-AreOwn refl

pub group_tag-AreOwn : (x : Text) → AreOwn (group_tag x)
unfolding are_own group_tag
group_tag-AreOwn x = texts-AreOwn refl

pub app_cell-AreOwn : (apps : Dict AppStatus) (a : AppInfo) → AreOwn (app_cell apps a)
unfolding are_own app_cell
app_cell-AreOwn apps a = leading-AreOwn 2 refl (
    if-AreOwn (not (status_of apps a.name).present) (texts-AreOwn refl) (
      if-AreOwn ((status_of apps a.name).deactivated)
        (leading-AreOwn 1 refl (icon_x-AreOwn ⊕ texts-AreOwn refl))
        (leading-AreOwn 1 refl (icon_check-AreOwn ⊕ texts-AreOwn refl)))
    ⊕ texts-AreOwn refl)

pub user_line-AreOwn : (infos : List AppInfo) (row : UserRow) → AreOwn (user_line infos row)
unfolding are_own user_line
user_line-AreOwn infos row = leading-AreOwn 12 refl (
    flat_map-AreOwn _ group_tag-AreOwn row.user.groups
    ⊕ texts-AreOwn refl
    ⊕ flat_map-AreOwn _ (app_cell-AreOwn row.apps) infos
    ⊕ texts-AreOwn refl)

pub list_page-AreOwn :
    (actor : Text) (rows : List UserRow) (infos : List AppInfo) (warnings : List Text)
    → AreOwn (list_page actor rows infos warnings)
unfolding are_own list_page
list_page-AreOwn actor rows infos warnings = leading-AreOwn 28 refl (
    if-AreOwn (not (is_empty infos))
      (leading-AreOwn 2 refl (each-AreOwn _ app_item-AreOwn infos ⊕ texts-AreOwn refl))
      (texts-AreOwn refl)
    ⊕ texts-AreOwn refl
    ⊕ flat_map-AreOwn _ warning_line-AreOwn warnings
    ⊕ texts-AreOwn refl
    ⊕ flat_map-AreOwn _ app_head-AreOwn infos
    ⊕ texts-AreOwn refl
    ⊕ if-AreOwn (is_empty (rows)) (texts-AreOwn refl)
        (flat_map-AreOwn _ (user_line-AreOwn infos) rows)
    ⊕ texts-AreOwn refl
    ⊕ foot-AreOwn
    ⊕ texts-AreOwn refl)

pub result_line-AreOwn :
    {E : Type 0} (words : Words E) (row : Row E) → AreOwn (result_line words row)
unfolding are_own result_line
result_line-AreOwn words row = leading-AreOwn 5 refl (
    if-AreOwn (same (status_word row.status) (lit "created"))
      (leading-AreOwn 1 refl (icon_check-AreOwn ⊕ texts-AreOwn refl))
      (if-AreOwn (same (status_word row.status) (lit "skipped"))
        (leading-AreOwn 1 refl (icon_dash-AreOwn ⊕ texts-AreOwn refl))
        (leading-AreOwn 1 refl (icon_x-AreOwn ⊕ texts-AreOwn refl)))
    ⊕ texts-AreOwn refl)

pub result_page-AreOwn :
    {E : Type 0} (words : Words E) (actor : Text) (rows : List (Row E)) (created_count : ℕ)
    (total : ℕ) (send_email : Bool) (sso_url : Text)
    → AreOwn (result_page words actor rows created_count total send_email sso_url)
unfolding are_own result_page
result_page-AreOwn words actor rows created_count total send_email sso_url =
    leading-AreOwn 33 refl (
      if-AreOwn send_email (texts-AreOwn refl) (texts-AreOwn refl)
      ⊕ texts-AreOwn refl
      ⊕ flat_map-AreOwn _ (result_line-AreOwn words) rows
      ⊕ texts-AreOwn refl
      ⊕ foot-AreOwn
      ⊕ texts-AreOwn refl)

pub message_warning-AreOwn : (x : Text) → AreOwn (message_warning x)
unfolding are_own message_warning
message_warning-AreOwn x = texts-AreOwn refl

pub message_page-AreOwn :
    (actor : Text) (title : Text) (problem : Text) (message : Text) (warnings : List Text)
    (note : Text)
    → AreOwn (message_page actor title problem message warnings note)
unfolding are_own message_page
message_page-AreOwn actor title problem message warnings note = leading-AreOwn 28 refl (
    if-AreOwn (not (is_empty problem)) (texts-AreOwn refl) (texts-AreOwn refl)
    ⊕ texts-AreOwn refl
    ⊕ if-AreOwn (not (is_empty message)) (texts-AreOwn refl) (texts-AreOwn refl)
    ⊕ texts-AreOwn refl
    ⊕ flat_map-AreOwn _ message_warning-AreOwn warnings
    ⊕ texts-AreOwn refl
    ⊕ if-AreOwn (not (is_empty note)) (texts-AreOwn refl) (texts-AreOwn refl)
    ⊕ texts-AreOwn refl
    ⊕ foot-AreOwn
    ⊕ texts-AreOwn refl)
