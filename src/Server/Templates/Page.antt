-- ===== src/Server/Templates/Page.antt =====
-- `ExecuteTemplate` in `render` of internal/server/templates.go: the page that is made of a view.
use vps_user_portal.Server.Templates.Forms.{invite_page, user_page}
use vps_user_portal.Server.Templates.Reports.{list_page}
use vps_user_portal.Server.Templates.Results.{result_page, message_page}
use vps_user_portal.Server.Templates.{Piece, write_all}
use vps_user_portal.Server.Wording.{Words, warning_text, status_warning}
use vps_user_portal.Server.Pages.{
  View, list_view, invite_view, user_view, problem_view, message_view, reshow_view, result_view,
}
use vps_user_portal.Text.Case.{Unicode}
use vps_user_portal.Text.{Text, lit}
use vps_user_portal.Base.{List, [], map, false}

module _ {E : Type 0} (words : Words E) (actor token : Text) where
  -- A value that the handler does not set is empty.
  unfoldable pub pieces : View E → List Piece
  unfolding list_page invite_page user_page message_page result_page warning_text status_warning
  pieces (list_view rows names infos warnings) =
      list_page actor rows infos (map (λ w. warning_text words (status_warning w)) warnings)
  pieces (invite_view groups domains selected) =
      invite_page actor token [] groups domains [] selected false
  pieces (user_view u groups selected apps) = user_page actor token u groups selected apps
  pieces (problem_view e) = message_page actor (lit "Something went wrong") (words.store e) [] [] []
  pieces (message_view title message warnings) =
      message_page actor title [] message (map (warning_text words) warnings) []
  pieces (reshow_view problem groups domains users selected send_email) =
      invite_page actor token problem groups domains users selected send_email
  pieces (result_view rows created total send_email sso_url) =
      result_page words actor rows created total send_email sso_url

  unfoldable pub execute : ⦃unicode : Unicode⦄ → View E → Text
  unfolding write_all pieces
  execute view = write_all (pieces view)
