-- ===== src/Server/Templates/Results.antt =====
-- internal/server/templates/invite-result.html and message.html: the pages that report on a change.
use vps_user_portal.Email.{em_dash}
use vps_user_portal.Server.Handlers.Batch.{Row}
use vps_user_portal.Server.Wording.{Words, status_word, detail_of}
use mathlib.Core.List.{flat_map}
use vps_user_portal.Server.Templates.{Piece, markup, datum, link}
use vps_user_portal.Text.Decimal.{print}
use vps_user_portal.Base.{◌∷◌, List, [], ◌++◌, ℕ, if◌then◌else◌, Bool, not, is_empty}
use vps_user_portal.Server.Templates.Frame.{icon_check, head, icon_dash, foot, icon_x}
use vps_user_portal.Text.{Text, same, lit}

abbrev pub middle_dot : Text
middle_dot = 0xC2 ∷ 0xB7 ∷ []

unfoldable pub result_line : {E : Type 0} → Words E → Row E → List Piece
unfolding icon_check icon_dash icon_x same status_word detail_of
result_line words row =
    ((markup (lit "\n  <tr>\n")
        ∷ markup (lit "    <td>")
        ∷ datum row.email
        ∷ markup (lit "</td>\n")
        ∷ markup (lit "    <td>")
        ∷ [])
      ++ (if same (status_word row.status) (lit "created")
          then ((markup (lit "<span class=\"stat ok\">") ∷ [])
              ++ icon_check
              ++ (markup (lit "created</span>") ∷ []))
          else ((if same (status_word row.status) (lit "skipped")
              then ((markup (lit "<span class=\"stat muted\">") ∷ [])
                  ++ icon_dash
                  ++ (markup (lit "skipped</span>") ∷ []))
              else ((markup (lit "<span class=\"stat danger\">") ∷ [])
                  ++ icon_x
                  ++ (markup (lit "failed</span>") ∷ [])))))
      ++ (markup (lit "</td>\n")
          ∷ markup (lit "    <td class=\"muted\">")
          ∷ datum (detail_of words row.status)
          ∷ markup (lit "</td>\n")
          ∷ markup (lit "  </tr>\n")
          ∷ markup (lit "  ")
          ∷ []))

unfoldable pub result_page :
    {E : Type 0} → Words E → Text → List (Row E) → ℕ → ℕ → Bool → Text → List Piece
unfolding head foot result_line print flat_map
result_page words actor rows created_count total send_email sso_url =
    (head actor
      ++ (markup (lit "\n<h1>Invite results</h1>\n")
          ∷ markup (lit "<div class=\"notice\">\n")
          ∷ markup (lit "  <strong>")
          ∷ datum (print created_count)
          ∷ markup (lit "</strong> of ")
          ∷ datum (print total)
          ∷ markup (lit " created.\n")
          ∷ markup (lit "  ")
          ∷ [])
      ++ (if send_email
          then (markup (lit "A welcome email was sent to each new account.\n")
              ∷ markup (lit "  ")
              ∷ [])
          else (markup (
                lit "No emails were sent "
                ++ em_dash
                ++ lit " the accounts exist but have no password yet.\n")
              ∷ markup (lit "  Ask each person to go to <a href=\"")
              ∷ link sso_url
              ∷ markup (lit "\">")
              ∷ datum sso_url
              ∷ markup (lit "</a>, click\n")
              ∷ markup (
                  lit
                    "  <em>Reset password?</em>, and follow the email, whenever you're ready to onboard them.\n")
              ∷ markup (lit "  ")
              ∷ []))
      ++ (markup (lit "\n</div>\n")
          ∷ markup (lit "<div class=\"table-wrap\">\n")
          ∷ markup (lit "<table>\n")
          ∷ markup (lit "  <tr><th>Email</th><th>Result</th><th>Detail</th></tr>\n")
          ∷ markup (lit "  ")
          ∷ [])
      ++ flat_map (result_line words) (rows)
      ++ (markup (lit "\n</table>\n")
          ∷ markup (lit "</div>\n")
          ∷ markup (
              lit "<p><a href=\"/invite\">Invite more</a> "
              ++ middle_dot
              ++ lit " <a href=\"/\">Back to users</a></p>\n")
          ∷ [])
      ++ foot
      ++ (markup (lit "\n") ∷ []))

unfoldable pub message_warning : Text → List Piece
message_warning x = (markup (lit "<div class=\"warning\">") ∷ datum x ∷ markup (lit "</div>") ∷ [])

unfoldable pub message_page : Text → Text → Text → Text → List Text → Text → List Piece
unfolding head foot message_warning flat_map
message_page actor title problem message warnings note =
    (head actor
      ++ (markup (lit "\n<h1>") ∷ datum title ∷ markup (lit "</h1>\n") ∷ [])
      ++ (if not (is_empty problem)
          then (markup (lit "<div class=\"error\">") ∷ datum problem ∷ markup (lit "</div>") ∷ [])
          else [])
      ++ (markup (lit "\n") ∷ [])
      ++ (if not (is_empty message)
          then (markup (lit "<p>") ∷ datum message ∷ markup (lit "</p>") ∷ [])
          else [])
      ++ (markup (lit "\n") ∷ [])
      ++ flat_map message_warning (warnings)
      ++ (markup (lit "\n") ∷ [])
      ++ (if not (is_empty note)
          then (markup (lit "<div class=\"notice\">") ∷ datum note ∷ markup (lit "</div>") ∷ [])
          else [])
      ++ (markup (lit "\n<p><a href=\"/\">Back to the user list</a></p>\n") ∷ [])
      ++ foot
      ++ (markup (lit "\n") ∷ []))
