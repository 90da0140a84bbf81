-- ===== src/Server/Templates/Forms.antt =====
-- internal/server/templates/invite.html and user.html: the pages with forms.
use vps_user_portal.Email.{em_dash}
use mathlib.Core.List.{flat_map}
use vps_user_portal.Config.{GroupOption}
use vps_user_portal.Server.Templates.{Piece, markup, datum, segment}
use vps_user_portal.Server.Pages.{AppStatusRow}
use vps_user_portal.Server.Templates.Frame.{icon_user_plus, head, foot, each}
use vps_user_portal.Text.{same, Text, contains, lit}
use vps_user_portal.Base.{Bool, List, if◌then◌else◌, ◌++◌, ◌∷◌, [], not, is_empty}
use vps_user_portal.Userstore.Types.{User}

unfoldable pub domain_item : Bool → Text → List Piece
domain_item later d =
    ((if later then (markup (lit ", ") ∷ []) else []) ++ (markup (lit "@") ∷ datum d ∷ []))

unfoldable pub group_box : List Text → GroupOption → List Piece
unfolding same contains
group_box selected option =
    ((markup (lit "\n    <label><input type=\"checkbox\" name=\"groups\" value=\"")
        ∷ datum option.value
        ∷ markup (lit "\"")
        ∷ [])
      ++ (if contains selected option.value then (markup (lit " checked") ∷ []) else [])
      ++ (markup (lit "> ") ∷ datum option.label ∷ [])
      ++ (if not (same option.label option.value)
          then (markup (lit " <span class=\"hint\">(")
              ∷ datum option.value
              ∷ markup (lit ")</span>")
              ∷ [])
          else [])
      ++ (markup (lit "</label>\n") ∷ markup (lit "    ") ∷ []))

unfoldable pub invite_page :
    Text → Text → Text → List GroupOption → List Text → Text → List Text → Bool → List Piece
unfolding icon_user_plus head foot group_box domain_item each flat_map
invite_page actor token problem groups domains users selected send_email =
    (head actor
      ++ (markup (lit "\n<h1>Invite users</h1>\n") ∷ [])
      ++ (if not (is_empty problem)
          then (markup (lit "<div class=\"error\">") ∷ datum problem ∷ markup (lit "</div>") ∷ [])
          else [])
      ++ (markup (
            lit "\n<p class=\"muted\">Creates the accounts immediately "
            ++ em_dash
            ++ lit " each person can be assigned in\n")
          ∷ markup (
              lit
                "Planka straight away, before they've ever logged in. They set their own password\n")
          ∷ markup (
              lit
                "later (nothing works until they do). No email is sent unless you tick the box.</p>\n")
          ∷ markup (
              lit
                "<form class=\"stack\" method=\"post\" action=\"/invite\" autocomplete=\"off\">\n")
          ∷ markup (lit "  <input type=\"hidden\" name=\"csrf\" value=\"")
          ∷ datum token
          ∷ markup (lit "\">\n")
          ∷ markup (
              lit
                "  <label for=\"users\">People <span class=\"hint\">(one per line: <code>email</code> or <code>email, Full Name</code>) "
              ++ em_dash
              ++ lit " allowed domains: ")
          ∷ [])
      ++ each domain_item (domains)
      ++ (markup (lit "</span></label>\n")
          ∷ markup (
              lit
                "  <textarea id=\"users\" name=\"users\" rows=\"8\" required autocomplete=\"off\" spellcheck=\"false\" placeholder=\"jane.smith@rch.org.au, Dr Jane Smith&#10;bob.jones@rch.org.au\">")
          ∷ datum users
          ∷ markup (lit "</textarea>\n")
          ∷ markup (
              lit
                "  <label>Access <span class=\"hint\">(applied to everyone in this batch)</span></label>\n")
          ∷ markup (lit "  <div class=\"checks\">\n")
          ∷ markup (lit "    ")
          ∷ markup (lit "\n    ")
          ∷ [])
      ++ flat_map (group_box selected) (groups)
      ++ (markup (lit "\n  </div>\n")
          ∷ markup (lit "  <label class=\"toggle\"><input type=\"checkbox\" name=\"send_email\"")
          ∷ [])
      ++ (if send_email then (markup (lit " checked") ∷ []) else [])
      ++ (markup (
            lit
              "> Also email each person a welcome / password-setup link <span class=\"hint\">(off by default "
            ++ em_dash
            ++ lit " accounts work without it)</span></label>\n")
          ∷ markup (lit "  <button type=\"submit\" class=\"btn-icon\">")
          ∷ [])
      ++ icon_user_plus
      ++ (markup (lit "Create accounts</button>\n") ∷ markup (lit "</form>\n") ∷ [])
      ++ foot
      ++ (markup (lit "\n") ∷ []))

unfoldable pub app_line : AppStatusRow → List Piece
app_line app =
    ((markup (lit "\n  <tr><td>")
        ∷ datum app.display_name
        ∷ markup (lit "</td>\n")
        ∷ markup (lit "      <td>")
        ∷ [])
      ++ (if not app.status.present
          then (markup (lit "<span class=\"muted\">not present (created at first login)</span>")
              ∷ [])
          else ((if app.status.deactivated
              then (markup (lit "<span class=\"danger\">deactivated</span>") ∷ [])
              else (markup (lit "<span class=\"ok\">")
                  ∷ datum app.status.role
                  ∷ markup (lit "</span>")
                  ∷ []))))
      ++ (markup (lit "</td></tr>\n") ∷ markup (lit "  ") ∷ []))

unfoldable pub user_page :
    Text → Text → User → List GroupOption → List Text → List AppStatusRow → List Piece
unfolding head foot group_box app_line flat_map
user_page actor token u groups selected apps =
    (head actor
      ++ (markup (lit "\n<h1>")
          ∷ datum u.display_name
          ∷ markup (lit " <span class=\"muted\">(")
          ∷ datum u.username
          ∷ markup (lit ")</span></h1>\n")
          ∷ markup (lit "<p>")
          ∷ datum u.email
          ∷ markup (lit "</p>\n")
          ∷ [])
      ++ (if not (is_empty apps)
          then ((markup (lit "\n<div class=\"table-wrap\">\n")
                ∷ markup (lit "<table>\n")
                ∷ markup (lit "  <tr><th>App</th><th>Status</th></tr>\n")
                ∷ markup (lit "  ")
                ∷ [])
              ++ flat_map app_line (apps)
              ++ (markup (lit "\n</table>\n") ∷ markup (lit "</div>\n") ∷ []))
          else [])
      ++ (markup (lit "\n\n<form class=\"stack\" method=\"post\" action=\"/users/")
          ∷ segment u.username
          ∷ markup (lit "/groups\">\n")
          ∷ markup (lit "  <input type=\"hidden\" name=\"csrf\" value=\"")
          ∷ datum token
          ∷ markup (lit "\">\n")
          ∷ markup (
              lit
                "  <label>Access <span class=\"hint\">(app roles follow at the user's next login)</span></label>\n")
          ∷ markup (lit "  <div class=\"checks\">\n")
          ∷ markup (lit "    ")
          ∷ markup (lit "\n    ")
          ∷ [])
      ++ flat_map (group_box selected) (groups)
      ++ (markup (lit "\n  </div>\n")
          ∷ markup (lit "  <button type=\"submit\">Save access</button>\n")
          ∷ markup (lit "</form>\n")
          ∷ markup (lit "\n<section class=\"danger-zone\">\n")
          ∷ markup (lit "  <h2>Remove user</h2>\n")
          ∷ markup (
              lit
                "  <p class=\"muted\">Removes SSO access immediately (sessions lapse within the\n")
          ∷ markup
              (lit "  hour) and deactivates the user in connected apps. Their history and card\n")
          ∷ markup (lit "  assignments are kept.</p>\n")
          ∷ markup (lit "  <form method=\"post\" action=\"/users/")
          ∷ segment u.username
          ∷ markup (lit "/delete\">\n")
          ∷ markup (lit "    <input type=\"hidden\" name=\"csrf\" value=\"")
          ∷ datum token
          ∷ markup (lit "\">\n")
          ∷ markup (lit "    <label><input type=\"checkbox\" name=\"confirm\"> Yes, remove ")
          ∷ datum u.email
          ∷ markup (lit "</label><br>\n")
          ∷ markup (lit "    <button type=\"submit\" class=\"danger\">Remove user</button>\n")
          ∷ markup (lit "  </form>\n")
          ∷ markup (lit "</section>\n")
          ∷ [])
      ++ foot
      ++ (markup (lit "\n") ∷ []))
