-- ===== src/Server/Templates/Reports.antt =====
-- internal/server/templates/list.html: the page of all users.
use vps_user_portal.Email.{em_dash}
use vps_user_portal.Text.Maps.{Dict}
use vps_user_portal.Server.Pages.{status_of, UserRow}
use vps_user_portal.Server.Templates.{Piece, markup, datum, segment, link}
use mathlib.Core.List.{flat_map}
use vps_user_portal.Server.Templates.Frame.{icon_check, head, icon_x, foot, each}
use vps_user_portal.Provision.{AppInfo, AppStatus}
use vps_user_portal.Base.{Bool, ◌∷◌, List, [], if◌then◌else◌, ◌++◌, not, is_empty}
use vps_user_portal.Text.{Text, lit}

unfoldable pub app_item : Bool → AppInfo → List Piece
app_item later a =
    ((if later then (markup (lit ", ") ∷ []) else [])
      ++ (markup (lit "<strong>") ∷ datum a.display_name ∷ markup (lit "</strong>") ∷ [])
      ++ (if not (is_empty a.url)
          then (markup (lit " (<a href=\"")
              ∷ link a.url
              ∷ markup (lit "\">")
              ∷ datum a.url
              ∷ markup (lit "</a>)")
              ∷ [])
          else []))

unfoldable pub warning_line : Text → List Piece
warning_line x = (markup (lit "<div class=\"warning\">") ∷ datum x ∷ markup (lit "</div>") ∷ [])

unfoldable pub app_head : AppInfo → List Piece
app_head a = (markup (lit "<th>") ∷ datum a.display_name ∷ markup (lit "</th>") ∷ [])

unfoldable pub group_tag : Text → List Piece
group_tag x = (markup (lit "<span class=\"tag\">") ∷ datum x ∷ markup (lit "</span>") ∷ [])

unfoldable pub app_cell : Dict AppStatus → AppInfo → List Piece
unfolding icon_check icon_x status_of
app_cell apps a =
    ((markup (lit "\n      ") ∷ markup (lit "\n      <td>") ∷ [])
      ++ (if not (status_of apps a.name).present
          then (markup (lit "<span class=\"muted\">&mdash;</span>") ∷ [])
          else ((if (status_of apps a.name).deactivated
              then ((markup (lit "<span class=\"stat danger\">") ∷ [])
                  ++ icon_x
                  ++ (markup (lit "deactivated</span>") ∷ []))
              else ((markup (lit "<span class=\"stat ok\">") ∷ [])
                  ++ icon_check
                  ++ (datum (status_of apps a.name).role ∷ markup (lit "</span>") ∷ [])))))
      ++ (markup (lit "</td>\n") ∷ markup (lit "    ") ∷ []))

unfoldable pub user_line : List AppInfo → UserRow → List Piece
unfolding group_tag app_cell flat_map
user_line infos row =
    ((markup (lit "\n  <tr>\n")
        ∷ markup (lit "    <td><a href=\"/users/")
        ∷ segment row.user.username
        ∷ markup (lit "\">")
        ∷ datum row.user.display_name
        ∷ markup (lit "</a><br><span class=\"muted\">")
        ∷ datum row.user.username
        ∷ markup (lit "</span></td>\n")
        ∷ markup (lit "    <td>")
        ∷ datum row.user.email
        ∷ markup (lit "</td>\n")
        ∷ markup (lit "    <td>")
        ∷ [])
      ++ flat_map group_tag (row.user.groups)
      ++ (markup (lit "</td>\n") ∷ markup (lit "    ") ∷ markup (lit "\n    ") ∷ [])
      ++ flat_map (app_cell row.apps) (infos)
      ++ (markup (lit "\n  </tr>\n") ∷ markup (lit "  ") ∷ []))

unfoldable pub list_page : Text → List UserRow → List AppInfo → List Text → List Piece
unfolding head foot each app_item warning_line app_head user_line flat_map
list_page actor rows infos warnings =
    (head actor
      ++ (markup (lit "\n<h1>Users</h1>\n")
          ∷ markup (lit "<div class=\"notice\">\n")
          ∷ markup (lit "  ")
          ∷ [])
      ++ (if not (is_empty infos)
          then ((markup (lit "\n  Accounts you create here also apply to:\n")
                ∷ markup (lit "  ")
                ∷ [])
              ++ each app_item (infos)
              ++ (markup (lit ".\n")
                  ∷ markup (
                      lit
                        "  Access is granted per person below; more apps can be connected over time.\n")
                  ∷ markup (lit "  ")
                  ∷ []))
          else (markup (
                lit
                  "\n  This portal manages single sign-on accounts. No downstream apps are connected yet.\n")
              ∷ markup (lit "  ")
              ∷ []))
      ++ (markup (lit "\n</div>\n") ∷ [])
      ++ flat_map warning_line (warnings)
      ++ (markup (lit "\n<div class=\"table-wrap\">\n")
          ∷ markup (lit "<table>\n")
          ∷ markup (lit "  <tr>\n")
          ∷ markup (lit "    <th>User</th><th>Email</th><th>Groups</th>\n")
          ∷ markup (lit "    ")
          ∷ [])
      ++ flat_map app_head (infos)
      ++ (markup (lit "\n  </tr>\n") ∷ markup (lit "  ") ∷ [])
      ++ (if is_empty (rows)
          then (markup (
                lit "\n  <tr><td colspan=\"9\" class=\"muted\">No users yet "
                ++ em_dash
                ++ lit " <a href=\"/invite\">invite the first one</a>.</td></tr>\n")
              ∷ markup (lit "  ")
              ∷ [])
          else flat_map (user_line infos) (rows))
      ++ (markup (lit "\n</table>\n") ∷ markup (lit "</div>\n") ∷ [])
      ++ foot
      ++ (markup (lit "\n") ∷ []))
