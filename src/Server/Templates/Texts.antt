-- ===== src/Server/Templates/Texts.antt =====
-- The texts between the actions of internal/server/templates/*.html, without a user's data.
use vps_user_portal.Email.{em_dash}
use vps_user_portal.Server.Templates.Results.{middle_dot}
use vps_user_portal.Text.{Text, lit}
use vps_user_portal.Base.{List, [], ◌∷◌, ◌++◌}

-- base.html
abbrev frame_texts : List Text
frame_texts =
    lit
      "<svg class=\"icon\" viewBox=\"0 0 24 24\" fill=\"none\" stroke=\"currentColor\" stroke-width=\"2\" stroke-linecap=\"round\" stroke-linejoin=\"round\" aria-hidden=\"true\"><path d=\"M17 21v-2a4 4 0 0 0-4-4H5a4 4 0 0 0-4 4v2\"/><circle cx=\"9\" cy=\"7\" r=\"4\"/><path d=\"M23 21v-2a4 4 0 0 0-3-3.87\"/><path d=\"M16 3.13a4 4 0 0 1 0 7.75\"/></svg>"
    ∷ lit
        "<svg class=\"icon\" viewBox=\"0 0 24 24\" fill=\"none\" stroke=\"currentColor\" stroke-width=\"2\" stroke-linecap=\"round\" stroke-linejoin=\"round\" aria-hidden=\"true\"><path d=\"M16 21v-2a4 4 0 0 0-4-4H6a4 4 0 0 0-4 4v2\"/><circle cx=\"9\" cy=\"7\" r=\"4\"/><line x1=\"19\" y1=\"8\" x2=\"19\" y2=\"14\"/><line x1=\"22\" y1=\"11\" x2=\"16\" y2=\"11\"/></svg>"
    ∷ lit
        "<svg class=\"icon\" viewBox=\"0 0 24 24\" fill=\"none\" stroke=\"currentColor\" stroke-width=\"2.5\" stroke-linecap=\"round\" stroke-linejoin=\"round\" aria-hidden=\"true\"><polyline points=\"20 6 9 17 4 12\"/></svg>"
    ∷ lit
        "<svg class=\"icon\" viewBox=\"0 0 24 24\" fill=\"none\" stroke=\"currentColor\" stroke-width=\"2.5\" stroke-linecap=\"round\" aria-hidden=\"true\"><line x1=\"5\" y1=\"12\" x2=\"19\" y2=\"12\"/></svg>"
    ∷ lit
        "<svg class=\"icon\" viewBox=\"0 0 24 24\" fill=\"none\" stroke=\"currentColor\" stroke-width=\"2.5\" stroke-linecap=\"round\" stroke-linejoin=\"round\" aria-hidden=\"true\"><line x1=\"18\" y1=\"6\" x2=\"6\" y2=\"18\"/><line x1=\"6\" y1=\"6\" x2=\"18\" y2=\"18\"/></svg>"
    ∷ lit "<!doctype html>\n"
    ∷ lit "<html lang=\"en\">\n"
    ∷ lit "<head>\n"
    ∷ lit "  <meta charset=\"utf-8\">\n"
    ∷ lit "  <meta name=\"viewport\" content=\"width=device-width, initial-scale=1\">\n"
    ∷ lit "  <meta name=\"robots\" content=\"noindex\">\n"
    ∷ lit "  <title>User portal</title>\n"
    ∷ lit
        "  <link rel=\"icon\" href=\"data:image/svg+xml;base64,PHN2ZyB4bWxucz0naHR0cDovL3d3dy53My5vcmcvMjAwMC9zdmcnIHZpZXdCb3g9JzAgMCAyNCAyNCc+PHJlY3Qgd2lkdGg9JzI0JyBoZWlnaHQ9JzI0JyByeD0nNScgZmlsbD0nIzA3NTdiYScvPjxjaXJjbGUgY3g9JzEyJyBjeT0nOScgcj0nMy4zJyBmaWxsPScjZmZmJy8+PHBhdGggZD0nTTUuNSAxOWE2LjUgNi41IDAgMCAxIDEzIDBaJyBmaWxsPScjZmZmJy8+PC9zdmc+\">\n"
    ∷ lit "  <link rel=\"stylesheet\" href=\"/static/style.css\">\n"
    ∷ lit "</head>\n"
    ∷ lit "<body>\n"
    ∷ lit "<header>\n"
    ∷ lit "  <nav>\n"
    ∷ lit "    <a href=\"/\" class=\"brand\">"
    ∷ lit "<span>User portal</span></a>\n"
    ∷ lit "    <a href=\"/invite\" class=\"navlink\">"
    ∷ lit "<span>Invite</span></a>\n"
    ∷ lit "    <span class=\"actor\">"
    ∷ lit "</span>\n"
    ∷ lit "  </nav>\n"
    ∷ lit "</header>\n"
    ∷ lit "<main>\n"
    ∷ lit "\n</main>\n"
    ∷ lit "</body>\n"
    ∷ lit "</html>\n"
    ∷ []

-- invite.html and user.html
abbrev form_texts : List Text
form_texts =
    lit ", "
    ∷ lit "@"
    ∷ lit "\n    <label><input type=\"checkbox\" name=\"groups\" value=\""
    ∷ lit "\""
    ∷ lit " checked"
    ∷ lit "> "
    ∷ lit " <span class=\"hint\">("
    ∷ lit ")</span>"
    ∷ lit "</label>\n"
    ∷ lit "    "
    ∷ lit "\n<h1>Invite users</h1>\n"
    ∷ lit "<div class=\"error\">"
    ∷ lit "</div>"
    ∷ (lit "\n<p class=\"muted\">Creates the accounts immediately "
        ++ em_dash
        ++ lit " each person can be assigned in\n")
    ∷ lit "Planka straight away, before they've ever logged in. They set their own password\n"
    ∷ lit "later (nothing works until they do). No email is sent unless you tick the box.</p>\n"
    ∷ lit "<form class=\"stack\" method=\"post\" action=\"/invite\" autocomplete=\"off\">\n"
    ∷ lit "  <input type=\"hidden\" name=\"csrf\" value=\""
    ∷ lit "\">\n"
    ∷ (lit
          "  <label for=\"users\">People <span class=\"hint\">(one per line: <code>email</code> or <code>email, Full Name</code>) "
        ++ em_dash
        ++ lit " allowed domains: ")
    ∷ lit "</span></label>\n"
    ∷ lit
        "  <textarea id=\"users\" name=\"users\" rows=\"8\" required autocomplete=\"off\" spellcheck=\"false\" placeholder=\"jane.smith@rch.org.au, Dr Jane Smith&#10;bob.jones@rch.org.au\">"
    ∷ lit "</textarea>\n"
    ∷ lit
        "  <label>Access <span class=\"hint\">(applied to everyone in this batch)</span></label>\n"
    ∷ lit "  <div class=\"checks\">\n"
    ∷ lit "\n    "
    ∷ lit "\n  </div>\n"
    ∷ lit "  <label class=\"toggle\"><input type=\"checkbox\" name=\"send_email\""
    ∷ (lit
          "> Also email each person a welcome / password-setup link <span class=\"hint\">(off by default "
        ++ em_dash
        ++ lit " accounts work without it)</span></label>\n")
    ∷ lit "  <button type=\"submit\" class=\"btn-icon\">"
    ∷ lit "Create accounts</button>\n"
    ∷ lit "</form>\n"
    ∷ lit "\n"
    ∷ lit "\n  <tr><td>"
    ∷ lit "</td>\n"
    ∷ lit "      <td>"
    ∷ lit "<span class=\"muted\">not present (created at first login)</span>"
    ∷ lit "<span class=\"danger\">deactivated</span>"
    ∷ lit "<span class=\"ok\">"
    ∷ lit "</span>"
    ∷ lit "</td></tr>\n"
    ∷ lit "  "
    ∷ lit "\n<h1>"
    ∷ lit " <span class=\"muted\">("
    ∷ lit ")</span></h1>\n"
    ∷ lit "<p>"
    ∷ lit "</p>\n"
    ∷ lit "\n<div class=\"table-wrap\">\n"
    ∷ lit "<table>\n"
    ∷ lit "  <tr><th>App</th><th>Status</th></tr>\n"
    ∷ lit "\n</table>\n"
    ∷ lit "</div>\n"
    ∷ lit "\n\n<form class=\"stack\" method=\"post\" action=\"/users/"
    ∷ lit "/groups\">\n"
    ∷ lit
        "  <label>Access <span class=\"hint\">(app roles follow at the user's next login)</span></label>\n"
    ∷ lit "  <button type=\"submit\">Save access</button>\n"
    ∷ lit "\n<section class=\"danger-zone\">\n"
    ∷ lit "  <h2>Remove user</h2>\n"
    ∷ lit "  <p class=\"muted\">Removes SSO access immediately (sessions lapse within the\n"
    ∷ lit "  hour) and deactivates the user in connected apps. Their history and card\n"
    ∷ lit "  assignments are kept.</p>\n"
    ∷ lit "  <form method=\"post\" action=\"/users/"
    ∷ lit "/delete\">\n"
    ∷ lit "    <input type=\"hidden\" name=\"csrf\" value=\""
    ∷ lit "    <label><input type=\"checkbox\" name=\"confirm\"> Yes, remove "
    ∷ lit "</label><br>\n"
    ∷ lit "    <button type=\"submit\" class=\"danger\">Remove user</button>\n"
    ∷ lit "  </form>\n"
    ∷ lit "</section>\n"
    ∷ []

-- list.html
abbrev report_texts : List Text
report_texts =
    lit "<strong>"
    ∷ lit "</strong>"
    ∷ lit " (<a href=\""
    ∷ lit "\">"
    ∷ lit "</a>)"
    ∷ lit "<div class=\"warning\">"
    ∷ lit "<th>"
    ∷ lit "</th>"
    ∷ lit "<span class=\"tag\">"
    ∷ lit "\n      "
    ∷ lit "\n      <td>"
    ∷ lit "<span class=\"muted\">&mdash;</span>"
    ∷ lit "<span class=\"stat danger\">"
    ∷ lit "deactivated</span>"
    ∷ lit "<span class=\"stat ok\">"
    ∷ lit "\n  <tr>\n"
    ∷ lit "    <td><a href=\"/users/"
    ∷ lit "</a><br><span class=\"muted\">"
    ∷ lit "</span></td>\n"
    ∷ lit "    <td>"
    ∷ lit "\n  </tr>\n"
    ∷ lit "\n<h1>Users</h1>\n"
    ∷ lit "<div class=\"notice\">\n"
    ∷ lit "\n  Accounts you create here also apply to:\n"
    ∷ lit ".\n"
    ∷ lit "  Access is granted per person below; more apps can be connected over time.\n"
    ∷ lit "\n  This portal manages single sign-on accounts. No downstream apps are connected yet.\n"
    ∷ lit "\n</div>\n"
    ∷ lit "  <tr>\n"
    ∷ lit "    <th>User</th><th>Email</th><th>Groups</th>\n"
    ∷ (lit "\n  <tr><td colspan=\"9\" class=\"muted\">No users yet "
        ++ em_dash
        ++ lit " <a href=\"/invite\">invite the first one</a>.</td></tr>\n")
    ∷ []

-- invite-result.html and message.html
abbrev result_texts : List Text
result_texts =
    lit "created</span>"
    ∷ lit "<span class=\"stat muted\">"
    ∷ lit "skipped</span>"
    ∷ lit "failed</span>"
    ∷ lit "    <td class=\"muted\">"
    ∷ lit "  </tr>\n"
    ∷ lit "\n<h1>Invite results</h1>\n"
    ∷ lit "  <strong>"
    ∷ lit "</strong> of "
    ∷ lit " created.\n"
    ∷ lit "A welcome email was sent to each new account.\n"
    ∷ (lit "No emails were sent "
        ++ em_dash
        ++ lit " the accounts exist but have no password yet.\n")
    ∷ lit "  Ask each person to go to <a href=\""
    ∷ lit "</a>, click\n"
    ∷ lit
        "  <em>Reset password?</em>, and follow the email, whenever you're ready to onboard them.\n"
    ∷ lit "<div class=\"table-wrap\">\n"
    ∷ lit "  <tr><th>Email</th><th>Result</th><th>Detail</th></tr>\n"
    ∷ (lit "<p><a href=\"/invite\">Invite more</a> "
        ++ middle_dot
        ++ lit " <a href=\"/\">Back to users</a></p>\n")
    ∷ lit "</h1>\n"
    ∷ lit "</p>"
    ∷ lit "<div class=\"notice\">"
    ∷ lit "\n<p><a href=\"/\">Back to the user list</a></p>\n"
    ∷ []

unfoldable pub template_texts : List Text
template_texts = frame_texts ++ form_texts ++ report_texts ++ result_texts
