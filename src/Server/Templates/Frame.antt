-- ===== src/Server/Templates/Frame.antt =====
-- internal/server/templates/base.html: the icons, and what stands before and behind every page.
use vps_user_portal.Server.Templates.{Piece, markup, datum}
use vps_user_portal.Text.{Text, lit}
use vps_user_portal.Base.{Bool, List, [], ◌∷◌, ◌++◌, false, true}

unfoldable pub icon_users : List Piece
icon_users =
    (markup (
        lit
          "<svg class=\"icon\" viewBox=\"0 0 24 24\" fill=\"none\" stroke=\"currentColor\" stroke-width=\"2\" stroke-linecap=\"round\" stroke-linejoin=\"round\" aria-hidden=\"true\"><path d=\"M17 21v-2a4 4 0 0 0-4-4H5a4 4 0 0 0-4 4v2\"/><circle cx=\"9\" cy=\"7\" r=\"4\"/><path d=\"M23 21v-2a4 4 0 0 0-3-3.87\"/><path d=\"M16 3.13a4 4 0 0 1 0 7.75\"/></svg>")
      ∷ [])

unfoldable pub icon_user_plus : List Piece
icon_user_plus =
    (markup (
        lit
          "<svg class=\"icon\" viewBox=\"0 0 24 24\" fill=\"none\" stroke=\"currentColor\" stroke-width=\"2\" stroke-linecap=\"round\" stroke-linejoin=\"round\" aria-hidden=\"true\"><path d=\"M16 21v-2a4 4 0 0 0-4-4H6a4 4 0 0 0-4 4v2\"/><circle cx=\"9\" cy=\"7\" r=\"4\"/><line x1=\"19\" y1=\"8\" x2=\"19\" y2=\"14\"/><line x1=\"22\" y1=\"11\" x2=\"16\" y2=\"11\"/></svg>")
      ∷ [])

unfoldable pub icon_check : List Piece
icon_check =
    (markup (
        lit
          "<svg class=\"icon\" viewBox=\"0 0 24 24\" fill=\"none\" stroke=\"currentColor\" stroke-width=\"2.5\" stroke-linecap=\"round\" stroke-linejoin=\"round\" aria-hidden=\"true\"><polyline points=\"20 6 9 17 4 12\"/></svg>")
      ∷ [])

unfoldable pub icon_dash : List Piece
icon_dash =
    (markup (
        lit
          "<svg class=\"icon\" viewBox=\"0 0 24 24\" fill=\"none\" stroke=\"currentColor\" stroke-width=\"2.5\" stroke-linecap=\"round\" aria-hidden=\"true\"><line x1=\"5\" y1=\"12\" x2=\"19\" y2=\"12\"/></svg>")
      ∷ [])

unfoldable pub icon_x : List Piece
icon_x =
    (markup (
        lit
          "<svg class=\"icon\" viewBox=\"0 0 24 24\" fill=\"none\" stroke=\"currentColor\" stroke-width=\"2.5\" stroke-linecap=\"round\" stroke-linejoin=\"round\" aria-hidden=\"true\"><line x1=\"18\" y1=\"6\" x2=\"6\" y2=\"18\"/><line x1=\"6\" y1=\"6\" x2=\"18\" y2=\"18\"/></svg>")
      ∷ [])

unfoldable pub head : Text → List Piece
unfolding icon_users icon_user_plus
head actor =
    ((markup (lit "<!doctype html>\n")
        ∷ markup (lit "<html lang=\"en\">\n")
        ∷ markup (lit "<head>\n")
        ∷ markup (lit "  <meta charset=\"utf-8\">\n")
        ∷ markup
            (lit "  <meta name=\"viewport\" content=\"width=device-width, initial-scale=1\">\n")
        ∷ markup (lit "  <meta name=\"robots\" content=\"noindex\">\n")
        ∷ markup (lit "  <title>User portal</title>\n")
        ∷ markup (
            lit
              "  <link rel=\"icon\" href=\"data:image/svg+xml;base64,PHN2ZyB4bWxucz0naHR0cDovL3d3dy53My5vcmcvMjAwMC9zdmcnIHZpZXdCb3g9JzAgMCAyNCAyNCc+PHJlY3Qgd2lkdGg9JzI0JyBoZWlnaHQ9JzI0JyByeD0nNScgZmlsbD0nIzA3NTdiYScvPjxjaXJjbGUgY3g9JzEyJyBjeT0nOScgcj0nMy4zJyBmaWxsPScjZmZmJy8+PHBhdGggZD0nTTUuNSAxOWE2LjUgNi41IDAgMCAxIDEzIDBaJyBmaWxsPScjZmZmJy8+PC9zdmc+\">\n")
        ∷ markup (lit "  <link rel=\"stylesheet\" href=\"/static/style.css\">\n")
        ∷ markup (lit "</head>\n")
        ∷ markup (lit "<body>\n")
        ∷ markup (lit "<header>\n")
        ∷ markup (lit "  <nav>\n")
        ∷ markup (lit "    <a href=\"/\" class=\"brand\">")
        ∷ [])
      ++ icon_users
      ++ (markup (lit "<span>User portal</span></a>\n")
          ∷ markup (lit "    <a href=\"/invite\" class=\"navlink\">")
          ∷ [])
      ++ icon_user_plus
      ++ (markup (lit "<span>Invite</span></a>\n")
          ∷ markup (lit "    <span class=\"actor\">")
          ∷ datum actor
          ∷ markup (lit "</span>\n")
          ∷ markup (lit "  </nav>\n")
          ∷ markup (lit "</header>\n")
          ∷ markup (lit "<main>\n")
          ∷ []))

unfoldable pub foot : List Piece
foot = (markup (lit "\n</main>\n") ∷ markup (lit "</body>\n") ∷ markup (lit "</html>\n") ∷ [])

unfoldable pub later_each : {A : Type 0} → (Bool → A → List Piece) → List A → List Piece
later_each write [] = []
later_each write (x ∷ xs) = write true x ++ later_each write xs

-- `range` with an index, which the pages only test for zero
unfoldable pub each : {A : Type 0} → (Bool → A → List Piece) → List A → List Piece
unfolding later_each
each write [] = []
each write (x ∷ xs) = write false x ++ later_each write xs
