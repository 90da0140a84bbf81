-- ===== src/Server/Templates/Inert.antt =====
-- The pages that `render` of internal/server/templates.go writes.
use vps_user_portal.Server.Templates.Texts.{template_texts}
use vps_user_portal.Server.Templates.Laws.{delimiters}
use vps_user_portal.Text.{Text, contains}
use vps_user_portal.Base.{◌≡◌, ◌⊎◌, List, All, [], ◌∷◌, ◌++◌, true}

-- A text of the templates as it stands in its file, or a text without angle brackets and quotation
-- marks
abbrev pub Harmless : Text → Type 0
Harmless s = (contains template_texts s ≡ true) ⊎ (delimiters s ≡ [])

abbrev joined : List Text → Text
joined [] = []
joined (s ∷ ss) = s ++ joined ss

-- The page is made of such parts.
pub record IsInert (page : Text) : Type 0 where
  pub parts : List Text
  pub whole : joined parts ≡ page
  pub harmless : All Harmless parts
