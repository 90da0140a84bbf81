-- ===== src/Server/Templates/Laws.antt =====
-- Data stays data in the pages of internal/server/templates: it adds no markup, and a browser that
-- reads the character references shows it as it is.
use vps_user_portal.Server.Templates.{escape_byte, escape}
use vps_user_portal.Text.{Text, lit, same}
use vps_user_portal.Base.{
  Bool, Option, All, [], ◌∷◌, ◌++◌, ◌==◌, ◌||◌, ◌≡◌, ◌≢◌, if◌then◌else◌, none, some, refl, ap, ap₂,
  ◌∙◌, arith, ℕ,
}

-- The bytes that end a text, a tag or an attribute.
is_delimiter : ℕ → Bool
is_delimiter c = c == b'<' || c == b'>' || c == b'"' || c == b'\''

pub delimiters : Text → Text
unfolding is_delimiter
delimiters [] = []
delimiters (c ∷ s) = if is_delimiter c then c ∷ delimiters s else delimiters s

delimiters-append : (s t : Text) → delimiters (s ++ t) ≡ delimiters s ++ delimiters t
unfolding delimiters is_delimiter
delimiters-append [] t = refl
delimiters-append (c ∷ s) t = ground (arith, delimiters-append s t)

delimiters-escape_byte : (c : ℕ) → delimiters (escape_byte c) ≡ []
unfolding delimiters escape_byte is_delimiter
delimiters-escape_byte c = ground arith

pub delimiters-escape : (s : Text) → delimiters (escape s) ≡ []
unfolding escape delimiters
delimiters-escape [] = refl
delimiters-escape (c ∷ s) =
    delimiters-append (escape_byte c) (escape s)
    ∙ ap₂ ◌++◌ (delimiters-escape_byte c) (delimiters-escape s)

-- The character references that a page has for data
named : Text → Text
named name =
    if same name (lit "#34")
    then b'"' ∷ []
    else if same name (lit "amp")
    then b'&' ∷ []
    else if same name (lit "#39")
    then b'\'' ∷ []
    else if same name (lit "#43")
    then b'+' ∷ []
    else if same name (lit "lt")
    then b'<' ∷ []
    else if same name (lit "gt")
    then b'>' ∷ []
    else b'&' ∷ name ++ b';' ∷ []

-- A reader of HTML; the first argument is the name of the reference that it is in.
read : Option Text → Text → Text
unfolding named
read none [] = []
read (some name) [] = b'&' ∷ name
read none (c ∷ s) =
    let reference = read (some []) s in
    let rest = read none s in if c == b'&' then reference else c ∷ rest
read (some name) (c ∷ s) =
    let ended = read none s in
    let longer = read (some (name ++ c ∷ [])) s in if c == b';' then named name ++ ended else longer

pub decode : Text → Text
unfolding read
decode s = read none s

read-escape_byte :
    (c : ℕ) (rest : Text) → c ≢ 0 → read none (escape_byte c ++ rest) ≡ c ∷ read none rest
unfolding read escape_byte same
read-escape_byte c rest h = ground arith

-- Data without NUL bytes is read back as it is.
pub decode-escape : (s : Text) → All (λ c. c ≢ 0) s → decode (escape s) ≡ s
unfolding decode escape
decode-escape [] h = refl
decode-escape (c ∷ s) h = read-escape_byte c (escape s) h.0 ∙ ap (λ t. c ∷ t) (decode-escape s h.1)
