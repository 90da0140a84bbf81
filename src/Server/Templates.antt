-- ===== src/Server/Templates.antt =====
-- The pages of internal/server/templates, as html/template writes them: the template's own text, with
-- data escaped for the place where it stands.
pub mod Laws
pub mod Frame
pub mod Forms
pub mod Reports
pub mod Results
pub mod Page
pub mod Texts
pub mod Own
pub mod Inert
use vps_user_portal.Text.Parts.{cut}
use vps_user_portal.Text.Case.{Unicode, equal_fold}
use vps_user_portal.Text.{Text, lit}
use vps_user_portal.Base.{
  Bool, List, [], ◌∷◌, ◌++◌, ◌==◌, ◌||◌, ◌&&◌, ◌+◌, ◌/◌, ◌%◌, if◌then◌else◌, ltb, leb, true, false,
  not, ℕ, ◌-◌,
}

-- A part of a page: the template's text, or data: between tags, in a quoted attribute or in a text
-- area; as the whole of a URL in an attribute; or in the path of such a URL.
pub data Piece : Type 0 where
  markup datum link segment : Text → Piece

-- What html/template writes for a byte of data.
unfoldable pub escape_byte : ℕ → Text
escape_byte c =
    if c == 0
    then 0xEF ∷ 0xBF ∷ 0xBD ∷ []
    else if c == b'"'
    then lit "&#34;"
    else if c == b'&'
    then lit "&amp;"
    else if c == b'\''
    then lit "&#39;"
    else if c == b'+'
    then lit "&#43;"
    else if c == b'<'
    then lit "&lt;"
    else if c == b'>'
    then lit "&gt;"
    else c ∷ []

unfoldable pub escape : Text → Text
unfolding escape_byte
escape [] = []
escape (c ∷ s) = escape_byte c ++ escape s

is_letter_or_digit : ℕ → Bool
is_letter_or_digit c =
    leb b'a' c && leb c b'z' || leb b'A' c && leb c b'Z' || leb b'0' c && leb c b'9'

is_hex : ℕ → Bool
is_hex c = leb b'0' c && leb c b'9' || leb b'a' c && leb c b'f' || leb b'A' c && leb c b'F'

-- The bytes that stay as they are in a URL, `%` aside
is_plain : ℕ → Bool
unfolding is_letter_or_digit
is_plain c =
    is_letter_or_digit c
    || c == b'-'
    || c == b'.'
    || c == b'_'
    || c == b'~'
    || c == b'!'
    || c == b'#'
    || c == b'$'
    || c == b'&'
    || c == b'*'
    || c == b'+'
    || c == b','
    || c == b'/'
    || c == b':'
    || c == b';'
    || c == b'='
    || c == b'?'
    || c == b'@'
    || c == b'['
    || c == b']'

hex_digit : ℕ → ℕ
hex_digit d = if ltb d 10 then b'0' + d else b'a' - 10 + d

-- A `%` in front of two hexadecimal digits is an escape already.
is_escaped : Text → Bool
unfolding is_hex
is_escaped [] = false
is_escaped (d ∷ []) = false
is_escaped (d ∷ e ∷ s) = is_hex d && is_hex e

-- The bytes of a URL
unfoldable pub normalise_url : Text → Text
unfolding is_plain hex_digit is_escaped
normalise_url [] = []
normalise_url (c ∷ s) =
    (if is_plain c || c == b'%' && is_escaped s
      then c ∷ []
      else b'%' ∷ hex_digit (c / 16) ∷ hex_digit (c % 16) ∷ [])
    ++ normalise_url s

has_slash : Text → Bool
has_slash [] = false
has_slash (c ∷ s) = c == b'/' || has_slash s

module _ ⦃unicode : Unicode⦄ where
  -- A scheme, if there is one, is one of three.
  unfoldable pub is_safe_url : Text → Bool
  unfolding cut has_slash equal_fold
  is_safe_url url =
      let (protocol, rest, found) = cut url b':' in
      not (found && not (has_slash protocol))
      || equal_fold protocol (lit "http")
      || equal_fold protocol (lit "https")
      || equal_fold protocol (lit "mailto")

  unfoldable pub write : Piece → Text
  unfolding is_safe_url normalise_url escape
  write (markup text) = text
  write (datum text) = escape text
  write (link url) = escape (normalise_url (if is_safe_url url then url else lit "#ZgotmplZ"))
  write (segment text) = escape (normalise_url text)

  unfoldable pub write_all : List Piece → Text
  unfolding write
  write_all [] = []
  write_all (p ∷ ps) = write p ++ write_all ps
