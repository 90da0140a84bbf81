-- ===== src/Server/Templates/Own.antt =====
-- What the pages of internal/server/templates are made of: the templates' own texts, and data.
pub mod Frame
pub mod Pages
use vps_user_portal.Server.Templates.Texts.{template_texts}
use vps_user_portal.Server.Templates.{Piece, markup, datum, link, segment}
use vps_user_portal.Text.{Text, contains}
use mathlib.Core.List.{flat_map}
use vps_user_portal.Base.{
  Bool, List, [], ◌∷◌, ◌++◌, ◌&&◌, ◌≡◌, if◌then◌else◌, true, false, refl, and-eq-true, ap, subst, ℕ,
  zero, suc,
}

-- A text of the templates, or data
unfoldable pub is_own : Piece → Bool
unfolding contains template_texts
is_own (markup text) = contains template_texts text
is_own (datum text) = true
is_own (link url) = true
is_own (segment text) = true

unfoldable pub are_own : List Piece → Bool
unfolding is_own
are_own [] = true
are_own (p ∷ ps) = is_own p && are_own ps

-- Every piece is one of the templates' own texts, or data.
pub record AreOwn (ps : List Piece) : Type 0 where
  pub all : are_own ps ≡ true

are_own-append :
    (ps qs : List Piece) → are_own ps ≡ true → are_own qs ≡ true → are_own (ps ++ qs) ≡ true
unfolding are_own
are_own-append [] qs h e = e
are_own-append (p ∷ ps) qs h e =
    let (here, later) = and-eq-true (is_own p) (are_own ps) h in
    rw (here, are_own-append ps qs later e) refl

infixl 5 ◌⊕◌
-- Two runs of pieces, one behind the other
pub ◌⊕◌ : {ps qs : List Piece} → AreOwn ps → AreOwn qs → AreOwn (ps ++ qs)
◌⊕◌ {ps} {qs} h e = record { all = are_own-append ps qs h.all e.all }

pub if-AreOwn :
    (b : Bool) {ps qs : List Piece} → AreOwn ps → AreOwn qs → AreOwn (if b then ps else qs)
if-AreOwn true h e = h
if-AreOwn false h e = e

none-AreOwn : AreOwn []
unfolding are_own
none-AreOwn = record { all = refl }

pub flat_map-AreOwn :
    {A : Type 0} (write : A → List Piece)
    → ((x : A) → AreOwn (write x))
    → (xs : List A) → AreOwn (flat_map write xs)
unfolding flat_map
flat_map-AreOwn write h [] = none-AreOwn
flat_map-AreOwn write h (x ∷ xs) = h x ⊕ flat_map-AreOwn write h xs

pub texts-AreOwn : {ps : List Piece} → are_own ps ≡ true → AreOwn ps
texts-AreOwn h = record { all = h }

abbrev pub leading : ℕ → List Piece → List Piece
leading zero ps = []
leading (suc n) [] = []
leading (suc n) (p ∷ ps) = p ∷ leading n ps

abbrev pub following : ℕ → List Piece → List Piece
following zero ps = ps
following (suc n) [] = []
following (suc n) (p ∷ ps) = following n ps

leading-following : (n : ℕ) (ps : List Piece) → leading n ps ++ following n ps ≡ ps
leading-following zero ps = refl
leading-following (suc n) [] = refl
leading-following (suc n) (p ∷ ps) = ap (λ qs. p ∷ qs) (leading-following n ps)

-- The first pieces, and what follows
pub leading-AreOwn :
    (n : ℕ) {ps : List Piece} → are_own (leading n ps) ≡ true → AreOwn (following n ps) → AreOwn ps
leading-AreOwn n {ps} h e = subst AreOwn (leading-following n ps) (texts-AreOwn h ⊕ e)
