-- ===== src/Server/Templates/Own/Frame.antt =====
-- The icons and the frame of internal/server/templates/base.html are of its own texts.
use vps_user_portal.Server.Templates.{Piece}
use vps_user_portal.Text.{Text}
use vps_user_portal.Server.Templates.Frame.{
  later_each, each, icon_users, icon_user_plus, icon_check, icon_dash, icon_x, head, foot,
}
use vps_user_portal.Server.Templates.Own.{are_own, AreOwn, texts-AreOwn, ◌⊕◌}
use vps_user_portal.Base.{refl, Bool, List, ◌∷◌, true, false, []}

pub icon_users-AreOwn : AreOwn icon_users
unfolding are_own icon_users
icon_users-AreOwn = texts-AreOwn refl

pub icon_user_plus-AreOwn : AreOwn icon_user_plus
unfolding are_own icon_user_plus
icon_user_plus-AreOwn = texts-AreOwn refl

pub icon_check-AreOwn : AreOwn icon_check
unfolding are_own icon_check
icon_check-AreOwn = texts-AreOwn refl

pub icon_dash-AreOwn : AreOwn icon_dash
unfolding are_own icon_dash
icon_dash-AreOwn = texts-AreOwn refl

pub icon_x-AreOwn : AreOwn icon_x
unfolding are_own icon_x
icon_x-AreOwn = texts-AreOwn refl

pub head-AreOwn : (actor : Text) → AreOwn (head actor)
unfolding are_own head icon_users icon_user_plus
head-AreOwn actor = texts-AreOwn refl

pub foot-AreOwn : AreOwn foot
unfolding are_own foot
foot-AreOwn = texts-AreOwn refl

later_each-AreOwn :
    {A : Type 0} (write : Bool → A → List Piece)
    → ((later : Bool) (x : A) → AreOwn (write later x))
    → (xs : List A) → AreOwn (later_each write xs)
unfolding later_each are_own
later_each-AreOwn write h [] = texts-AreOwn refl
later_each-AreOwn write h (x ∷ xs) = h true x ⊕ later_each-AreOwn write h xs

pub each-AreOwn :
    {A : Type 0} (write : Bool → A → List Piece)
    → ((later : Bool) (x : A) → AreOwn (write later x))
    → (xs : List A) → AreOwn (each write xs)
unfolding each are_own
each-AreOwn write h [] = texts-AreOwn refl
each-AreOwn write h (x ∷ xs) = h false x ⊕ later_each-AreOwn write h xs
