-- ===== src/Server/Requests/Laws.antt =====
-- Who gets past the guard of internal/server/server.go, and which groups a form can grant.
use vps_user_portal.Text.Filled.{Filled, keep_filled-Filled}
use vps_user_portal.Text.Order.{contains-sort}
use vps_user_portal.Text.Parts.{split}
use vps_user_portal.Base.{
  is_empty, List, ◌≡◌, All, ◌||◌, false, ◌∷◌, [], ok, ◌&&◌, arith, ◌⊎◌, true, bind-eq-ok, inl,
  require, ◌∙◌, inr, refl, not, and-eq-true, require-eq-ok, subst, ok_injective,
}
use vps_user_portal.Server.Requests.{
  identity_of, require_admin, pick, selected_groups, Headers, split_groups, Identity, forbidden,
  not_behind_guard,
}
use vps_user_portal.Config.{Config}
use vps_user_portal.Text.{Text, contains, same, same_iff}

-- What a handler behind the guard can rely on.
abbrev pub IsAdmin : Config → Headers → Identity → Type 0
IsAdmin cfg h id =
    ((cfg.shared_secret ≡ []) ⊎ (h.portal_auth ≡ cfg.shared_secret))
    × (is_empty id.user ≡ false)
    × (contains id.groups cfg.admin_group ≡ true)
    × All Filled id.groups
    × (id ≡ identity_of h)

split_groups-Filled : (h : Headers) → All Filled (identity_of h).groups
unfolding identity_of split_groups
split_groups-Filled h = keep_filled-Filled (split h.remote_groups b',')

secret_lem :
    (secret got : Text)
    → (is_empty secret || same got secret) ≡ true
    → (secret ≡ []) ⊎ (got ≡ secret)
secret_lem [] got h = inl refl
secret_lem (c ∷ secret) got h = inr ((same_iff got (c ∷ secret)).0 h)

-- A request reaches the handler only if it carries the shared secret, where one is configured, with a
-- user that is not blank and the administrators' group among its groups, none of which is blank.
pub require_admin-IsAdmin :
    (cfg : Config) (h : Headers) {id : Identity} → require_admin cfg h ≡ ok id → IsAdmin cfg h id
unfolding require_admin
require_admin-IsAdmin cfg h e =
    let (u, proved, rest) =
      bind-eq-ok
        (require (is_empty cfg.shared_secret || same h.portal_auth cfg.shared_secret) forbidden) _
        e in
    let (u', admin, whole) =
      bind-eq-ok
        (require
          (not (is_empty (identity_of h).user) && contains (identity_of h).groups cfg.admin_group)
          not_behind_guard)
        _ rest in
    let (named, member) =
      and-eq-true (not (is_empty (identity_of h).user))
        (contains (identity_of h).groups cfg.admin_group) (require-eq-ok _ _ admin) in
    subst (IsAdmin cfg h) (ok_injective whole) (
      secret_lem cfg.shared_secret h.portal_auth (require-eq-ok _ _ proved),
      ground (arith),
      member,
      split_groups-Filled h,
      refl,
    )

contains-pick :
    (allowed gs : List Text) (g : Text)
    → contains (pick allowed gs) g ≡ (contains gs g && contains allowed g)
unfolding pick contains
contains-pick allowed [] g = refl
contains-pick allowed (x ∷ gs) g = ground (arith, contains-pick allowed gs g, same_iff x g)

-- A group is selected exactly if it was posted and is one of the configured ones, so a form cannot
-- bring an unknown group into the users file.
pub selected_groups_iff :
    (cfg : Config) (posted : List Text) (g : Text)
    → contains (selected_groups cfg posted) g ≡ (contains posted g && contains cfg.groups g)
unfolding selected_groups
selected_groups_iff cfg posted g =
    contains-sort g (pick cfg.groups posted) ∙ contains-pick cfg.groups posted g
