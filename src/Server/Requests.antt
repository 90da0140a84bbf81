-- ===== src/Server/Requests.antt =====
-- The guard of internal/server/server.go: `requireAdmin`, `splitGroups` and `selectedGroups`.
pub mod Laws
use vps_user_portal.Config.{Config}
use vps_user_portal.Text.Filled.{keep_filled}
use vps_user_portal.Text.Order.{sort}
use vps_user_portal.Text.Parts.{trim_space, split}
use vps_user_portal.Text.{Text, same, contains}
use vps_user_portal.Base.{
  ◌>>◌, ◌>>=◌, List, ◌∷◌, Outcome, if◌then◌else◌, is_empty, [], require, ◌||◌, not, ◌&&◌, ok,
}

pub record Identity : Type 0 where
  pub user : Text
  pub email : Text
  pub groups : List Text

-- The headers that the guard reads; a header that is not there is empty.
pub record Headers : Type 0 where
  pub portal_auth : Text
  pub remote_user : Text
  pub remote_email : Text
  pub remote_groups : Text

pub data Refusal : Type 0 where
  forbidden not_behind_guard : Refusal

unfoldable pub split_groups : Text → List Text
unfolding split keep_filled
split_groups v = keep_filled (split v b',')

unfoldable pub identity_of : Headers → Identity
unfolding trim_space split_groups
identity_of h = record {
  user = trim_space h.remote_user;
  email = trim_space h.remote_email;
  groups = split_groups h.remote_groups;
}

-- What the wrapped handler gets, or the refusal that is written instead.
unfoldable pub require_admin : Config → Headers → Outcome Refusal Identity
unfolding identity_of same contains
require_admin cfg h = do
  require (is_empty cfg.shared_secret || same h.portal_auth cfg.shared_secret) forbidden
  require (not (is_empty (identity_of h).user) && contains (identity_of h).groups cfg.admin_group)
      not_behind_guard
  ok (identity_of h)

pick : List Text → List Text → List Text
unfolding contains
pick allowed [] = []
pick allowed (g ∷ gs) = let rest = pick allowed gs in if contains allowed g then g ∷ rest else rest

unfoldable pub selected_groups : Config → List Text → List Text
unfolding pick sort
selected_groups cfg posted = sort (pick cfg.groups posted)
