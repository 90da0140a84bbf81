-- ===== src/Planka/Database.antt =====
-- The statements that internal/provision/planka/planka.go runs against the table `user_account`.
-- Other clients may write before each statement, and a statement may be refused, or done with its
-- answer lost. Only the columns that the provisioner writes or relies on are kept.
pub mod Laws
use vps_user_portal.Base.{
  ℕ, List, Option, Bool, ◌+◌, if◌then◌else◌, ◌∷◌, some, false, ◌++◌, [], none, ◌||◌,
}
use vps_user_portal.Text.{Text, contains, same}

pub record Row : Type 0 where
  pub email : Text
  pub name : Text
  pub username : Text
  pub role : Text
  pub is_sso_user : Bool
  pub is_deactivated : Bool
  pub subscribe_to_own_cards : Bool
  pub subscribe_to_card_when_commenting : Bool
  pub turn_off_recent_card_highlighting : Bool
  pub enable_favorites_by_default : Bool
  pub default_editor_mode : Text
  pub default_home_view : Text
  pub default_projects_order : Text
  pub created_at : ℕ
  pub password : Option Text

pub data Fate : Type 0 where
  done refused lost : Fate

-- What happens around the statement of a number: what other clients do before it, how it fares, and
-- the time it reads; `lower` is the database's own function.
pub record Around : Type 0 where
  pub others : ℕ → List Row → List Row
  pub fate : ℕ → Fate
  pub now : ℕ → ℕ
  pub lower : Text → Text

-- The table, and the number of statements run so far.
pub record Database : Type 0 where
  pub rows : List Row
  pub count : ℕ

abbrev pub Statement : Type 0 → Type 0
Statement A = ℕ → List Row → List Row × A

unfoldable pub settle {ℓ} : {A : Type ℓ} → Fate → ℕ → List Row → List Row × A → Database × Option A
settle done n before (after, a) = (record { rows = after; count = n + 1 }, some a)
settle refused n before (after, a) = (record { rows = before; count = n + 1 }, none)
settle lost n before (after, a) = (record { rows = after; count = n + 1 }, none)

unfoldable pub run : {A : Type 0} → Around → Statement A → Database → Database × Option A
unfolding settle
run around s d =
    let before = around.others d.count d.rows in
    settle (around.fate d.count) d.count before (s (around.now d.count) before)

unfoldable pub has_email : Text → List Row → Bool
has_email e [] = false
has_email e (r ∷ rs) = same r.email e || has_email e rs

-- `SELECT EXISTS (SELECT 1 FROM user_account WHERE email = $1)`
unfoldable pub select_exists : Text → Statement Bool
unfolding has_email
select_exists e now rows = (rows, has_email e rows)

-- `INSERT … ON CONFLICT (email) DO NOTHING`, with the number of rows it made.
unfoldable pub insert : (ℕ → Row) → Statement ℕ
unfolding has_email
insert make now rows =
    if has_email (make now).email rows then (rows, 0) else (rows ++ make now ∷ [], 1)

unfoldable pub update_rows : Text → (Row → Row) → List Row → List Row
update_rows e f [] = []
update_rows e f (r ∷ rs) = (if same r.email e then f r else r) ∷ update_rows e f rs

-- `UPDATE user_account SET … WHERE email = $1`
unfoldable pub update : Text → (Row → Row) → Statement (Unit {0})
unfolding update_rows
update e f now rows = (update_rows e f rows, tt)

unfoldable pub matching : (Text → Text) → List Text → List Row → List (Text × Text × Bool)
unfolding contains
matching lower es [] = []
matching lower es (r ∷ rs) =
    let rest = matching lower es rs in
    if contains es (lower r.email) then (lower r.email, r.role, r.is_deactivated) ∷ rest else rest

-- `SELECT lower(email), role, is_deactivated FROM user_account WHERE lower(email) = ANY($1)`
unfoldable pub select_matching : (Text → Text) → List Text → Statement (List (Text × Text × Bool))
unfolding matching
select_matching lower es now rows = (rows, matching lower es rows)
