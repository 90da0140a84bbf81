-- ===== src/Planka/Database/Laws.antt =====
-- The constraint on the column `email`, and what the statements do with the account of an email.
use vps_user_portal.Planka.Database.{Row, has_email, update_rows}
use vps_user_portal.Text.{Text, same, same_iff, same_comm}
use vps_user_portal.Base.{
  List, Option, ◌∷◌, none, ◌≡◌, some, ◌++◌, false, if◌then◌else◌, [], arith, ◌||◌, refl,
}

-- The unique constraint on `email`.
abbrev pub IsUnique : List Row → Type 0
IsUnique [] = Unit
IsUnique (r ∷ rs) = (has_email r.email rs ≡ false) × IsUnique rs

-- The account of an email.
unfoldable pub account : Text → List Row → Option Row
account e [] = none
account e (r ∷ rs) = if same r.email e then some r else account e rs

-- The new row keeps the email.
abbrev pub KeepsEmail : (Row → Row) → Type 0
KeepsEmail f = (r : Row) → (f r).email ≡ r.email

abbrev pub on_account {ℓ κ} : {A : Type ℓ} {B : Type κ} → (A → B) → Option A → Option B
on_account f none = none
on_account f (some a) = some (f a)

pub has_email-append :
    (e : Text) (rows : List Row) (r : Row)
    → has_email e (rows ++ r ∷ []) ≡ (has_email e rows || same r.email e)
unfolding has_email
has_email-append e [] r = ground arith
has_email-append e (s ∷ rows) r = ground (arith, has_email-append e rows r)

pub IsUnique-append :
    (rows : List Row) (r : Row)
    → IsUnique rows
    → has_email r.email rows ≡ false
    → IsUnique (rows ++ r ∷ [])
unfolding has_email
IsUnique-append [] r unique new = (refl, tt)
IsUnique-append (s ∷ rows) r unique new = ground (
  arith,
  has_email-append s.email rows r,
  same_comm s.email r.email,
  IsUnique-append rows r unique.1,
)

pub has_email-update_rows :
    (e : Text) (f : Row → Row)
    → KeepsEmail f
    → (k : Text) (rows : List Row) → has_email k (update_rows e f rows) ≡ has_email k rows
unfolding has_email update_rows
has_email-update_rows e f keeps k [] = refl
has_email-update_rows e f keeps k (r ∷ rows) =
    ground (arith, has_email-update_rows e f keeps k rows, keeps r)

pub IsUnique-update_rows :
    (e : Text) (f : Row → Row)
    → KeepsEmail f
    → (rows : List Row) → IsUnique rows
    → IsUnique (update_rows e f rows)
unfolding update_rows
IsUnique-update_rows e f keeps [] unique = tt
IsUnique-update_rows e f keeps (r ∷ rows) unique = ground (
  arith,
  has_email-update_rows e f keeps r.email rows,
  keeps r,
  IsUnique-update_rows e f keeps rows unique.1,
)

pub account-update_rows :
    (e : Text) (f : Row → Row)
    → KeepsEmail f
    → (k : Text) (rows : List Row)
    → account k (update_rows e f rows)
      ≡ (if same k e then on_account f (account k rows) else account k rows)
unfolding account update_rows
account-update_rows e f keeps k [] = ground arith
account-update_rows e f keeps k (r ∷ rows) = ground (
  arith,
  account-update_rows e f keeps k rows,
  keeps r,
  same_iff r.email e,
  same_iff k e,
  same_iff r.email k,
)

pub account-append :
    (k : Text) (rows : List Row) (r : Row)
    → has_email r.email rows ≡ false
    → account k (rows ++ r ∷ []) ≡ (if same r.email k then some r else account k rows)
unfolding account has_email
account-append k [] r new = refl
account-append k (s ∷ rows) r new = ground (
  arith,
  account-append k rows r,
  same_iff s.email k,
  same_iff r.email k,
  same_iff s.email r.email,
)
