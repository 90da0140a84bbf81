-- ===== src/Planka/Users/Laws.antt =====
-- What `Provision`, `Sync` and `Deprovision` of internal/provision/planka/planka.go leave in the
-- table, whatever other clients do in between.
use vps_user_portal.Planka.Database.Laws.{
  KeepsEmail, IsUnique, IsUnique-update_rows, has_email-update_rows, IsUnique-append,
  has_email-append,
}
use vps_user_portal.Planka.Users.{
  Error, provision, sync, deprovision, new_row, or_error, checked, set_role, deactivate,
}
use vps_user_portal.Base.{
  ℕ, List, Bool-cases, refl, ◌≡◌, inl, Option, ◌∷◌, true, inr, ◌∙◌, some, Bool, [], none, is_empty,
  arith, false,
}
use vps_user_portal.Text.Case.{Unicode, to_lower}
use vps_user_portal.Provision.{User}
use vps_user_portal.Planka.Roles.{Provisioner, role_for}
use vps_user_portal.Text.{Text}
use vps_user_portal.Planka.Database.{
  Around, settle, run, insert, update, Fate, refused, lost, done, Statement, has_email, Row, done,
  Database, select_exists,
}

-- Other clients respect the constraint on `email`, and delete no account.
abbrev pub IsFair : Around → Type 0
IsFair around =
    (n : ℕ) (rows : List Row)
    → (IsUnique rows → IsUnique (around.others n rows))
      × ((e : Text) → has_email e rows ≡ true → has_email e (around.others n rows) ≡ true)

-- A table that obeys the constraint and has an account for the email.
abbrev pub IsKeeping : Text → List Row → Type 0
IsKeeping e rows = IsUnique rows × (has_email e rows ≡ true)

settle_keeps :
    (e : Text) {A : Type 0} (f : Fate) (n : ℕ) (before : List Row) (out : List Row × A)
    → IsKeeping e before
    → IsKeeping e out.0
    → IsKeeping e (settle f n before out).0.rows
unfolding settle
settle_keeps e done n before out h k = k
settle_keeps e refused n before out h k = h
settle_keeps e lost n before out h k = k

abbrev Keeps : Text → {A : Type 0} → Statement A → Type 0
Keeps e s = (now : ℕ) (rows : List Row) → IsKeeping e rows → IsKeeping e (s now rows).0

run-Keeps :
    (e : Text) (around : Around) {A : Type 0} (s : Statement A) (d : Database)
    → IsFair around
    → Keeps e s
    → IsKeeping e d.rows
    → IsKeeping e (run around s d).0.rows
unfolding run
run-Keeps e around s d fair keeps h =
    let both = fair d.count d.rows in
    let there : IsKeeping e (around.others d.count d.rows) = (both.0 h.0, both.1 e h.1) in
    settle_keeps e (around.fate d.count) d.count (around.others d.count d.rows) _ there
      (keeps (around.now d.count) (around.others d.count d.rows) there)

insert-Keeps : (e : Text) (make : ℕ → Row) → Keeps e (insert make)
unfolding insert has_email
insert-Keeps e make now rows h = elim (Bool-cases (has_email (make now).email rows)) [
  | inl taken ↦ rw taken h
  | inr new ↦
      rw new (
        IsUnique-append rows (make now) h.0 new,
        ground (arith, has_email-append e rows (make now)),
      )
]

update-Keeps : (e k : Text) (f : Row → Row) → KeepsEmail f → Keeps e (update k f)
unfolding update
update-Keeps e k f keeps now rows h =
    (IsUnique-update_rows k f keeps rows h.0, has_email-update_rows k f keeps e rows ∙ h.1)

or_error_rows : (e : Error) (out : Database × Option (Unit {0})) → (or_error e out).0 ≡ out.0
unfolding or_error
or_error_rows e (d, none) = refl
or_error_rows e (d, some u) = refl

checked_keeps :
    (e : Text) (around : Around) (email : Text) (make : ℕ → Row) (out : Database × Option Bool)
    → IsFair around
    → IsKeeping e out.0.rows
    → IsKeeping e (checked around email make out).0.rows
unfolding checked
checked_keeps e around email make (d, none) fair h = h
checked_keeps e around email make (d, some true) fair h = h
checked_keeps e around email make (d, some false) fair h =
    run-Keeps e around (insert make) d fair (insert-Keeps e make) h

set_role-KeepsEmail : (role : Text) → KeepsEmail (set_role role)
unfolding set_role
set_role-KeepsEmail role r = refl

pub deactivate-KeepsEmail : KeepsEmail deactivate
unfolding deactivate
deactivate-KeepsEmail r = refl

-- A call that the portal makes of the provisioner.
pub data Call : Type 0 where
  invited regrouped offboarded : User → Call

module _ ⦃unicode : Unicode⦄ (around : Around) (p : Provisioner) where
  abbrev pub perform : Call → Database → Database
  perform (invited u) d = (provision around p u d).0
  perform (regrouped u) d = (sync around p u d).0
  perform (offboarded u) d = (deprovision around p u d).0

  abbrev pub perform_all : List Call → Database → Database
  perform_all [] d = d
  perform_all (c ∷ cs) d = perform_all cs (perform c d)

  update-or_error_keeps :
      (e k : Text) (f : Row → Row) (failure : Error) (d : Database)
      → KeepsEmail f
      → IsFair around
      → IsKeeping e d.rows
      → IsKeeping e (or_error failure (run around (update k f) d)).0.rows
  update-or_error_keeps e k f failure d keeps fair h =
      rw (or_error_rows failure (run around (update k f) d))
        (run-Keeps e around (update k f) d fair (update-Keeps e k f keeps) h)

  perform_keeps :
      (e : Text) (c : Call) (d : Database)
      → IsFair around
      → IsKeeping e d.rows
      → IsKeeping e (perform c d).rows
  unfolding provision sync deprovision select_exists
  perform_keeps e (invited u) d fair h = elim (Bool-cases (is_empty (role_for p u.groups))) [
    | inl outside ↦ rw (outside, perform) h
    | inr inside ↦
        rw (inside, perform)
          (checked_keeps e around (to_lower u.email)
            (new_row (to_lower u.email) u.display_name u.username (role_for p u.groups))
            (run around (select_exists (to_lower u.email)) d) fair
            (run-Keeps e around (select_exists (to_lower u.email)) d fair (λ now rows k. k) h))
  ]
  perform_keeps e (regrouped u) d fair h = elim (Bool-cases (is_empty (role_for p u.groups))) [
    | inl outside ↦
        rw (outside, perform)
          (update-or_error_keeps e _ deactivate _ d deactivate-KeepsEmail fair h)
    | inr inside ↦
        rw (inside, perform)
          (update-or_error_keeps e _ (set_role (role_for p u.groups)) _ d
            (set_role-KeepsEmail (role_for p u.groups)) fair h)
  ]
  perform_keeps e (offboarded u) d fair h =
      update-or_error_keeps e _ deactivate _ d deactivate-KeepsEmail fair h

  -- If other clients respect the unique constraint on `email` and delete no account, then any
  -- sequence of `Provision`, `Sync` and `Deprovision` calls, whichever of their statements are
  -- refused or done with the answer lost, leaves no email twice, and an account that was there
  -- before is there after it.
  pub perform_all-IsKeeping :
      (e : Text) (cs : List Call) (d : Database)
      → IsFair around
      → IsUnique d.rows
      → has_email e d.rows ≡ true
      → IsUnique (perform_all cs d).rows × (has_email e (perform_all cs d).rows ≡ true)
  perform_all-IsKeeping e [] d fair unique there = (unique, there)
  perform_all-IsKeeping e (c ∷ cs) d fair unique there =
      let kept = perform_keeps e c d fair (unique, there) in
      perform_all-IsKeeping e cs (perform c d) fair kept.0 kept.1
