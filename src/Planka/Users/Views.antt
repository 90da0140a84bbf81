-- ===== src/Planka/Users/Views.antt =====
-- What the portal sees of an account: the answers of `Status` in
-- internal/provision/planka/planka.go after each of the other operations.
use vps_user_portal.Planka.Users.Laws.{deactivate-KeepsEmail}
use vps_user_portal.Planka.Users.Answers.{
  run_answered, or_error_ok, reported_ok, checked_ok, insert_new,
}
use vps_user_portal.Planka.Roles.{role_for, Provisioner}
use vps_user_portal.Text.Maps.{Dict, get, put, get-put}
use vps_user_portal.Text.{Text, contains, same, same_iff}
use vps_user_portal.Planka.Users.{
  collect, status, provision, sync, deprovision, reported, checked, deactivate, or_error, set_role,
  inserted, new_row, deactivate_failed, update_failed,
}
use vps_user_portal.Provision.{AppStatus, User}
use vps_user_portal.Text.Case.{Unicode, to_lower}
use vps_user_portal.Base.{
  Option, List, some, true, All, none, ◌≡◌, if◌then◌else◌, false, is_empty, ◌∷◌, arith, [], ok,
  refl, map, ◌⊎◌, ◌+◌, Bool-cases, inl, inr, ap, ℕ, sym, ◌∙◌, suc, subst, fun_ext,
}
use vps_user_portal.Planka.Database.Laws.{
  account, IsUnique, on_account, KeepsEmail, account-update_rows, account-append,
}
use vps_user_portal.Planka.Database.{
  Row, Around, matching, has_email, Database, run, settle, select_matching, select_exists, update,
  insert, update_rows,
}

abbrev pub seen : Row → AppStatus
seen r = record { present = true; role = r.role; deactivated = r.is_deactivated }

-- The database stores emails lowercased.
abbrev pub IsLowered : Around → List Row → Type 0
IsLowered around = All (λ r. around.lower r.email ≡ r.email)

account-none : (e : Text) (rows : List Row) → has_email e rows ≡ false → account e rows ≡ none
unfolding account has_email
account-none e [] h = refl
account-none e (r ∷ rs) h = ground (arith, account-none e rs)

abbrev first_of {ℓ} : {A : Type ℓ} → Option A → Option A → Option A
first_of none o = o
first_of (some a) o = some a

first_of-none {ℓ} : {A : Type ℓ} (o : Option A) → first_of o none ≡ o
first_of-none none = refl
first_of-none (some a) = refl

get-collect-matching :
    (around : Around) (es : List Text) (e : Text) (rows : List Row) (out : Dict AppStatus)
    → contains es e ≡ true
    → IsLowered around rows
    → IsUnique rows
    → get (collect (matching around.lower es rows) out) e
      ≡ first_of (on_account seen (account e rows)) (get out e)
unfolding matching collect account
get-collect-matching around es e [] out asked lowered unique = refl
get-collect-matching around es e (r ∷ rs) out asked lowered unique = ground (
  arith,
  get-collect-matching around es e rs out asked lowered.1 unique.1,
  get-collect-matching around es e rs (put out r.email (seen r)) asked lowered.1 unique.1,
  lowered.0,
  unique.0,
  account-none r.email rs,
  same_iff r.email e,
  get-put out r.email e (seen r),
)

module _ ⦃unicode : Unicode⦄ (around : Around) (p : Provisioner) where
  -- The table as the statement of a number finds it.
  abbrev pub found : Database → List Row
  found d = around.others d.count d.rows

  -- An answer of `Status` tells the truth: where emails are stored lowercased and none twice when the
  -- query runs, the entry of each email asked for is the account that has it, with its role and
  -- whether it is deactivated, and there is no entry where there is no account.
  pub status_sound :
      (emails : List Text) (d after : Database) (out : Dict AppStatus)
      → status around p emails d ≡ (after, ok out)
      → IsLowered around (found d)
      → IsUnique (found d)
      → (e : Text) → contains (map to_lower emails) e ≡ true
      → get out e ≡ on_account seen (account e (found d))
  unfolding status run settle select_matching reported get
  status_sound emails d after out answered lowered unique e asked =
      let (rs, ran, gathered) =
        reported_ok (run around (select_matching around.lower (map to_lower emails)) d) answered in
      let (rows, selected) =
        run_answered around (select_matching around.lower (map to_lower emails)) d ran in
      ap (λ m. get m e) (gathered ∙ ap (λ x. collect x []) (sym selected))
      ∙ get-collect-matching around (map to_lower emails) e (found d) [] asked lowered unique
      ∙ first_of-none (on_account seen (account e (found d)))

  abbrev wanted : User → ℕ → Row
  wanted u = new_row (to_lower u.email) u.display_name u.username (role_for p u.groups)

  created :
      (u : User) (d after : Database) (n : ℕ)
      → (run around (select_exists (to_lower u.email)) d).1 ≡ some false
      → run around (insert (wanted u)) (run around (select_exists (to_lower u.email)) d).0
        ≡ (after, some (suc n))
      → (account (to_lower u.email) (around.others (d.count + 1) (found d)) ≡ none)
        × ((k : Text)
            → account k after.rows ≡ (
                if same (to_lower u.email) k
                then some (wanted u (around.now (d.count + 1)))
                else account k (around.others (d.count + 1) (found d))))
  unfolding select_exists new_row
  created u d after n free ran =
      let e = to_lower u.email in
      let (asked, fresh) =
        run_answered around (select_exists e) d {after = (run around (select_exists e) d).0}
          (ap (λ x. ((run around (select_exists e) d).0, x)) free) in
      let before = around.others (d.count + 1) (found d) in
      let now = around.now (d.count + 1) in
      let (rows, made) =
        run_answered around (insert (wanted u)) (record { rows = found d; count = d.count + 1 })
          (subst (λ x. run around (insert (wanted u)) x ≡ (after, some (suc n))) asked ran) in
      let (new, added) = insert_new (wanted u) now before made in
      (
        account-none e before new,
        λ k.
            ap (λ x. account k x.rows) rows
            ∙ ap (account k) added
            ∙ account-append k before (wanted u now) new,
      )

  -- Where `Provision` succeeds for a user whose groups give a role, the email had no account when the
  -- row was inserted; it now has the row with that role, for SSO only, active and without a
  -- password, and every other email has the account that it had. Where the groups give none, the
  -- table is as it was.
  pub provision_sound :
      (u : User) (d after : Database)
      → provision around p u d ≡ (after, ok tt)
      → ((is_empty (role_for p u.groups) ≡ true) × (after ≡ d))
        ⊎ ((account (to_lower u.email) (around.others (d.count + 1) (found d)) ≡ none)
            × ((k : Text)
                → account k after.rows ≡ (
                    if same (to_lower u.email) k
                    then some (
                        new_row
                          (to_lower u.email)
                          u.display_name
                          u.username
                          (role_for p u.groups)
                          (around.now (d.count + 1)))
                    else account k (around.others (d.count + 1) (found d)))))
  unfolding provision run settle select_exists checked insert inserted
  provision_sound u d after succeeded = elim (Bool-cases (is_empty (role_for p u.groups))) [
    | inl outside ↦ inl (outside, sym (ap (λ q. q.0) (rw outside at succeeded)))
    | inr inside ↦
        let (n, free, ran) =
          checked_ok around (to_lower u.email) (wanted u)
            (run around (select_exists (to_lower u.email)) d) (rw inside at succeeded) in
        inr (created u d after n free ran)
  ]

  -- The account that `Sync` makes of one, by the role that the groups give.
  abbrev pub reconciled : User → Row → Row
  reconciled u r =
      if is_empty (role_for p u.groups) then deactivate r else set_role (role_for p u.groups) r

  reconciled-KeepsEmail : (u : User) → KeepsEmail (reconciled u)
  unfolding set_role deactivate
  reconciled-KeepsEmail u r = ground arith

  reconciled_rows :
      (u : User) (d after : Database) (f : Row → Row)
      → reconciled u ≡ f
      → after ≡ record { rows = update_rows (to_lower u.email) f (found d); count = d.count + 1 }
      → (k : Text)
      → account k after.rows ≡ (
          if same k (to_lower u.email)
          then on_account (reconciled u) (account k (found d))
          else account k (found d))
  reconciled_rows u d after f alike rows k =
      ap (λ x. account k x.rows) rows
      ∙ ap (λ g. account k (update_rows (to_lower u.email) g (found d))) (sym alike)
      ∙ account-update_rows (to_lower u.email) (reconciled u) (reconciled-KeepsEmail u) k (found d)

  -- Where `Sync` succeeds, the account of the user's email has the role that the groups give and is
  -- active, or keeps its role and is deactivated if they give none; there is no account where there
  -- was none, and every other email has the account that it had.
  pub sync_sound :
      (u : User) (d after : Database)
      → sync around p u d ≡ (after, ok tt)
      → (k : Text)
      → account k after.rows ≡ (
          if same k (to_lower u.email)
          then on_account (reconciled u) (account k (found d))
          else account k (found d))
  unfolding sync run settle update or_error
  sync_sound u d after succeeded k = elim (Bool-cases (is_empty (role_for p u.groups))) [
    | inl outside ↦
        let (rows, u') =
          run_answered around (update (to_lower u.email) deactivate) d
            (or_error_ok deactivate_failed _ (rw outside at succeeded)) in
        reconciled_rows u d after deactivate (fun_ext (λ r. rw outside refl)) rows k
    | inr inside ↦
        let (rows, u') =
          run_answered around (update (to_lower u.email) (set_role (role_for p u.groups))) d
            (or_error_ok update_failed _ (rw inside at succeeded)) in
        reconciled_rows u d after (set_role (role_for p u.groups)) (fun_ext (λ r. rw inside refl))
          rows k
  ]

  -- Where `Deprovision` succeeds, the account of the user's email, if there is one, is deactivated and
  -- is otherwise what it was, and every other email has the account that it had.
  pub deprovision_sound :
      (u : User) (d after : Database)
      → deprovision around p u d ≡ (after, ok tt)
      → (k : Text)
      → account k after.rows ≡ (
          if same k (to_lower u.email)
          then on_account deactivate (account k (found d))
          else account k (found d))
  unfolding deprovision run settle update or_error
  deprovision_sound u d after succeeded k =
      let (rows, u') =
        run_answered around (update (to_lower u.email) deactivate) d
          (or_error_ok deactivate_failed _ succeeded) in
      ap (λ x. account k x.rows) rows
      ∙ account-update_rows (to_lower u.email) deactivate deactivate-KeepsEmail k (found d)
