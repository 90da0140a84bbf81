-- ===== src/Server/Pages/Listed.antt =====
-- The list page of internal/server/server.go with Planka, of internal/provision/planka, as the app.
use vps_user_portal.Userstore.Store.{list_users}
use vps_user_portal.Server.Handlers.{World}
use vps_user_portal.Planka.Connected.{failed_of, Catalog, PlankaError, connected}
use vps_user_portal.Planka.Database.Laws.{on_account, IsUnique, account}
use vps_user_portal.Yaml.{Yaml}
use vps_user_portal.Text.{Text, contains, same_iff}
use vps_user_portal.Provision.{AppStatus, AppInfo, Provisioner}
use vps_user_portal.Userstore.Types.{User, Result}
use vps_user_portal.Planka.Database.{Row, Database, Around}
use vps_user_portal.Planka.Users.Views.{seen, IsLowered, found, status_sound}
use vps_user_portal.Planka.Users.{Error, status}
use vps_user_portal.Text.Maps.{Dict, put, get}
use vps_user_portal.Text.Case.{Unicode, to_lower}
use vps_user_portal.Server.Pages.{
  status_of, with_column, UserRow, empty_row, shown, list_view, list_found, handle_list, gather,
  or_absent,
}
use vps_user_portal.Base.{
  Option, List, map, ◌≡◌, All, ◌∷◌, [], ap, refl, false, some, true, none, Outcome, ◌++◌, Bool, ok,
  err, sym, ◌∙◌, arith, All-map,
}
use vps_user_portal.Planka.Roles

-- What is shown of an account, or of none
abbrev pub shown_account : Option Row → AppStatus
shown_account none = record { present = false; role = []; deactivated = false }
shown_account (some r) = seen r

status_of-on_account :
    (statuses : Dict AppStatus) (email : Text) (found : Option Row)
    → get statuses email ≡ on_account seen found
    → status_of statuses email ≡ shown_account found
unfolding status_of or_absent
status_of-on_account statuses email none h = ap or_absent h
status_of-on_account statuses email (some r) h = ap or_absent h

module _ ⦃unicode : Unicode⦄ where
  abbrev emails_of : List User → List Text
  emails_of us = map (λ u. to_lower u.email) us

  -- Lowering an email once more does not change it.
  abbrev pub IsLowering : User → Type 0
  IsLowering u = to_lower (to_lower u.email) ≡ to_lower u.email

  abbrev pub with_status : Text → (User → AppStatus) → List User → List UserRow
  with_status name status us = map (λ u. record { user = u; apps = (name, status u) ∷ [] }) us

  with_column-map :
      (name : Text) (statuses : Dict AppStatus) (us : List User)
      → with_column name statuses (map empty_row us)
        ≡ with_status name (λ u. status_of statuses (to_lower u.email)) us
  unfolding with_column put
  with_column-map name statuses [] = refl
  with_column-map name statuses (u ∷ us) =
      ap
        (λ (rows : List UserRow).
          record { user = u; apps = (name, status_of statuses (to_lower u.email)) ∷ [] } ∷ rows)
        (with_column-map name statuses us)

  -- Two ways to give the users their status
  with_status-cong :
      (name : Text) (f g : User → AppStatus) (us : List User)
      → All (λ u. f u ≡ g u) us
      → with_status name f us ≡ with_status name g us
  with_status-cong name f g [] alike = refl
  with_status-cong name f g (u ∷ us) alike = λ i.
      record { user = u; apps = (name, alike.0 i) ∷ [] } ∷ with_status-cong name f g us alike.1 i

-- The rows and the warnings of a list page
list_view_injective :
    {E : Type 0} (rows rows' : List UserRow) (ns ns' : List Text) (is is' : List AppInfo)
    (warnings warnings' : List (Text × E))
    → list_view rows ns is warnings ≡ list_view rows' ns' is' warnings'
    → (rows ≡ rows') × (warnings ≡ warnings')
list_view_injective rows rows' ns ns' is is' warnings warnings' h = (cc, cc)

module _ ⦃unicode : Unicode⦄ where
  -- Without a warning the app has answered.
  answered :
      (name : Text) (q : Database × Outcome Error (Dict AppStatus)) (rows : List UserRow)
      → (shown name (failed_of q).1 rows).1 ++ [] ≡ []
      → (out : Dict AppStatus) × (q ≡ (q.0, ok out))
        × ((shown name (failed_of q).1 rows).0 ≡ with_column name out rows)
  unfolding shown failed_of
  answered name (d, ok out) rows h = (out, refl, refl)
  answered name (d, err e) rows h = cc

  contains-lowered :
      (us : List User)
      → All IsLowering us
      → All (λ u. contains (map to_lower (emails_of us)) (to_lower u.email) ≡ true) us
  unfolding contains
  contains-lowered [] lowering = tt
  contains-lowered (u ∷ us) lowering = (
    ground (arith, lowering.0, same_iff (to_lower (to_lower u.email)) (to_lower u.email)),
    All-map us (contains-lowered us lowering.1) (λ v asked. ground (arith, asked)),
  )

module _ ⦃unicode : Unicode⦄ (y : Yaml) (file : Text) (catalog : Catalog) (around : Around)
    (p : Roles.Provisioner) where
  abbrev planka : List (Provisioner Database PlankaError)
  planka = connected catalog around p ∷ []

  list_found-planka :
      (us : List User) (w : World Database) (rows : List UserRow) (ns : List Text)
      (is : List AppInfo)
      → (list_found y file planka (ok us) w).1 ≡ list_view rows ns is []
      → IsLowered around (found around p w.apps)
      → IsUnique (found around p w.apps)
      → All IsLowering us
      → rows
        ≡ with_status p.name
            (λ u. shown_account (account (to_lower u.email) (found around p w.apps)))
            us
  unfolding list_found gather connected
  list_found-planka us w rows ns is shows lowered unique lowering =
      let (same_rows, no_warning) = list_view_injective _ rows _ ns _ is _ [] shows in
      let (out, done, filled) =
        answered p.name (status around p (emails_of us) w.apps) (map empty_row us) no_warning in
      sym same_rows
      ∙ (filled
          ∙ (with_column-map p.name out us
              ∙ with_status-cong p.name _ _ us (
                  All-map us (contains-lowered us lowering) (λ u asked.
                    status_of-on_account out (to_lower u.email) _ (
                      status_sound around p (emails_of us) w.apps _ out done lowered unique
                        (to_lower u.email) asked)))))

  -- Where the list page shows no warning, and Planka is the only app: the rows are the users of the
  -- file, in order, and each shows the account that has the user's lowercased email when the query
  -- runs, or that there is none; if emails are stored lowercased and none twice then, and lowering
  -- an email of the file twice is lowering it once.
  pub handle_list-shown :
      (read_fails : Bool) (us : List User) (w : World Database) (rows : List UserRow)
      (ns : List Text) (is : List AppInfo)
      → list_users y file read_fails w.dir ≡ ok us
      → (handle_list y file planka read_fails w).1 ≡ list_view rows ns is []
      → IsLowered around (found around p w.apps)
      → IsUnique (found around p w.apps)
      → All IsLowering us
      → rows
        ≡ with_status p.name
            (λ u. shown_account (account (to_lower u.email) (found around p w.apps)))
            us
  unfolding handle_list
  handle_list-shown read_fails us w rows ns is listed shows lowered unique lowering =
      list_found-planka us w rows ns is
        (ap (λ (r : Result (List User)). (list_found y file planka r w).1) (sym listed) ∙ shows)
        lowered unique lowering
