-- ===== src/Planka/Connected.antt =====
-- internal/provision/planka/planka.go as a provisioner of internal/provision/provision.go.
use vps_user_portal.Provision
use vps_user_portal.Provision.{as_error}
use vps_user_portal.Planka.Roles
use vps_user_portal.Planka.Roles.{info}
use vps_user_portal.Planka.Users.{Error, provision, sync, deprovision, status}
use vps_user_portal.Text.Case.{Unicode}
use vps_user_portal.Planka.Database.{Database, Around}
use vps_user_portal.Base.{ℕ, Outcome, Option, List, ok, err, Bool}
use vps_user_portal.Planka.Check.{CheckError, Column, Privileges, check}

pub data PlankaError : Type 0 where
  unready : CheckError → PlankaError
  failed : Error → PlankaError

-- What the two queries of `Check` are answered, by the number of statements run before.
pub record Catalog : Type 0 where
  pub columns : ℕ → Option (List (Option Column) × Bool)
  pub grants : ℕ → Option Privileges

abbrev unready_of : Outcome CheckError (Unit {0}) → Outcome PlankaError (Unit {0})
unready_of r = as_error unready r

unfoldable pub failed_of {ℓ} :
    {A : Type ℓ} → Database × Outcome Error A → Database × Outcome PlankaError A
failed_of (d, ok a) = (d, ok a)
failed_of (d, err e) = (d, err (failed e))

-- The methods of `Provisioner`
unfoldable pub connected :
    ⦃unicode : Unicode⦄
    → Catalog
    → Around
    → Roles.Provisioner
    → Provision.Provisioner Database PlankaError
unfolding failed_of
connected catalog around p = record {
  name = p.name;
  info = info p;
  check = λ d. (d, unready_of (check (catalog.columns d.count) (catalog.grants d.count)));
  provision = λ u d. failed_of (provision around p u d);
  sync = λ u d. failed_of (sync around p u d);
  deprovision = λ u d. failed_of (deprovision around p u d);
  status = λ emails d. failed_of (status around p emails d);
}
