-- ===== src/Server/Handlers/OneApp.antt =====
-- A loop over the provisioners, in internal/server/server.go, with Planka as the only one.
use vps_user_portal.Base.{
  Outcome, ◌≡◌, ◌∷◌, [], ok, err, sym, refl, append-nil, ◌∙◌, Bool, ◌≢◌, if◌then◌else◌, true, false,
}
use vps_user_portal.Planka.Database.{Database}
use vps_user_portal.Provision.{Provisioner}
use vps_user_portal.Text.{Text}
use vps_user_portal.Planka.Connected.{failed_of}
use vps_user_portal.Server.Handlers.{warning, call_all}
use vps_user_portal.Planka.Users.{Error}

warning-eq-nil :
    {E : Type 0} (name : Text) (r : Outcome E (Unit {0})) → warning name r ≡ [] → r ≡ ok tt
unfolding warning
warning-eq-nil name (ok u) h = refl
warning-eq-nil name (err e) h = cc

module _ {S E : Type 0} where
  -- One app, and no warning
  pub call_all_one :
      (op : Provisioner S E → S → S × Outcome E (Unit {0})) (p : Provisioner S E) (s : S)
      → (call_all op (p ∷ []) s).1 ≡ []
      → (op p s).1 ≡ ok tt
  unfolding call_all
  call_all_one op p s h =
      warning-eq-nil p.name (op p s).1 (sym (append-nil (warning p.name (op p s).1)) ∙ h)

pub failed_of_ok :
    (r : Database × Outcome Error (Unit {0}))
    → (failed_of r).1 ≡ ok tt
    → r ≡ ((failed_of r).0, ok tt)
unfolding failed_of
failed_of_ok (d, ok u) h = refl
failed_of_ok (d, err e) h = cc

-- A guard that answers with another page
pub if-passed :
    {W P : Type 0} (Q : W → Type 0) (target : P) (b : Bool) (page : P) (q : W × P) (w : W)
    → page ≢ target
    → (q.1 ≡ target → Q q.0)
    → (if b then (w, page) else q).1 ≡ target
    → Q (if b then (w, page) else q).0
if-passed Q target true page q w other done h = absurd (other h)
if-passed Q target false page q w other done h = done h
