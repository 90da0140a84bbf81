-- ===== src/Server/Health.antt =====
-- The health checks of internal/server/server.go: `RunChecks` and `handleHealthz`.
use vps_user_portal.Base.{Option, List, Outcome, some, none, ◌∷◌, ◌≡◌, ok, [], ◌↔◌, err, refl, ◌++◌}
use vps_user_portal.Text.{Text}
use vps_user_portal.Provision.{Provisioner}

pub data Health : Type 0 where
  healthy unhealthy : Health

module _ {E : Type 0} where
  -- An earlier error stays.
  first_error : Text → Outcome E (Unit {0}) → Option (Text × E) → Option (Text × E)
  first_error name (ok u) later = later
  first_error name (err e) later = some (name, e)

  -- `handleHealthz`, which tells no more than this to a client.
  unfoldable pub handle_healthz : Option (Text × E) → Health
  handle_healthz none = healthy
  handle_healthz (some e) = unhealthy

  first_error_iff :
      (name : Text) (checked : Outcome E (Unit {0})) (later : Option (Text × E))
      → (handle_healthz (first_error name checked later) ≡ healthy)
        ↔ ((checked ≡ ok tt) × (handle_healthz later ≡ healthy))
  unfolding first_error handle_healthz
  first_error_iff name (ok u) later = (λ h. (refl, h), λ h. h.1)
  first_error_iff name (err e) later = (λ h. cc, λ h. cc)

module _ {S E : Type 0} where
  -- `RunChecks`: every check runs; the result is what `checkErr` is set to.
  unfoldable pub run_checks : List (Provisioner S E) → S → S × Option (Text × E)
  unfolding first_error
  run_checks [] s = (s, none)
  run_checks (p ∷ ps) s =
      let (after, checked) = p.check s in
      let (last, later) = run_checks ps after in (last, first_error p.name checked later)

  -- `CheckLoop` until its context ends: at each tick, after what others have done to the apps, the
  -- checks run again. It starts from the state and the result that an earlier `RunChecks` left.
  unfoldable pub check_loop :
      List (Provisioner S E) → List (S → S) → S × Option (Text × E) → S × Option (Text × E)
  unfolding run_checks
  check_loop provs [] before = before
  check_loop provs (between ∷ ticks) before =
      check_loop provs ticks (run_checks provs (between before.0))

  pub check_loop-last :
      (provs : List (Provisioner S E)) (ticks : List (S → S)) (between : S → S)
      (before : S × Option (Text × E))
      → check_loop provs (ticks ++ between ∷ []) before
        ≡ run_checks provs (between (check_loop provs ticks before).0)
  unfolding check_loop
  check_loop-last provs [] between before = refl
  check_loop-last provs (first ∷ ticks) between before =
      check_loop-last provs ticks between (run_checks provs (first before.0))

  -- Each check passes, on the state that the ones before it leave.
  abbrev pub IsPassing : List (Provisioner S E) → S → Type 0
  IsPassing [] s = Unit
  IsPassing (p ∷ ps) s = ((p.check s).1 ≡ ok tt) × IsPassing ps (p.check s).0

  -- After `RunChecks`, the portal answers that it is healthy exactly if the check of every
  -- provisioner has passed.
  pub handle_healthz_iff :
      (provs : List (Provisioner S E)) (s : S)
      → (handle_healthz (run_checks provs s).1 ≡ healthy) ↔ IsPassing provs s
  unfolding run_checks handle_healthz
  handle_healthz_iff [] s = (λ h. tt, λ h. refl)
  handle_healthz_iff (p ∷ ps) s =
      let head = first_error_iff p.name (p.check s).1 (run_checks ps (p.check s).0).1 in
      let tail = handle_healthz_iff ps (p.check s).0 in
      (λ h. ((head.0 h).0, tail.0 (head.0 h).1), λ h. head.1 (h.0, tail.1 h.1))
