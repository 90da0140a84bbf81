-- ===== src/Main/Probed.antt =====
-- The health probe of main.go against `handleHealthz` and `RunChecks` of internal/server/server.go.
use vps_user_portal.Main.{probe, probe_address, exit_code}
use vps_user_portal.Server.Routes.{Server, Surroundings, serve, dispatch, health_page}
use vps_user_portal.Server.Mux.{Request, route}
use vps_user_portal.Server.Health.{
  Health, healthy, unhealthy, handle_healthz, IsPassing, handle_healthz_iff, check_loop,
  check_loop-last,
}
use vps_user_portal.Server.Pages.{http_error}
use vps_user_portal.Server.Handlers.{World}
use vps_user_portal.Server.Requests.{Headers}
use vps_user_portal.Text.Case.{Unicode}
use vps_user_portal.Text.{Text, lit}
use vps_user_portal.Base.{
  Outcome, ok, ◌≡◌, ◌↔◌, ◌∷◌, [], ℕ, refl, ◌∙◌, ap, subst, sym, Option, List, ◌++◌,
}

-- The request that the probe makes
abbrev pub asking : Headers → Text → Request
asking headers body = record {
  method = lit "GET";
  path = lit "healthz" ∷ [];
  headers = headers;
  body = body;
}

module _ ⦃unicode : Unicode⦄ {S E : Type 0} (srv : Server S E) (around : Surroundings)
    (headers : Headers) (body : Text) where
  -- The portal with the result of a round of checks
  abbrev with_result : Option (Text × E) → Server S E
  with_result result = record srv { check_error = result }

  exit_code_iff :
      (F : Type 0) (result : Option (Text × E)) (h : Health)
      → (exit_code {F = F}
            (ok (health_page (with_result result) around (asking headers body) h).status)
          ≡ 0)
        ↔ (h ≡ healthy)
  unfolding exit_code health_page http_error
  exit_code_iff F result healthy = (λ p. refl, λ p. refl)
  exit_code_iff F result unhealthy = (λ p. cc, λ p. cc)

  served_health :
      (result : Option (Text × E)) (w : World S)
      → (serve (with_result result) around (asking headers body) w).1
        ≡ health_page (with_result result) around (asking headers body) (handle_healthz result)
  unfolding serve dispatch route
  served_health result w = refl

  -- The probe of a portal that it reaches
  probe_health :
      {F : Type 0} (getenv : Text → Text) (fetch : Text → Outcome F ℕ) (result : Option (Text × E))
      (w : World S)
      → fetch (probe_address getenv)
        ≡ ok (serve (with_result result) around (asking headers body) w).1.status
      → (probe getenv fetch ≡ 0) ↔ (handle_healthz result ≡ healthy)
  unfolding probe
  probe_health {F} getenv fetch result w e =
      subst (λ r. (exit_code r ≡ 0) ↔ (handle_healthz result ≡ healthy))
        (sym (e ∙ ap (λ r. ok r.status) (served_health result w)))
        (exit_code_iff F result (handle_healthz result))

  -- Where the probe reaches the portal at the address that it asks, whatever headers it sends:
  -- after any number of ticks of `CheckLoop`, with anything done to the apps between them, it ends
  -- with exit code 0 exactly if at the last tick the check of every provisioner has passed.
  pub probe_iff :
      {F : Type 0} (getenv : Text → Text) (fetch : Text → Outcome F ℕ) (ticks : List (S → S))
      (between : S → S) (before : S × Option (Text × E)) (w : World S)
      → fetch (probe_address getenv)
        ≡ ok
            (serve
              (with_result (check_loop srv.provs (ticks ++ between ∷ []) before).1)
              around
              (asking headers body)
              w).1.status
      → (probe getenv fetch ≡ 0)
        ↔ IsPassing srv.provs (between (check_loop srv.provs ticks before).0)
  probe_iff getenv fetch ticks between before w reached =
      let told =
        probe_health getenv fetch (check_loop srv.provs (ticks ++ between ∷ []) before).1 w
          reached in
      let passing = handle_healthz_iff srv.provs (between (check_loop srv.provs ticks before).0) in
      let last = ap (λ r. handle_healthz r.1) (check_loop-last srv.provs ticks between before) in
      (λ p. passing.0 (sym last ∙ told.0 p), λ p. told.1 (last ∙ passing.1 p))
