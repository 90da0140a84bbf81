-- ===== src/Server/Routes/Responses.antt =====
-- What every response of internal/server/server.go carries.
use vps_user_portal.Server.Requests.Laws.{IsAdmin, require_admin-IsAdmin}
use vps_user_portal.Server.Handlers.Batch.{no_groups, no_entries, results, Answer}
use vps_user_portal.Server.Tokens.{csrf_token}
use vps_user_portal.Server.Handlers.{
  Page, World, went_wrong, removed, updated, bad_token, unconfirmed, no_user,
}
use vps_user_portal.Server.Health.{Health, healthy, unhealthy, handle_healthz}
use vps_user_portal.Server.Requests.{
  Identity, Refusal, forbidden, not_behind_guard, identity_of, require_admin,
}
use vps_user_portal.Base.{
  ◌≡◌, some, ◌⊎◌, Option, ℕ, inl, inr, refl, none, ◌++◌, ◌∷◌, [], Outcome, ok, err,
}
use vps_user_portal.Text.{lit, Text}
use vps_user_portal.Server.Routes.{
  Server, Surroundings, page, health_page, answer_page, answer_invite, answer_user, refusal, handle,
  reshow, guarded, dispatch, serve, bad_token_text,
}
use vps_user_portal.Server.Mux.{
  Request, security_headers, Route, user, health, css, unrouted, list, invite_form, invite, route,
  to_set_groups, to_delete, wrong_method,
}
use vps_user_portal.Text.Maps.{get, put}
use vps_user_portal.Text.Case.{Unicode}
use vps_user_portal.Server.Pages.{
  Response, http_error, not_found_page, redirect, handle_css, Body, render, style_sheet, html, View,
  problem_view, plain, nothing, method_page,
}

-- The page may load nothing but the portal's own style sheet and data images, its type is not
-- guessed at, it does not name itself to other sites, and, unless it is the style sheet, it is
-- marked as private and to be asked for again before a cache shows it.
pub record IsSecured {E : Type 0} (r : Response E) : Type 0 where
  pub policy :
      get r.headers (lit "Content-Security-Policy")
      ≡ some (
          lit
            "default-src 'none'; style-src 'self'; img-src data:; base-uri 'none'; form-action 'self'; frame-ancestors 'none'")
  pub no_sniffing : get r.headers (lit "X-Content-Type-Options") ≡ some (lit "nosniff")
  pub no_referrer : get r.headers (lit "Referrer-Policy") ≡ some (lit "no-referrer")
  pub cache_control :
      (get r.headers (lit "Cache-Control") ≡ some (lit "private, no-cache"))
      ⊎ (r.body ≡ style_sheet)

module _ ⦃unicode : Unicode⦄ {S E : Type 0} (srv : Server S E) (around : Surroundings)
    (request : Request) where
  -- The form of an HTML page is made for the administrator who asked.
  abbrev IsOwn : Identity → Body E → Type 0
  IsOwn id (html actor token view) =
      (actor ≡ id.user) × (token ≡ csrf_token srv.hmac srv.config.csrf_secret id.user around.later)
  IsOwn id body = Unit

  abbrev IsFit : Identity → Response E → Type 0
  IsFit id r = IsSecured r × IsOwn id r.body

  page-IsFit : (id : Identity) (view : View E) → IsFit id (page srv around request id view)
  unfolding page render put get
  page-IsFit id view = (
    record { policy = refl; no_sniffing = refl; no_referrer = refl; cache_control = inl refl },
    (refl, refl),
  )

  http_error-IsFit :
      (id : Identity) (text : Text) (status : ℕ)
      → IsFit id (http_error text status security_headers)
  unfolding http_error put get
  http_error-IsFit id text status = (
    record { policy = refl; no_sniffing = refl; no_referrer = refl; cache_control = inl refl },
    tt,
  )

  not_found_page-IsFit : (id : Identity) → IsFit id (not_found_page security_headers)
  unfolding not_found_page
  not_found_page-IsFit id = http_error-IsFit id (lit "404 page not found") 404

  method_page-IsFit :
      (id : Identity) (allowed : Text) → IsFit id (method_page allowed security_headers)
  unfolding method_page http_error put get
  method_page-IsFit id allowed = (
    record { policy = refl; no_sniffing = refl; no_referrer = refl; cache_control = inl refl },
    tt,
  )

  redirect-IsFit : (id : Identity) (url : Text) → IsFit id (redirect url security_headers)
  unfolding redirect put get
  redirect-IsFit id url = (
    record { policy = refl; no_sniffing = refl; no_referrer = refl; cache_control = inl refl },
    tt,
  )

  handle_css-IsFit : (id : Identity) → IsFit id (handle_css security_headers)
  unfolding handle_css put get
  handle_css-IsFit id = (
    record { policy = refl; no_sniffing = refl; no_referrer = refl; cache_control = inr refl },
    tt,
  )

  health_page-IsFit : (id : Identity) (h : Health) → IsFit id (health_page srv around request h)
  unfolding health_page get
  health_page-IsFit id healthy = (
    record { policy = refl; no_sniffing = refl; no_referrer = refl; cache_control = inl refl },
    tt,
  )
  health_page-IsFit id unhealthy = http_error-IsFit id (lit "unhealthy") 503

  answer_page-IsFit :
      (id : Identity) (name : Text) (answer : Page E)
      → IsFit id (answer_page srv around request id name answer)
  unfolding answer_page
  answer_page-IsFit id name bad_token = http_error-IsFit id bad_token_text 403
  answer_page-IsFit id name unconfirmed =
      http_error-IsFit id (lit "confirmation checkbox required") 400
  answer_page-IsFit id name no_user = not_found_page-IsFit id
  answer_page-IsFit id name (went_wrong e) = page-IsFit id (problem_view e)
  answer_page-IsFit id name (removed email warnings) = page-IsFit id _
  answer_page-IsFit id name (updated []) = redirect-IsFit id (lit "/users/" ++ name)
  answer_page-IsFit id name (updated (warning ∷ warnings)) = page-IsFit id _

  answer_invite-IsFit :
      (id : Identity) (answer : Answer E) → IsFit id (answer_invite srv around request id answer)
  unfolding answer_invite reshow
  answer_invite-IsFit id vps_user_portal.Server.Handlers.Batch.bad_token =
      http_error-IsFit id bad_token_text 403
  answer_invite-IsFit id no_groups = page-IsFit id _
  answer_invite-IsFit id no_entries = page-IsFit id _
  answer_invite-IsFit id (results rows) = page-IsFit id _

  answer_user-IsFit :
      (id : Identity) (found : Option (View E)) → IsFit id (answer_user srv around request id found)
  unfolding answer_user
  answer_user-IsFit id none = not_found_page-IsFit id
  answer_user-IsFit id (some view) = page-IsFit id view

  refusal-IsFit : (id : Identity) (why : Refusal) → IsFit id (refusal srv around request why)
  unfolding refusal
  refusal-IsFit id forbidden = http_error-IsFit id (lit "forbidden") 403
  refusal-IsFit id not_behind_guard =
      http_error-IsFit id
        (lit "forbidden: this service must sit behind the forward-auth admin guard") 403

  handle-IsFit :
      (id : Identity) (r : Route) (w : World S) → IsFit id (handle srv around request id r w).1
  unfolding handle
  handle-IsFit id health w = not_found_page-IsFit id
  handle-IsFit id css w = not_found_page-IsFit id
  handle-IsFit id unrouted w = not_found_page-IsFit id
  handle-IsFit id (wrong_method allowed) w = not_found_page-IsFit id
  handle-IsFit id list w = page-IsFit id _
  handle-IsFit id invite_form w = page-IsFit id _
  handle-IsFit id invite w = answer_invite-IsFit id _
  handle-IsFit id (user name) w = answer_user-IsFit id _
  handle-IsFit id (to_set_groups name) w = answer_page-IsFit id name _
  handle-IsFit id (to_delete name) w = answer_page-IsFit id name _

  -- An HTML page is for an administrator, and its form for the one who asked.
  abbrev pub IsAccepted : Body E → Type 0
  IsAccepted (html actor token view) =
      (id : Identity) × IsAdmin srv.config request.headers id
      × (actor ≡ id.user)
      × (token ≡ csrf_token srv.hmac srv.config.csrf_secret id.user around.later)
  IsAccepted body = Unit

  accepted :
      (id : Identity) (body : Body E)
      → IsAdmin srv.config request.headers id
      → IsOwn id body
      → IsAccepted body
  accepted id nothing admin own = tt
  accepted id style_sheet admin own = tt
  accepted id (plain text) admin own = tt
  accepted id (html actor token view) admin own = (id, admin, own.0, own.1)

  abbrev pub IsServed : Response E → Type 0
  IsServed r = IsSecured r × IsAccepted r.body

  guarded-IsServed :
      (admitted : Outcome Refusal Identity) (r : Route) (w : World S)
      → ((id : Identity) → admitted ≡ ok id → IsAdmin srv.config request.headers id)
      → IsServed (guarded srv around request admitted r w).1
  unfolding guarded refusal http_error
  guarded-IsServed (ok id) r w admin =
      let fit = handle-IsFit id r w in (fit.0, accepted id _ (admin id refl) fit.1)
  guarded-IsServed (err forbidden) r w admin =
      ((http_error-IsFit (identity_of request.headers) (lit "forbidden") 403).0, tt)
  guarded-IsServed (err not_behind_guard) r w admin = (
    (http_error-IsFit (identity_of request.headers)
        (lit "forbidden: this service must sit behind the forward-auth admin guard") 403).0,
    tt,
  )

  health_page-IsServed : (h : Health) → IsServed (health_page srv around request h)
  unfolding health_page http_error
  health_page-IsServed healthy = ((health_page-IsFit (identity_of request.headers) healthy).0, tt)
  health_page-IsServed unhealthy =
      ((health_page-IsFit (identity_of request.headers) unhealthy).0, tt)

  dispatch-IsServed : (r : Route) (w : World S) → IsServed (dispatch srv around request r w).1
  unfolding dispatch not_found_page method_page http_error handle_css
  dispatch-IsServed health w = health_page-IsServed (handle_healthz srv.check_error)
  dispatch-IsServed css w = ((handle_css-IsFit (identity_of request.headers)).0, tt)
  dispatch-IsServed unrouted w = ((not_found_page-IsFit (identity_of request.headers)).0, tt)
  dispatch-IsServed (wrong_method allowed) w =
      ((method_page-IsFit (identity_of request.headers) allowed).0, tt)
  dispatch-IsServed list w =
      guarded-IsServed (require_admin srv.config request.headers) list w
        (λ id h. require_admin-IsAdmin srv.config request.headers h)
  dispatch-IsServed invite_form w =
      guarded-IsServed (require_admin srv.config request.headers) invite_form w
        (λ id h. require_admin-IsAdmin srv.config request.headers h)
  dispatch-IsServed invite w =
      guarded-IsServed (require_admin srv.config request.headers) invite w
        (λ id h. require_admin-IsAdmin srv.config request.headers h)
  dispatch-IsServed (user name) w =
      guarded-IsServed (require_admin srv.config request.headers) (user name) w
        (λ id h. require_admin-IsAdmin srv.config request.headers h)
  dispatch-IsServed (to_set_groups name) w =
      guarded-IsServed (require_admin srv.config request.headers) (to_set_groups name) w
        (λ id h. require_admin-IsAdmin srv.config request.headers h)
  dispatch-IsServed (to_delete name) w =
      guarded-IsServed (require_admin srv.config request.headers) (to_delete name) w
        (λ id h. require_admin-IsAdmin srv.config request.headers h)

  -- Every response carries the policy, type and referrer headers of the portal, and, unless it is
  -- the style sheet, the header `Cache-Control: private, no-cache`; and an HTML page goes only to
  -- an administrator, with a form token that is made for that administrator.
  pub serve-IsServed : (w : World S) → IsServed (serve srv around request w).1
  unfolding serve
  serve-IsServed w = dispatch-IsServed (route request.method request.path) w
