-- ===== src/Server/Routes/Guarded.antt =====
-- Which requests to internal/server/server.go change anything.
use vps_user_portal.Userstore.Store.{list_users, get_user}
use vps_user_portal.Server.Handlers.Batch.{handle_invite, Batch, Luck}
use vps_user_portal.Server.Tokens.Laws.{IsInForce, csrf_valid-IsInForce}
use vps_user_portal.Server.Tokens.{csrf_valid}
use vps_user_portal.Server.Requests.Laws.{IsAdmin, require_admin-IsAdmin}
use vps_user_portal.Userstore.Types.{Result, User}
use vps_user_portal.Base.{
  refl, ◌≡◌, ◌⊎◌, List, true, length, Bool-cases, ok, ◌≤◌, leb, err, inl, arith, inr, false, ℕ, ap,
  Bool, ◌∙◌, ◌∷◌, [], Outcome,
}
use vps_user_portal.Text.{same, lit, Text}
use vps_user_portal.Server.Pages.{list_found, user_found, handle_list, handle_user}
use vps_user_portal.Server.Handlers.{World, handle_set_groups, handle_delete, Post}
use vps_user_portal.Server.Requests.{Identity, require_admin, Refusal}
use vps_user_portal.Server.Routes.{
  Server, Surroundings, check_csrf, form, handle, post_of, batch_of, luck_of, guarded, serve,
  dispatch,
}
use vps_user_portal.Server.Mux.{
  Request, form_of, max_body_bytes, Route, invite, user, health, css, unrouted, invite_form, list,
  route, to_set_groups, to_delete, wrong_method,
}
use vps_user_portal.Text.Case.{Unicode}

-- The routes of POST patterns
changes : Route → Bool
changes invite = true
changes (to_set_groups name) = true
changes (to_delete name) = true
changes other = false

route-posted :
    (method : Text) (path : List Text)
    → changes (route method path) ≡ true
    → same method (lit "POST") ≡ true
unfolding route changes
route-posted method [] h = ground arith
route-posted method (a ∷ []) h = ground arith
route-posted method (a ∷ b ∷ []) h = ground arith
route-posted method (a ∷ b ∷ c ∷ []) h = ground arith
route-posted method (a ∷ b ∷ c ∷ d ∷ rest) h = cc

module _ ⦃unicode : Unicode⦄ {S E : Type 0} (srv : Server S E) (around : Surroundings)
    (request : Request) where
  -- The administrator's own form, in force, in a body that is not too large, was posted.
  pub record IsAsked (id : Identity) : Type 0 where
    pub posted : same request.method (lit "POST") ≡ true
    pub short : length request.body ≤ max_body_bytes
    pub token :
        IsInForce srv.hmac srv.config.csrf_secret id.user
          (srv.parse_form request.body).csrf
          around.now

  -- A response leaves everything as it was; or the request is an administrator's, and only the apps
  -- were asked, or the change was asked for in a form.
  abbrev pub IsGuarded : World S → World S → Type 0
  IsGuarded w after =
      (after ≡ w)
      ⊎ ((id : Identity) × IsAdmin srv.config request.headers id
          × ((after ≡ record w { apps = after.apps }) ⊎ IsAsked id))

  IsAsked-check_csrf :
      (id : Identity)
      → same request.method (lit "POST") ≡ true
      → check_csrf srv around request id ≡ true
      → IsAsked id
  unfolding check_csrf form form_of csrf_valid
  IsAsked-check_csrf id posted h = elim (Bool-cases (leb (length request.body) max_body_bytes)) [
    | inl fits ↦ record {
      posted = posted;
      short = ground arith;
      token =
          csrf_valid-IsInForce srv.hmac srv.config.csrf_secret id.user
            (srv.parse_form request.body).csrf around.now (rw fits at h);
    }
    | inr large ↦ cc (rw large at h)
  ]

  list_found-keeps :
      (found : Result (List User)) (w : World S)
      → (list_found srv.yaml srv.file srv.provs found w).0
        ≡ record w { apps = (list_found srv.yaml srv.file srv.provs found w).0.apps }
  unfolding list_found
  list_found-keeps (ok users) w = refl
  list_found-keeps (err e) w = refl

  user_found-keeps :
      (found : Result User) (w : World S)
      → (user_found srv.yaml srv.file srv.config srv.provs found w).0
        ≡ record w { apps = (user_found srv.yaml srv.file srv.config srv.provs found w).0.apps }
  unfolding user_found
  user_found-keeps (ok u) w = refl
  user_found-keeps (err e) w = refl

  -- Without a valid token, the handlers that change something leave all as it is.
  handle_invite-refused :
      (b : Batch S E) (raw : Text) (luck : ℕ → Luck) (w : World S)
      → (handle_invite b false raw luck w).0 ≡ w
  unfolding handle_invite
  handle_invite-refused b raw luck w = refl

  handle_set_groups-refused :
      (post : Post) (name : Text) (w : World S)
      → post.token_valid ≡ false
      → (handle_set_groups srv.yaml srv.file srv.provs post srv.config name w).0 ≡ w
  unfolding handle_set_groups
  handle_set_groups-refused post name w h = rw h

  handle_delete-refused :
      (post : Post) (name : Text) (w : World S)
      → post.token_valid ≡ false
      → (handle_delete srv.yaml srv.file srv.provs post name w).0 ≡ w
  unfolding handle_delete
  handle_delete-refused post name w h = rw h

  abbrev IsQuietOrAsked : Identity → World S → World S → Type 0
  IsQuietOrAsked id w after = (after ≡ w) ⊎ ((after ≡ record w { apps = after.apps }) ⊎ IsAsked id)

  asked_or :
      (id : Identity) (w after : World S)
      → same request.method (lit "POST") ≡ true
      → (check_csrf srv around request id ≡ false → after ≡ w)
      → IsQuietOrAsked id w after
  asked_or id w after posted refused = elim (Bool-cases (check_csrf srv around request id)) [
    | inl valid ↦ inr (inr (IsAsked-check_csrf id posted valid))
    | inr invalid ↦ inl (refused invalid)
  ]

  handle-IsQuietOrAsked :
      (id : Identity) (r : Route) (w : World S)
      → (changes r ≡ true → same request.method (lit "POST") ≡ true)
      → IsQuietOrAsked id w (handle srv around request id r w).0
  unfolding changes handle handle_list handle_user post_of
  handle-IsQuietOrAsked id health w posted = inl refl
  handle-IsQuietOrAsked id css w posted = inl refl
  handle-IsQuietOrAsked id unrouted w posted = inl refl
  handle-IsQuietOrAsked id (wrong_method allowed) w posted = inl refl
  handle-IsQuietOrAsked id invite_form w posted = inl refl
  handle-IsQuietOrAsked id list w posted =
      inr (inl (list_found-keeps (list_users srv.yaml srv.file around.read_fails w.dir) w))
  handle-IsQuietOrAsked id (user name) w posted =
      inr (inl (user_found-keeps (get_user srv.yaml srv.file around.read_fails w.dir name) w))
  handle-IsQuietOrAsked id invite w posted = asked_or id w _ (posted refl) (λ invalid.
      ap
        (λ (b : Bool).
          (handle_invite (batch_of srv around request id) b (form srv around request).users
            (luck_of srv around request) w).0)
        invalid
      ∙ handle_invite-refused (batch_of srv around request id) _ _ w)
  handle-IsQuietOrAsked id (to_set_groups name) w posted =
      asked_or id w _ (posted refl)
        (handle_set_groups-refused (post_of srv around request id) name w)
  handle-IsQuietOrAsked id (to_delete name) w posted =
      asked_or id w _ (posted refl) (handle_delete-refused (post_of srv around request id) name w)

  of_quiet :
      (id : Identity) (w after : World S)
      → IsAdmin srv.config request.headers id
      → IsQuietOrAsked id w after
      → IsGuarded w after
  of_quiet id w after admin (inl same_world) = inl same_world
  of_quiet id w after admin (inr done) = inr (id, admin, done)

  guarded-IsGuarded :
      (admitted : Outcome Refusal Identity) (r : Route) (w : World S)
      → ((id : Identity) → admitted ≡ ok id → IsAdmin srv.config request.headers id)
      → (changes r ≡ true → same request.method (lit "POST") ≡ true)
      → IsGuarded w (guarded srv around request admitted r w).0
  unfolding guarded
  guarded-IsGuarded (err e) r w admin posted = inl refl
  guarded-IsGuarded (ok id) r w admin posted =
      of_quiet id w _ (admin id refl) (handle-IsQuietOrAsked id r w posted)

  dispatch-IsGuarded :
      (r : Route) (w : World S)
      → (changes r ≡ true → same request.method (lit "POST") ≡ true)
      → IsGuarded w (dispatch srv around request r w).0
  unfolding dispatch
  dispatch-IsGuarded health w posted = inl refl
  dispatch-IsGuarded css w posted = inl refl
  dispatch-IsGuarded unrouted w posted = inl refl
  dispatch-IsGuarded (wrong_method allowed) w posted = inl refl
  dispatch-IsGuarded list w posted =
      guarded-IsGuarded (require_admin srv.config request.headers) list w
        (λ id h. require_admin-IsAdmin srv.config request.headers h) posted
  dispatch-IsGuarded invite_form w posted =
      guarded-IsGuarded (require_admin srv.config request.headers) invite_form w
        (λ id h. require_admin-IsAdmin srv.config request.headers h) posted
  dispatch-IsGuarded invite w posted =
      guarded-IsGuarded (require_admin srv.config request.headers) invite w
        (λ id h. require_admin-IsAdmin srv.config request.headers h) posted
  dispatch-IsGuarded (user name) w posted =
      guarded-IsGuarded (require_admin srv.config request.headers) (user name) w
        (λ id h. require_admin-IsAdmin srv.config request.headers h) posted
  dispatch-IsGuarded (to_set_groups name) w posted =
      guarded-IsGuarded (require_admin srv.config request.headers) (to_set_groups name) w
        (λ id h. require_admin-IsAdmin srv.config request.headers h) posted
  dispatch-IsGuarded (to_delete name) w posted =
      guarded-IsGuarded (require_admin srv.config request.headers) (to_delete name) w
        (λ id h. require_admin-IsAdmin srv.config request.headers h) posted

  -- A request leaves everything as it was, unless it is an administrator's; and then it changes
  -- nothing but what the apps do when they are asked for their accounts, unless it is a POST of a
  -- form that is not too large, with a token in force for that administrator.
  pub serve-IsGuarded : (w : World S) → IsGuarded w (serve srv around request w).0
  unfolding serve
  serve-IsGuarded w =
      dispatch-IsGuarded (route request.method request.path) w
        (route-posted request.method request.path)
