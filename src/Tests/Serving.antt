-- ===== src/Tests/Serving.antt =====
-- Requests to the server of internal/server, with an app that counts its calls.
use vps_user_portal.Email.{smtp}
use vps_user_portal.Server.Handlers.{handle_delete}
use vps_user_portal.Server.Pages.{render, handle_invite_form, html}
use vps_user_portal.Tests.Tokens.{length_mac, toy_argon2, relay}
use vps_user_portal.Tests.Store.{dir_ab}
use vps_user_portal.Tests.Toy.{
  calm, toy, file_name, ascii, toy_encode, toy_parse, toy_user, toy_fields,
}
use vps_user_portal.Tests.Forms.{headers, cfg}
use vps_user_portal.Tests.Handling.{world, app}
use vps_user_portal.Base.{ℕ, false, [], ◌∷◌, none, true, ◌≡◌, refl}
use vps_user_portal.Server.Requests.{require_admin}
use vps_user_portal.Server.Tokens.{csrf_valid, csrf_token}
use vps_user_portal.Server.Routes.Responses.{IsServed, serve-IsServed}
use vps_user_portal.Server.Routes.Guarded.{IsGuarded, serve-IsGuarded}
use vps_user_portal.Server.Routes.{
  Server, Surroundings, serve, dispatch, guarded, handle, check_csrf, page, post_of,
}
use vps_user_portal.Server.Mux.{Request, Form, route}
use vps_user_portal.Text.{Text, lit}

abbrev pages_token : Text
pages_token = lit "15400.AAo"

abbrev pub parse_form : Text → Form
parse_form body = record {
  csrf = body;
  confirm = lit "on";
  send_email = [];
  users = [];
  groups = lit "ops" ∷ lit "staff" ∷ [];
}

abbrev pub srv : Server ℕ Text
srv = record {
  config = cfg;
  yaml = toy;
  file = file_name;
  provs = app ∷ [];
  mail = smtp relay;
  check_error = none;
  hmac = length_mac;
  argon2 = toy_argon2;
  parse_form = parse_form;
}

abbrev pub surroundings : Surroundings
surroundings = record {
  now = 1000;
  later = 1000;
  read_fails = false;
  around = calm;
  entropy = λ i. (none, none);
  around_entry = λ i. calm;
  takes_mail = λ i e. true;
}

abbrev bob_removal : Request
bob_removal = record {
  method = lit "POST";
  path = lit "users" ∷ lit "bob" ∷ lit "delete" ∷ [];
  headers = headers;
  body = pages_token;
}

removal_calls : (serve srv surroundings bob_removal (world dir_ab)).0.apps ≡ 1
unfolding serve dispatch route guarded require_admin handle handle_delete post_of check_csrf
    csrf_valid toy_encode toy_parse toy_user toy_fields
removal_calls = refl

serve-IsGuarded_example :
    IsGuarded srv surroundings bob_removal
      (world dir_ab)
      (serve srv surroundings bob_removal (world dir_ab)).0
serve-IsGuarded_example = serve-IsGuarded srv surroundings bob_removal (world dir_ab)

abbrev visit : Request
visit = record { method = lit "GET"; path = lit "invite" ∷ []; headers = headers; body = [] }

serve-IsServed_example :
    IsServed srv surroundings visit (serve srv surroundings visit (world dir_ab)).1
serve-IsServed_example = serve-IsServed srv surroundings visit (world dir_ab)

visit_shows :
    (serve srv surroundings visit (world dir_ab)).1.body
    ≡ html (lit "root") pages_token (handle_invite_form cfg)
unfolding serve dispatch route guarded require_admin handle page render csrf_token
visit_shows = refl
