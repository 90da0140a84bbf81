-- ===== src/Tests/Pages.antt =====
-- Pages with data that looks like markup, and the probe of the portal that serves them.
use vps_user_portal.Server.Mux.{route}
use vps_user_portal.Server.Routes.{serve, dispatch, health_page}
use vps_user_portal.Tests.Toy.{ascii}
use vps_user_portal.Base.{
  ◌≡◌, [], ◌∷◌, refl, arith, true, ok, ◌↔◌, Outcome, ℕ, if◌then◌else◌, err, Option, none, ◌+◌,
}
use vps_user_portal.Server.Templates.Laws.{decode, decode-escape}
use vps_user_portal.Server.Templates.{escape, write, link, segment}
use vps_user_portal.Server.Wording.{Words, detail_of}
use vps_user_portal.Server.Handlers.Batch.{created}
use vps_user_portal.Server.Pages.{View, message_view}
use vps_user_portal.Main.Probed.{probe_iff, asking}
use vps_user_portal.Main.{probe, probe_address}
use vps_user_portal.Server.Health.{IsPassing, handle_healthz, check_loop}
use vps_user_portal.Tests.Serving.{srv, surroundings}
use vps_user_portal.Tests.Handling.{world}
use vps_user_portal.Tests.Forms.{headers}
use vps_user_portal.Tests.Store.{dir_ab}
use vps_user_portal.Text.Parts.{has_prefix}
use vps_user_portal.Text.{Text, lit, same}

abbrev words : Words Text
words = record { store = λ e. lit "the users file failed"; app = λ e. e; mail = lit "refused" }

abbrev sly : Text
sly = lit "<b title='x'>&+\""

sly_escaped : escape sly ≡ lit "&lt;b title=&#39;x&#39;&gt;&amp;&#43;&#34;"
unfolding escape
sly_escaped = refl

sly_read_back : decode (escape sly) ≡ sly
sly_read_back = decode-escape sly (omega arith)

abbrev sly_view : View Text
sly_view = message_view (lit "Access updated") sly []

scripts_are_filtered : write (link (lit "javascript:alert(1)")) ≡ lit "#ZgotmplZ"
unfolding write
scripts_are_filtered = refl

links_are_kept : write (link (lit "https://x.org/a b?c=d")) ≡ lit "https://x.org/a%20b?c=d"
unfolding write
links_are_kept = refl

names_are_encoded : write (segment (lit "o'hara\"")) ≡ lit "o%27hara%22"
unfolding write
names_are_encoded = refl

warned :
    detail_of words (created ((lit "planka", lit "down") ∷ []) true)
    ≡ lit "planka: down (will self-heal at first login); welcome email failed: refused"
unfolding detail_of
warned = refl

abbrev unset : Text → Text
unset name = []

-- Only the portal's own address answers.
abbrev fetch : Text → Outcome Text ℕ
fetch url = if same url (lit "http://127.0.0.1:8080/healthz") then ok 200 else err (lit "refused")

-- One round of checks, and one tick
abbrev started : ℕ × Option (Text × Text)
started = (0, none)

portal_answers :
    fetch (probe_address unset)
    ≡ ok
        (serve
          (record srv { check_error = (check_loop srv.provs ((λ n. n + 1) ∷ []) started).1 })
          surroundings
          (asking headers [])
          (world dir_ab)).1.status
unfolding probe_address serve dispatch route health_page handle_healthz check_loop same has_prefix
portal_answers = refl

probe_iff_example :
    (probe unset fetch ≡ 0) ↔ IsPassing srv.provs ((check_loop srv.provs [] started).0 + 1)
probe_iff_example =
    probe_iff srv surroundings headers [] unset fetch [] (λ n. n + 1) started (world dir_ab)
      portal_answers
