-- ===== src/Email/Laws.antt =====
-- What a reader of the welcome mail of internal/email/email.go takes for its header.
use vps_user_portal.Server.Invites.Laws.{build_invite_user-IsInvitable}
use vps_user_portal.Config.{Config}
use vps_user_portal.Text.Split.{Misses, split-append, Misses-append, Misses-of}
use vps_user_portal.Base.{
  ◌∷◌, List, is_empty, ◌++◌, any, if◌then◌else◌, ◌≡◌, [], All, ◌==◌, false, ap, refl, arith, sym,
  ◌∙◌, ok, append_assoc,
}
use vps_user_portal.Text.Case.{Unicode}
use vps_user_portal.Server.Invites.{is_blank, build_invite_user}
use vps_user_portal.Email.{headers, message, Smtp, line_end, welcome_body}
use vps_user_portal.Text.Parts.{join, split}
use vps_user_portal.Text.{Text, same, lit}
use vps_user_portal.Userstore.Types.{User}

drop_cr : Text → Text
drop_cr [] = []
drop_cr (c ∷ []) = if c == 13 then [] else c ∷ []
drop_cr (c ∷ d ∷ s) = c ∷ drop_cr (d ∷ s)

header_lines : List Text → List Text
unfolding drop_cr same
header_lines [] = []
header_lines (l ∷ ls) =
    let rest = header_lines ls in if same l (13 ∷ []) then [] else drop_cr l ∷ rest

-- The lines in front of the first empty one; a line ends with a line feed, and a carriage return
-- before it belongs to the end.
pub header_section : Text → List Text
unfolding header_lines
header_section m = header_lines (split m 10)

abbrev Full : Text → Type 0
Full l = (is_empty l ≡ false) × Misses 10 l

drop_cr_end : (s : Text) → drop_cr (s ++ 13 ∷ []) ≡ s
unfolding drop_cr
drop_cr_end [] = refl
drop_cr_end (c ∷ []) = refl
drop_cr_end (c ∷ d ∷ s) = ap (λ x. c ∷ x) (drop_cr_end (d ∷ s))

same_cr : (s : Text) → is_empty s ≡ false → same (s ++ 13 ∷ []) (13 ∷ []) ≡ false
unfolding same
same_cr [] h = cc
same_cr (c ∷ []) h = ground arith
same_cr (c ∷ d ∷ s) h = ground arith

split_line : (s t : Text) → Misses 10 s → split (s ++ 13 ∷ 10 ∷ t) 10 ≡ (s ++ 13 ∷ []) ∷ split t 10
split_line s t h =
    ap (λ x. split x 10) (sym (append_assoc s (13 ∷ []) (10 ∷ t)))
    ∙ split-append (s ++ 13 ∷ []) t 10 (Misses-append 10 s (13 ∷ []) h (refl, tt))

header_section-line :
    (s t : Text) → Full s → header_section (s ++ 13 ∷ 10 ∷ t) ≡ s ∷ header_section t
unfolding header_section header_lines
header_section-line s t (full, plain) = rw (split_line s t plain, same_cr s full, drop_cr_end s)

header_section_end : (t : Text) → header_section (13 ∷ 10 ∷ t) ≡ []
unfolding header_section header_lines same
header_section_end t = rw (split_line [] t tt)

-- The lines are read back, whatever the body is.
header_section-join :
    (hs : List Text) (body : Text)
    → All Full hs
    → header_section (join (hs ++ [] ∷ body ∷ []) line_end) ≡ hs
unfolding join
header_section-join [] body h = header_section_end body
header_section-join (l ∷ []) body h =
    header_section-line l (join ([] ∷ body ∷ []) line_end) h.0
    ∙ ap (λ x. l ∷ x) (header_section_end body)
header_section-join (l ∷ k ∷ hs) body h =
    header_section-line l (join (k ∷ hs ++ [] ∷ body ∷ []) line_end) h.0
    ∙ ap (λ x. l ∷ x) (header_section-join (k ∷ hs) body h.1)

headers-Full :
    (s : Smtp) (to : Text)
    → Misses 10 s.from
    → Misses 10 s.subject_prefix
    → Misses 10 to
    → All Full (headers s to)
unfolding headers
headers-Full s to from prefix address = (
  (refl, Misses-append 10 (lit "From: ") s.from (Misses-of 10 (lit "From: ") refl) from),
  (
    (refl, Misses-append 10 (lit "To: ") to (Misses-of 10 (lit "To: ") refl) address),
    (
      (
        refl,
        Misses-append 10 (lit "Subject: ") (s.subject_prefix ++ lit " Your account is ready")
            (Misses-of 10 (lit "Subject: ") refl)
            (Misses-append 10 s.subject_prefix (lit " Your account is ready") prefix
              (Misses-of 10 (lit " Your account is ready") refl)),
      ),
      (
        (refl, Misses-of 10 (lit "MIME-Version: 1.0") refl),
        ((refl, Misses-of 10 (lit "Content-Type: text/plain; charset=utf-8") refl), tt),
      ),
    ),
  ),
)

-- Without a line feed in the sender, the subject prefix and the address, the header of the mail is the
-- five lines that the program wrote, whatever the display name and the URL are.
pub header_section-message :
    (s : Smtp) (to display_name sso_url : Text)
    → Misses 10 s.from
    → Misses 10 s.subject_prefix
    → Misses 10 to
    → header_section (message s to display_name sso_url) ≡ headers s to
unfolding message
header_section-message s to display_name sso_url from prefix address =
    header_section-join (headers s to) (welcome_body display_name to sso_url)
      (headers-Full s to from prefix address)

Misses-is_blank : ⦃unicode : Unicode⦄ (s : Text) → any is_blank s ≡ false → Misses 10 s
unfolding is_blank
Misses-is_blank [] h = tt
Misses-is_blank (c ∷ s) h = (ground arith, Misses-is_blank s (ground arith))

-- To a user that the invite form lets through, whatever was typed for the name, the mail has
-- exactly the header lines that the program wrote, if the configured sender and subject prefix have
-- no line feed.
pub header_section_invited :
    ⦃unicode : Unicode⦄ (s : Smtp) (cfg : Config) (email_addr display_name sso_url : Text)
    (groups : List Text) (u : User)
    → build_invite_user cfg email_addr display_name groups ≡ ok u
    → Misses 10 s.from
    → Misses 10 s.subject_prefix
    → header_section (message s u.email u.display_name sso_url) ≡ headers s u.email
header_section_invited s cfg email_addr display_name sso_url groups u built from prefix =
    let invitable =
      build_invite_user-IsInvitable cfg email_addr display_name groups {u = u} built in
    header_section-message s u.email u.display_name sso_url from prefix
      (Misses-is_blank u.email invitable.no_blank)
