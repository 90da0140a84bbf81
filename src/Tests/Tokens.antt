-- ===== src/Tests/Tokens.antt =====
-- The form tokens, the welcome mail, the throwaway digest and a notification on concrete inputs.
use vps_user_portal.Audit.{Call, event, line_of}
use vps_user_portal.Tests.Toy.{ascii}
use vps_user_portal.Text.Split.{Misses-of}
use vps_user_portal.Tests.Forms.{cfg, jane, jane_built}
use vps_user_portal.Text.Base64.Laws.{IsByte}
use vps_user_portal.Text.Decimal.{pos}
use vps_user_portal.Base.{
  List, ◌≡◌, All, some, ◌∷◌, [], ℕ, true, leb, ◌⊎◌, ok, length, refl, ◌+◌, ◌≢◌, ◌%◌, arith, subst,
  sym, none, ◌++◌,
}
use vps_user_portal.Email.Laws.{header_section, header_section_invited}
use vps_user_portal.Email.{Smtp, message, headers, em_dash}
use vps_user_portal.Userstore.Hash.Laws.{IsDigest, throwaway_hash-IsDigest}
use vps_user_portal.Userstore.Hash.{Argon2, throwaway_hash, phc, argon_cost}
use vps_user_portal.Server.Tokens.Laws.{
  IsInForce, csrf_valid-IsInForce, csrf_valid_bound, csrf_valid-csrf_token,
}
use vps_user_portal.Server.Tokens.{csrf_token, csrf_valid, csrf_mac, csrf_ttl}
use vps_user_portal.Text.{Text, lit}

-- Toys: a MAC of one byte, one that is always the same, and an Argon2 that returns the salt.
abbrev pub length_mac : Text → Text → List ℕ
length_mac secret m = (length secret % 16) ∷ (length m % 16) ∷ []

abbrev same_mac : Text → Text → List ℕ
same_mac secret m = 7 ∷ []

abbrev token : Text
token = lit "15400.BAo"

token_made : csrf_token length_mac (lit "s3cr") (lit "root") 1000 ≡ token
unfolding csrf_token csrf_mac
token_made = refl

token_in_force : csrf_valid length_mac (lit "s3cr") (lit "root") token 15400 ≡ true
unfolding csrf_valid csrf_mac
token_in_force = refl

root_mac : csrf_mac length_mac (lit "s3cr") (pos 15400) (lit "root") ≡ 4 ∷ 10 ∷ []
unfolding csrf_mac
root_mac = refl

csrf_valid-csrf_token_example :
    csrf_valid length_mac
      (lit "s3cr")
      (lit "root")
      (csrf_token length_mac (lit "s3cr") (lit "root") 1000)
      15401
    ≡ leb 15401 (1000 + csrf_ttl)
csrf_valid-csrf_token_example =
    csrf_valid-csrf_token length_mac (lit "s3cr") (lit "root") 1000 15401 (omega arith)
      (subst (All IsByte) (sym root_mac) (omega arith, (omega arith, tt)))

csrf_valid-IsInForce_example : IsInForce length_mac (lit "s3cr") (lit "root") token 15400
csrf_valid-IsInForce_example =
    csrf_valid-IsInForce length_mac (lit "s3cr") (lit "root") token 15400 token_in_force

seven : All IsByte (csrf_mac same_mac (lit "s3cr") (pos (1000 + csrf_ttl)) (lit "root"))
unfolding csrf_mac
seven = (omega arith, tt)

stolen :
    csrf_valid same_mac
      (lit "s3cr")
      (lit "ann")
      (csrf_token same_mac (lit "s3cr") (lit "root") 1000)
      2000
    ≡ true
unfolding csrf_valid csrf_token csrf_mac
stolen = refl

csrf_valid_bound_example :
    (lit "root" ≡ lit "ann")
    ⊎ ((m n : Text) × (m ≢ n) × (same_mac (lit "s3cr") m ≡ same_mac (lit "s3cr") n))
csrf_valid_bound_example =
    csrf_valid_bound same_mac (lit "s3cr") (lit "root") (lit "ann") 1000 2000 (omega arith) seven
      stolen

abbrev pub toy_argon2 : Argon2
toy_argon2 = record { version = 19; id_key = λ password salt cost. salt }

digest_made :
    throwaway_hash toy_argon2 (some (3 ∷ [])) (some (1 ∷ 255 ∷ []))
    ≡ ok (phc toy_argon2 argon_cost (1 ∷ 255 ∷ []) (1 ∷ 255 ∷ []))
unfolding throwaway_hash
digest_made = refl

throwaway_hash-IsDigest_example :
    IsDigest toy_argon2
      (1 ∷ 255 ∷ [])
      (1 ∷ 255 ∷ [])
      (phc toy_argon2 argon_cost (1 ∷ 255 ∷ []) (1 ∷ 255 ∷ []))
throwaway_hash-IsDigest_example =
    throwaway_hash-IsDigest toy_argon2 (3 ∷ []) (1 ∷ 255 ∷ [])
      {hash = phc toy_argon2 argon_cost (1 ∷ 255 ∷ []) (1 ∷ 255 ∷ [])} digest_made
      (omega arith, (omega arith, tt)) (omega arith, (omega arith, tt))

abbrev pub relay : Smtp
relay = record {
  host = lit "mail.x.org";
  port = lit "587";
  username = [];
  password = [];
  from = lit "portal@x.org";
  subject_prefix = lit "[User portal]";
}

header_section_invited_example :
    header_section (message relay (lit "jane.smith@x.org") (lit "Jane Smith") cfg.sso_url)
    ≡ headers relay (lit "jane.smith@x.org")
header_section_invited_example =
    header_section_invited relay cfg (lit "jane.smith@x.org") [] cfg.sso_url (lit "staff" ∷ []) jane
      jane_built (Misses-of 10 (lit "portal@x.org") refl) (Misses-of 10 (lit "[User portal]") refl)

abbrev removal_failed : Call
removal_failed = record {
  actor = lit "root";
  action = lit "delete";
  target = lit "bob@x.org";
  detail = [];
  error = some (lit "no space");
}

urgent_notice : event (lit "https://ntfy.x.org/t") removal_failed ≡ (
  line_of removal_failed,
  some (record {
    url = lit "https://ntfy.x.org/t";
    headers =
        (lit "Title", lit "user-portal: delete bob@x.org")
        ∷ (lit "Priority", lit "high")
        ∷ (lit "Tags", lit "warning")
        ∷ [];
    body = lit "by root " ++ em_dash ++ lit "  (error: no space)";
  }),
)
unfolding event
urgent_notice = refl

not_told : (event [] removal_failed).1 ≡ none
unfolding event
not_told = refl
