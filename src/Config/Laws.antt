-- ===== src/Config/Laws.antt =====
-- What a configuration that `Load` of internal/config/config.go lets through guarantees.
use vps_user_portal.Text.Parts.{fields_func, has_prefix, has_prefix_sound}
use vps_user_portal.Text.Filled.{Filled, keep_filled-Filled}
use vps_user_portal.Text.{Text, lit, same, same_iff}
use vps_user_portal.Text.Case.{Unicode, to_lower}
use vps_user_portal.Base.{
  Bool, ◌≡◌, ◌≤◌, leb, not, All, length, ok, true, arith, ◌⊎◌, is_empty, Bool-cases, false,
  bind-eq-ok, subst, ◌++◌, refl, require, sym, ◌==◌, inl, ◌||◌, require-eq-ok, [], inr, ◌&&◌,
  and-eq-true, ok_injective, ℕ,
}
use vps_user_portal.Config.{
  get_env, split_list, Config, check_backend, check_config, load_config, read_config,
  short_csrf_secret, no_domains, no_groups, no_https_url,
}

get_env-Filled :
    (getenv : Text → Text) (key fallback : Text)
    → Filled fallback
    → Filled (get_env getenv key fallback)
unfolding get_env
get_env-Filled getenv key fallback h = ground arith

split_list-Filled : (v : Text) → All Filled (split_list v)
unfolding split_list
split_list-Filled v = keep_filled-Filled (fields_func (λ r. r == b',' || r == b' ' || r == b'\n') v)

-- A backend that can send: by SMTP only with a host and a sender.
abbrev HasBackend : Config → Type 0
HasBackend c =
    ((c.email_backend ≡ lit "smtp") × Filled c.email_host × Filled c.email_from)
    ⊎ (c.email_backend ≡ lit "log")
    ⊎ (c.email_backend ≡ lit "none")

pub record IsUsable (c : Config) : Type 0 where
  pub secret : 32 ≤ length c.csrf_secret
  pub some_domain : is_empty c.allowed_email_domains ≡ false
  pub domains : All Filled c.allowed_email_domains
  pub some_group : is_empty c.groups ≡ false
  pub groups : All Filled c.groups
  pub admin_group : Filled c.admin_group
  pub users_file : Filled c.users_file
  pub https : (rest : Text) × (c.sso_url ≡ lit "https://" ++ rest)
  pub backend : HasBackend c

check_backend_lem : (c : Config) {u : Unit {0}} → check_backend c ≡ ok u → HasBackend c
unfolding check_backend
check_backend_lem c h = elim (Bool-cases (same c.email_backend (lit "smtp"))) [
  | inl smtp ↦
      let filled =
        require-eq-ok (not (is_empty c.email_host || is_empty c.email_from)) _ (rw smtp at h) in
      inl ((same_iff c.email_backend (lit "smtp")).0 smtp, ground arith, ground arith)
  | inr other ↦
      let known =
        require-eq-ok (same c.email_backend (lit "log") || same c.email_backend (lit "none")) _
          (rw other at h) in
      elim (Bool-cases (same c.email_backend (lit "log"))) [
        | inl log ↦ inr (inl ((same_iff c.email_backend (lit "log")).0 log))
        | inr not_log ↦ inr (inr ((same_iff c.email_backend (lit "none")).0 (rw not_log at known)))
      ]
]

abbrev IsChecked : Config → Type 0
IsChecked c =
    (leb 32 (length c.csrf_secret) ≡ true)
    × (is_empty c.allowed_email_domains ≡ false)
    × (is_empty c.groups ≡ false)
    × (has_prefix c.sso_url (lit "https://") ≡ true)
    × HasBackend c

leb-eq-true : (a n : ℕ) → leb a n ≡ true → a ≤ n
leb-eq-true a n h = ground arith

not-eq-true : (b : Bool) → not b ≡ true → b ≡ false
not-eq-true true h = cc
not-eq-true false h = refl

check_config-IsChecked : (c : Config) {d : Config} → check_config c ≡ ok d → IsChecked c × (d ≡ c)
unfolding check_config
check_config-IsChecked c h =
    let (u1, secret, h1) =
      bind-eq-ok (require (leb 32 (length c.csrf_secret)) short_csrf_secret) _ h in
    let (u2, domains, h2) =
      bind-eq-ok (require (not (is_empty c.allowed_email_domains)) no_domains) _ h1 in
    let (u3, groups, h3) = bind-eq-ok (require (not (is_empty c.groups)) no_groups) _ h2 in
    let (u4, https, h4) =
      bind-eq-ok
        (require (not (is_empty c.sso_url) && has_prefix c.sso_url (lit "https://")) no_https_url) _
        h3 in
    let (u5, backend, whole) = bind-eq-ok (check_backend c) _ h4 in
    let prefixed =
      and-eq-true (not (is_empty c.sso_url)) (has_prefix c.sso_url (lit "https://"))
        (require-eq-ok _ _ https) in
    (
      (
        require-eq-ok _ _ secret,
        not-eq-true _ (require-eq-ok _ _ domains),
        not-eq-true _ (require-eq-ok _ _ groups),
        prefixed.1,
        check_backend_lem c backend,
      ),
      sym (ok_injective whole),
    )

module _ ⦃unicode : Unicode⦄ where
  -- A configuration that loads has a CSRF secret of at least 32 bytes, at least one domain and one
  -- group, none of them empty, an administrators' group and a users file, an https URL for the single
  -- sign-on service, and a mail backend that is log, none, or smtp with a host and a sender.
  pub load_config-IsUsable :
      (getenv : Text → Text) {c : Config} → load_config getenv ≡ ok c → IsUsable c
  unfolding load_config read_config
  load_config-IsUsable getenv h =
      let (fine, same_config) = check_config-IsChecked (read_config getenv) h in
      let (secret, some_domain, some_group, https, backend) = fine in
      subst IsUsable (sym same_config) (record {
        secret = leb-eq-true 32 (length (read_config getenv).csrf_secret) secret;
        some_domain = some_domain;
        domains = split_list-Filled (to_lower (get_env getenv (lit "ALLOWED_EMAIL_DOMAINS") []));
        some_group = some_group;
        groups = split_list-Filled (get_env getenv (lit "GROUPS") []);
        admin_group = get_env-Filled getenv (lit "ADMIN_GROUP") (lit "admin") refl;
        users_file =
            get_env-Filled getenv (lit "USERS_FILE") (lit "/authelia-users/users_database.yml")
              refl;
        https = has_prefix_sound (read_config getenv).sso_url (lit "https://") https;
        backend = backend;
      })
