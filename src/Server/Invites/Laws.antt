-- ===== src/Server/Invites/Laws.antt =====
-- What `parseInviteLines` and `buildInviteUser` of internal/server/server.go let through.
use vps_user_portal.Userstore.Names.{derive_username, valid_username}
use vps_user_portal.Userstore.Types.{User}
use vps_user_portal.Text.Distinct.{AreFresh, IsDistinct, AreFresh-not}
use vps_user_portal.Text.Parts.{contains_any, cut, split}
use vps_user_portal.Text.{Text, contains, same_iff}
use vps_user_portal.Config.{Config}
use vps_user_portal.Server.Invites.{
  InviteEntry, parse_lines, parse_invite_lines, shown_name, is_address, build_invite_user,
  derive_display_name, address, is_blank, not_an_address, domain_not_allowed, long_display_name,
  no_username,
}
use vps_user_portal.Text.Case.{Unicode}
use vps_user_portal.Base.{
  List, ◌∷◌, ◌≡◌, is_empty, [], Bool-cases, map, false, any, true, ok, arith, ◌||◌, ◌&&◌,
  bind-eq-ok, inl, not, require, inr, length, refl, ◌≤◌, leb, require-eq-ok, subst, ok_injective,
}

abbrev pub emails : List InviteEntry → List Text
emails [] = []
emails (e ∷ es) = e.email ∷ emails es

module _ ⦃unicode : Unicode⦄ where
  parse_lines-fresh :
      (seen lines : List Text)
      → AreFresh seen (emails (parse_lines seen lines))
        × IsDistinct (emails (parse_lines seen lines))
  unfolding parse_lines
  parse_lines-fresh seen [] = (tt, tt)
  parse_lines-fresh seen (line ∷ lines) =
      elim (Bool-cases (is_empty (address line) || contains seen (address line))) [
        | inl skip ↦ rw skip (parse_lines-fresh seen lines)
        | inr new ↦
            let (fresh, distinct) = parse_lines-fresh (address line ∷ seen) lines in
            let (still_fresh, alone) = AreFresh-not seen (address line) _ fresh in
            rw new ((ground arith, still_fresh), (alone, distinct))
      ]

  contains-parse_lines :
      (seen lines : List Text) (a : Text)
      → contains (emails (parse_lines seen lines)) a
        ≡ (contains (map address lines) a && (not (is_empty a) && not (contains seen a)))
  unfolding parse_lines contains
  contains-parse_lines seen [] a = refl
  contains-parse_lines seen (line ∷ lines) a = ground (
    arith,
    contains-parse_lines seen lines a,
    contains-parse_lines (address line ∷ seen) lines a,
    same_iff (address line) a,
  )

  -- No address stands twice among the entries of a form, and an address is among them exactly if it
  -- is that of some line, lowercased and trimmed, and not empty.
  pub parse_invite_lines_lem :
      (raw a : Text)
      → IsDistinct (emails (parse_invite_lines raw))
        × (contains (emails (parse_invite_lines raw)) a
            ≡ (contains (map address (split raw b'\n')) a && not (is_empty a)))
  unfolding parse_invite_lines contains
  parse_invite_lines_lem raw a = (
    (parse_lines-fresh [] (split raw b'\n')).1,
    ground (arith, contains-parse_lines [] (split raw b'\n') a),
  )

  shown_name-filled :
      (display_name local : Text)
      → is_empty local ≡ false
      → is_empty (shown_name display_name local) ≡ false
  unfolding shown_name derive_display_name
  shown_name-filled display_name local h = ground arith

  -- A user that the form can make.
  pub record IsInvitable (cfg : Config) (email_addr : Text) (groups : List Text) (u : User)
      : Type 0 where
    pub email : u.email ≡ email_addr
    pub no_blank : any is_blank u.email ≡ false
    pub domain : contains cfg.allowed_email_domains (cut u.email b'@').1 ≡ true
    pub username : u.username ≡ derive_username u.email
    pub valid : valid_username u.username ≡ true
    pub shown : is_empty u.display_name ≡ false
    pub short : length u.display_name ≤ 100
    pub granted : u.groups ≡ groups
    pub enabled : u.disabled ≡ false

  is_address_lem :
      (email_addr : Text)
      → is_address email_addr ≡ true
      → (is_empty (cut email_addr b'@').0 ≡ false) × (any is_blank email_addr ≡ false)
  unfolding is_address contains_any
  is_address_lem email_addr h = ground arith

  -- A user that `buildInviteUser` makes has the address of the entry, without blanks and with a domain
  -- of the allowlist, a valid username derived from it, a display name of 1 to 100 bytes, and the
  -- groups of the form, and is enabled.
  pub build_invite_user-IsInvitable :
      (cfg : Config) (email_addr display_name : Text) (groups : List Text) {u : User}
      → build_invite_user cfg email_addr display_name groups ≡ ok u
      → IsInvitable cfg email_addr groups u
  unfolding build_invite_user
  build_invite_user-IsInvitable cfg email_addr display_name groups h =
      let local = (cut email_addr b'@').0 in
      let (a, shaped, h1) = bind-eq-ok (require (is_address email_addr) not_an_address) _ h in
      let (b, allowed, h2) =
        bind-eq-ok
          (require (contains cfg.allowed_email_domains (cut email_addr b'@').1)
            (domain_not_allowed (cut email_addr b'@').1))
          _ h1 in
      let (c, fits, h3) =
        bind-eq-ok (require (leb (length (shown_name display_name local)) 100) long_display_name) _
          h2 in
      let (d, valid, whole) =
        bind-eq-ok (require (valid_username (derive_username email_addr)) no_username) _ h3 in
      let (filled, no_blank) = is_address_lem email_addr (require-eq-ok _ _ shaped) in
      subst (IsInvitable cfg email_addr groups) (ok_injective whole) (record {
        email = refl;
        no_blank = no_blank;
        domain = require-eq-ok _ _ allowed;
        username = refl;
        valid = require-eq-ok _ _ valid;
        shown = shown_name-filled display_name local filled;
        short = ground (
          arith,
          require-eq-ok (leb (length (shown_name display_name local)) 100) long_display_name fits,
        );
        granted = refl;
        enabled = refl;
      })
