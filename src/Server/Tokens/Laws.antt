-- ===== src/Server/Tokens/Laws.antt =====
-- When a form token of internal/server/csrf.go is valid, and for whom.
use vps_user_portal.Text.Split.{Misses, cut-append}
use vps_user_portal.Text.Decimal.Laws.{print-is_digit, parse_int-print, parse_int-IsInt64}
use vps_user_portal.Text.Base64.{decode64, url, encode64}
use vps_user_portal.Text.Base64.Laws.{IsByte, decode64-encode64}
use vps_user_portal.Text.{Text, same_iff, same_refl, same}
use vps_user_portal.Server.Tokens.{
  message, csrf_valid, signed, csrf_token, csrf_ttl, csrf_mac, expiring, is_past,
}
use vps_user_portal.Text.Decimal.{is_digit, print_int, parse_int, int_bound, ℤ, pos, print, negsuc}
use vps_user_portal.Text.Parts.{cut}
use vps_user_portal.Base.{
  ℕ, All, List, ◌∷◌, ◌<◌, ◌+◌, ◌≡◌, true, Option, some, arith, sym, ◌≤◌, [], leb, ap, ◌⊎◌, ◌≢◌, ◌∙◌,
  none, Bool-cases, and-eq-true, inl, ◌&&◌, inr, ltb, refl,
}

pub Misses-digits : (c : ℕ) (s : Text) → c < b'0' → All (λ x. is_digit x ≡ true) s → Misses c s
unfolding is_digit
Misses-digits c [] small h = tt
Misses-digits c (x ∷ s) small h = (ground (arith, h.0), Misses-digits c s small h.1)

Misses-bar : (s : Text) → All (λ x. is_digit x ≡ true) s → Misses b'|' s
unfolding is_digit
Misses-bar [] h = tt
Misses-bar (x ∷ s) h = (ground (arith, h.0), Misses-bar s h.1)

-- The signed message tells its expiry and its actor apart from every other.
message_injective :
    (m n : ℕ) (a b : Text)
    → m < int_bound
    → n < int_bound
    → message (pos m) a ≡ message (pos n) b
    → (m ≡ n) × (a ≡ b)
unfolding message print_int
message_injective m n a b hm hn h =
    let parts =
      sym (cut-append (print m) a b'|' (Misses-bar (print m) (print-is_digit m)))
      ∙ ap (λ s. cut s b'|') h
      ∙ cut-append (print n) b b'|' (Misses-bar (print n) (print-is_digit n)) in
    let numbers =
      sym (parse_int-print m hm) ∙ ap (λ p. parse_int p.0) parts ∙ parse_int-print n hn in
    (ground (arith, numbers), ap (λ p. p.1) parts)

module _ (hmac : Text → Text → List ℕ) (secret : Text) where
  -- A token made for one actor, tried for another.
  csrf_valid-minted :
      (a b : Text) (now later : ℕ)
      → now + csrf_ttl < int_bound
      → All IsByte (csrf_mac hmac secret (pos (now + csrf_ttl)) a)
      → csrf_valid hmac secret b (csrf_token hmac secret a now) later ≡ (
          leb later (now + csrf_ttl)
          && same
              (csrf_mac hmac secret (pos (now + csrf_ttl)) a)
              (csrf_mac hmac secret (pos (now + csrf_ttl)) b))
  unfolding csrf_valid csrf_token print_int expiring is_past signed
  csrf_valid-minted a b now later fits bytes =
      let exp = now + csrf_ttl in
      rw
        (
          cut-append (print exp) (encode64 url (csrf_mac hmac secret (pos exp) a)) b'.'
              (Misses-digits b'.' (print exp) (omega arith) (print-is_digit exp)),
          parse_int-print exp fits,
          decode64-encode64 url (csrf_mac hmac secret (pos exp) a) bytes,
        )
        (ground arith)

  -- With a digest of bytes, a token is valid for the actor that it was made for exactly until four
  -- hours after it was made, if the expiry is an int64.
  pub csrf_valid-csrf_token :
      (actor : Text) (now later : ℕ)
      → now + csrf_ttl < int_bound
      → All IsByte (csrf_mac hmac secret (pos (now + csrf_ttl)) actor)
      → csrf_valid hmac secret actor (csrf_token hmac secret actor now) later
        ≡ leb later (now + csrf_ttl)
  csrf_valid-csrf_token actor now later fits bytes =
      csrf_valid-minted actor actor now later fits bytes
      ∙ ground (arith, same_refl (csrf_mac hmac secret (pos (now + csrf_ttl)) actor))

  signed_sound :
      (actor : Text) (exp : ℤ) (sig : Option (List ℕ))
      → signed hmac secret actor exp sig ≡ true
      → sig ≡ some (csrf_mac hmac secret exp actor)
  unfolding signed
  signed_sound actor exp none h = cc
  signed_sound actor exp (some sig) h = ap some ((same_iff sig _).0 h)

  -- A token in force carries an expiry, an int64 that is not past, and the MAC of it with the actor.
  pub record IsInForce (actor token : Text) (now : ℕ) : Type 0 where
    pub expiry : ℕ
    pub printed : parse_int (cut token b'.').0 ≡ some (pos expiry)
    pub not_past : now ≤ expiry
    pub bounded : expiry < int_bound
    pub mac : decode64 url (cut token b'.').1 ≡ some (csrf_mac hmac secret (pos expiry) actor)

  expiring_sound :
      (actor : Text) (now : ℕ) (sig_str : Text) (parsed : Option ℤ)
      → expiring hmac secret actor now sig_str parsed ≡ true
      → (e : ℕ) × (parsed ≡ some (pos e))
        × (now ≤ e)
        × (decode64 url sig_str ≡ some (csrf_mac hmac secret (pos e) actor))
  unfolding expiring is_past
  expiring_sound actor now sig_str none h = cc
  expiring_sound actor now sig_str (some (negsuc e)) h = cc
  expiring_sound actor now sig_str (some (pos e)) h = elim (Bool-cases (ltb e now)) [
    | inl late ↦ cc (rw late at h)
    | inr early ↦
        (e, refl, ground arith, signed_sound actor (pos e) (decode64 url sig_str) (rw early at h))
  ]

  -- Only tokens that carry an int64 expiry that is not past, with the MAC of it and the actor, are
  -- valid.
  pub csrf_valid-IsInForce :
      (actor token : Text) (now : ℕ)
      → csrf_valid hmac secret actor token now ≡ true
      → IsInForce actor token now
  unfolding csrf_valid
  csrf_valid-IsInForce actor token now h = elim (Bool-cases (cut token b'.').2) [
    | inl found ↦
        let (e, printed, not_past, mac) =
          expiring_sound actor now (cut token b'.').1 (parse_int (cut token b'.').0)
            (rw found at h) in
        record {
          expiry = e;
          printed = printed;
          not_past = not_past;
          bounded = parse_int-IsInt64 (cut token b'.').0 (pos e) printed;
          mac = mac;
        }
    | inr missing ↦ cc (rw missing at h)
  ]

  -- A token made for one actor is valid for another only if two different messages have one MAC.
  pub csrf_valid_bound :
      (a b : Text) (now later : ℕ)
      → now + csrf_ttl < int_bound
      → All IsByte (csrf_mac hmac secret (pos (now + csrf_ttl)) a)
      → csrf_valid hmac secret b (csrf_token hmac secret a now) later ≡ true
      → (a ≡ b) ⊎ ((m n : Text) × (m ≢ n) × (hmac secret m ≡ hmac secret n))
  unfolding csrf_mac
  csrf_valid_bound a b now later fits bytes h =
      let exp = now + csrf_ttl in
      let (early, one_mac) =
        and-eq-true (leb later exp)
          (same (csrf_mac hmac secret (pos exp) a) (csrf_mac hmac secret (pos exp) b))
          (sym (csrf_valid-minted a b now later fits bytes) ∙ h) in
      elim (Bool-cases (same a b)) [
        | inl e ↦ inl ((same_iff a b).0 e)
        | inr other ↦ inr (
          message (pos exp) a,
          message (pos exp) b,
          (λ e. cc ((message_injective exp exp a b fits fits e).1, other, same_refl a)),
          (same_iff (csrf_mac hmac secret (pos exp) a) (csrf_mac hmac secret (pos exp) b)).0
              one_mac,
        )
      ]
