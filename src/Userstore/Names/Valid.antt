-- ===== src/Userstore/Names/Valid.antt =====
-- When a derived username is a valid one (internal/userstore/userstore.go).
use vps_user_portal.Text.Case.{Unicode, to_lower}
use vps_user_portal.Text.Utf8.{encode, encode-ascii, runes}
use mathlib.Core.List.{flat_map}
use vps_user_portal.Text.{Text}
use vps_user_portal.Base.{
  List, ℕ, Bool, all, ◌≡◌, ◌∷◌, true, false, arith, keep, [], refl, Bool-cases, subst, inl, inr, ap,
  ◌||◌, leb, ◌∙◌, length, and-eq-true, ◌&&◌, ap₂, all-keep_self,
}
use vps_user_portal.Text.Parts.{trim_start, trim_end, trim, cut}
use vps_user_portal.Userstore.Names.{
  is_alphanumeric, is_joint, is_kept, valid_username, derive_username,
}

all-trim_start : (p q : ℕ → Bool) (s : Text) → all q s ≡ true → all q (trim_start p s) ≡ true
unfolding trim_start
all-trim_start p q [] h = refl
all-trim_start p q (c ∷ s) h = ground (arith, all-trim_start p q s)

all-trim_end : (p q : ℕ → Bool) (s : Text) → all q s ≡ true → all q (trim_end p s) ≡ true
unfolding trim_end
all-trim_end p q [] h = refl
all-trim_end p q (c ∷ s) h = ground (arith, all-trim_end p q s)

-- The first character of a trimmed text is not in the cutset.
trim_start-head :
    (p : ℕ → Bool) (s : Text) {c : ℕ} {t : Text} → trim_start p s ≡ c ∷ t → p c ≡ false
unfolding trim_start
trim_start-head p [] h = cc
trim_start-head p (d ∷ s) h = elim (Bool-cases (p d)) [
  | inl e ↦ trim_start-head p s (rw e at h)
  | inr e ↦ ground arith
]

trim_end-head :
    (p : ℕ → Bool) (d : ℕ) (s : Text) {c : ℕ} {t : Text} → trim_end p (d ∷ s) ≡ c ∷ t → d ≡ c
unfolding trim_end
trim_end-head p d s h = ground arith

trim_end-head_kept :
    (p : ℕ → Bool) (s : Text) {c : ℕ} {t : Text}
    → ((d : ℕ) (r : Text) → s ≡ d ∷ r → p d ≡ false)
    → trim_end p s ≡ c ∷ t
    → p c ≡ false
trim_end-head_kept p [] first h = unfold trim_end in cc
trim_end-head_kept p (d ∷ s) first h =
    subst (λ e. p e ≡ false) (trim_end-head p d s h) (first d s refl)

trim-head : (p : ℕ → Bool) (s : Text) {c : ℕ} {t : Text} → trim p s ≡ c ∷ t → p c ≡ false
unfolding trim
trim-head p s h = trim_end-head_kept p (trim_start p s) (λ d r e. trim_start-head p s e) h

encode-kept : (r : ℕ) → is_kept r ≡ true → encode r ≡ r ∷ []
encode-kept r h = encode-ascii r (ground arith)

kept-bytes : (rs : List ℕ) → flat_map encode (keep is_kept rs) ≡ keep is_kept rs
unfolding flat_map
kept-bytes [] = refl
kept-bytes (r ∷ rs) = elim (Bool-cases (is_kept r)) [
  | inl e ↦ rw e (rw (encode-kept r e) (ap (◌∷◌ r) (kept-bytes rs)))
  | inr e ↦ rw e (kept-bytes rs)
]

all-weaken :
    (p q : ℕ → Bool)
    → ((c : ℕ) → p c ≡ true → q c ≡ true)
    → (s : Text) → all p s ≡ true
    → all q s ≡ true
all-weaken p q h [] e = refl
all-weaken p q h (c ∷ s) e = ground (arith, h c, all-weaken p q h s)

kept-later : (c : ℕ) → is_kept c ≡ true → (is_alphanumeric c || is_joint c) ≡ true
kept-later c h = ground arith

kept-first : (c : ℕ) → is_kept c ≡ true → is_joint c ≡ false → is_alphanumeric c ≡ true
kept-first c h j = ground arith

valid_username-kept :
    (c : ℕ) (s : Text)
    → all is_kept (c ∷ s) ≡ true
    → is_joint c ≡ false
    → valid_username (c ∷ s) ≡ leb (length s) 63
unfolding valid_username
valid_username-kept c s h j =
    let (first, later) = and-eq-true (is_kept c) (all is_kept s) h in
    let a = kept-first c first j in
    let b = all-weaken is_kept (λ d. is_alphanumeric d || is_joint d) kept-later s later in
    ap₂ (λ (p q : Bool). p && q && leb (length s) 63) a b

-- A text of the right length
abbrev pub fits : Text → Bool
fits s = leb 1 (length s) && leb (length s) 64

valid_username-trim :
    (s d : Text) → all is_kept s ≡ true → trim is_joint s ≡ d → valid_username d ≡ fits d
unfolding trim valid_username
valid_username-trim s [] h e = refl
valid_username-trim s (c ∷ d) h e =
    let kept =
      all-trim_end is_joint is_kept (trim_start is_joint s) (all-trim_start is_joint is_kept s h) in
    valid_username-kept c d (subst (λ t. all is_kept t ≡ true) e kept) (trim-head is_joint s e)
    ∙ ground arith

module _ ⦃u : Unicode⦄ where
  -- A derived username is valid exactly when it has from 1 to 64 characters.
  pub valid_username-derive_username :
      (email : Text) → valid_username (derive_username email) ≡ fits (derive_username email)
  unfolding derive_username
  valid_username-derive_username email =
      let kept = keep is_kept (runes (to_lower (cut email b'@').0)) in
      rw (kept-bytes (runes (to_lower (cut email b'@').0))) (
        valid_username-trim kept _ (all-keep_self is_kept (runes (to_lower (cut email b'@').0)))
          refl)
