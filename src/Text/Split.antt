-- ===== src/Text/Split.antt =====
-- Where `split` and `cut` cut a text that was joined at a byte that does not stand in its first part.
use vps_user_portal.Text.{Text}
use vps_user_portal.Text.Parts.{cut, split}
use vps_user_portal.Base.{
  ℕ, All, ◌++◌, ◌≡◌, ◌==◌, ◌∷◌, All-append, false, true, arith, [], refl, all, not,
}

abbrev pub Misses : ℕ → Text → Type 0
Misses c = All (λ x. (x == c) ≡ false)

pub cut-append : (s t : Text) (c : ℕ) → Misses c s → cut (s ++ c ∷ t) c ≡ (s, t, true)
unfolding cut
cut-append [] t c h = ground arith
cut-append (x ∷ s) t c h = ground (arith, cut-append s t c h.1)

pub split-append : (s t : Text) (c : ℕ) → Misses c s → split (s ++ c ∷ t) c ≡ s ∷ split t c
unfolding split
split-append [] t c h = ground arith
split-append (x ∷ s) t c h = rw (h.0, split-append s t c h.1)

pub split_whole : (s : Text) (c : ℕ) → Misses c s → split s c ≡ s ∷ []
unfolding split
split_whole [] c h = refl
split_whole (x ∷ s) c h = rw (h.0, split_whole s c h.1)

pub Misses-append : (c : ℕ) (s t : Text) → Misses c s → Misses c t → Misses c (s ++ t)
Misses-append c = All-append (λ x. (x == c) ≡ false)

-- For a text that is written out, the test computes.
pub Misses-of : (c : ℕ) (s : Text) → all (λ x. not (x == c)) s ≡ true → Misses c s
Misses-of c [] h = tt
Misses-of c (x ∷ s) h = (ground arith, Misses-of c s (ground arith))
