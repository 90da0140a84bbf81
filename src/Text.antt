-- ===== src/Text.antt =====
-- Go strings. A string is the list of its bytes, as in Go; literals are written `lit "…"`.
pub mod Utf8
pub mod Case
pub mod Parts
pub mod Subset
pub mod Order
pub mod Maps
pub mod Distinct
pub mod Filled
pub mod Decimal
pub mod Base64
pub mod Split
use Prim.Native.Char.{code}
use Prim.Native.String.{String}
use vps_user_portal.Base.{
  ℕ, ◌≡◌, refl, subst, ◌↔◌, inl, inr, Bool-cases, All, Bool, true, false, ◌&&◌, ◌||◌, List, [], ◌∷◌,
  arith, ◌==◌, ltb, if◌then◌else◌,
}

abbrev pub Text : Type 0
Text = List ℕ

-- The bytes of an ASCII literal.
abbrev pub lit : String → Text
lit String.[] = []
lit (String.◌∷◌ c s) = code c ∷ lit s

-- `a == b` on strings
unfoldable pub same : Text → Text → Bool
same [] [] = true
same [] (c ∷ t) = false
same (c ∷ s) [] = false
same (c ∷ s) (d ∷ t) = c == d && same s t

pub same_refl : (s : Text) → same s s ≡ true
unfolding same
same_refl [] = refl
same_refl (c ∷ s) = ground (arith, same_refl s)

pub same_comm : (m n : Text) → same m n ≡ same n m
unfolding same
same_comm [] [] = refl
same_comm [] (d ∷ n) = refl
same_comm (c ∷ m) [] = refl
same_comm (c ∷ m) (d ∷ n) = ground (arith, same_comm m n)

eq_of_same : (s t : Text) → same s t ≡ true → s ≡ t
unfolding same
eq_of_same [] [] h = refl
eq_of_same [] (c ∷ t) h = cc
eq_of_same (c ∷ s) [] h = cc
eq_of_same (c ∷ s) (d ∷ t) h = ground (arith, eq_of_same s t)

pub same_iff : (s t : Text) → (same s t ≡ true) ↔ (s ≡ t)
same_iff s t = (eq_of_same s t, λ p. subst (λ u. same s u ≡ true) p (same_refl s))

-- `a < b` on strings: bytewise
unfoldable pub text_lt : Text → Text → Bool
text_lt s [] = false
text_lt [] (d ∷ t) = true
text_lt (c ∷ s) (d ∷ t) = ltb c d || c == d && text_lt s t

-- `x` is an element of `xs`
unfoldable pub contains : List Text → Text → Bool
unfolding same
contains [] x = false
contains (y ∷ ys) x = same y x || contains ys x

module _ {ℓ} (P : Text → Type ℓ) where
  pub All-contains : (xs : List Text) (x : Text) → All P xs → contains xs x ≡ true → P x
  unfolding contains
  All-contains [] x h e = cc
  All-contains (y ∷ ys) x h e = elim (Bool-cases (same y x)) [
    | inl p ↦ subst P ((same_iff y x).0 p) h.0
    | inr p ↦ All-contains ys x h.1 (ground arith)
  ]

  pub All-of_contains : (xs : List Text) → ((x : Text) → contains xs x ≡ true → P x) → All P xs
  unfolding contains
  All-of_contains [] h = tt
  All-of_contains (y ∷ ys) h =
      (h y (ground (arith, same_refl y)), All-of_contains ys (λ x e. h x (ground arith)))
