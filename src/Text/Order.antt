-- ===== src/Text/Order.antt =====
-- `sort.Strings`: the bytewise order of strings, and sorting by insertion.
use vps_user_portal.Base.{suc, ◌≡◌, refl, ◌||◌, List, [], ◌∷◌, arith, if◌then◌else◌, length, All}
use vps_user_portal.Text.{Text, same, text_lt, contains}

insert_sorted : Text → List Text → List Text
unfolding text_lt
insert_sorted x [] = x ∷ []
insert_sorted x (y ∷ ys) = if text_lt y x then y ∷ insert_sorted x ys else x ∷ y ∷ ys

unfoldable pub sort : List Text → List Text
unfolding insert_sorted
sort [] = []
sort (x ∷ xs) = insert_sorted x (sort xs)

module _ (P : Text → Type 0) where
  All-insert_sorted : (x : Text) (ys : List Text) → P x → All P ys → All P (insert_sorted x ys)
  unfolding insert_sorted
  All-insert_sorted x [] p h = (p, tt)
  All-insert_sorted x (y ∷ ys) p h = ground (arith, All-insert_sorted x ys p h.1)

  -- What holds of every string holds of every string of the sorted list.
  pub All-sort : (xs : List Text) → All P xs → All P (sort xs)
  unfolding sort
  All-sort [] h = tt
  All-sort (x ∷ xs) h = All-insert_sorted x (sort xs) h.0 (All-sort xs h.1)

contains-insert_sorted :
    (x z : Text) (ys : List Text) → contains (insert_sorted x ys) z ≡ (same x z || contains ys z)
unfolding insert_sorted contains
contains-insert_sorted x z [] = refl
contains-insert_sorted x z (y ∷ ys) = ground (arith, contains-insert_sorted x z ys)

-- Sorting neither drops nor invents a string.
pub contains-sort : (z : Text) (xs : List Text) → contains (sort xs) z ≡ contains xs z
unfolding sort contains
contains-sort z [] = refl
contains-sort z (x ∷ xs) = ground (arith, contains-insert_sorted x z (sort xs), contains-sort z xs)

length-insert_sorted : (x : Text) (ys : List Text) → length (insert_sorted x ys) ≡ suc (length ys)
unfolding insert_sorted
length-insert_sorted x [] = refl
length-insert_sorted x (y ∷ ys) = ground (arith, length-insert_sorted x ys)

pub length-sort : (xs : List Text) → length (sort xs) ≡ length xs
unfolding sort
length-sort [] = refl
length-sort (x ∷ xs) = omega (arith, length-insert_sorted x (sort xs), length-sort xs)
