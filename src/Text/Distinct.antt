-- ===== src/Text/Distinct.antt =====
-- Lists in which no string stands twice.
-- No string stands twice.
use vps_user_portal.Text.{contains, Text, same, same_comm}
use vps_user_portal.Base.{List, ◌∷◌, All, ◌≡◌, false, [], arith, refl}

abbrev pub IsDistinct : List Text → Type 0
IsDistinct [] = Unit
IsDistinct (n ∷ ns) = (contains ns n ≡ false) × IsDistinct ns

-- No string of the first list stands in the second.
abbrev pub AreFresh : List Text → List Text → Type 0
AreFresh seen = All (λ n. contains seen n ≡ false)

contains-cons :
    (seen : List Text) (m n : Text)
    → contains (m ∷ seen) n ≡ false
    → (same m n ≡ false) × (contains seen n ≡ false)
unfolding contains
contains-cons seen m n h = ground arith

same-false-swap : (m n : Text) → same m n ≡ false → same n m ≡ false
same-false-swap m n h = ground (arith, same_comm m n)

pub AreFresh-not :
    (seen : List Text) (m : Text) (ns : List Text)
    → AreFresh (m ∷ seen) ns
    → AreFresh seen ns × (contains ns m ≡ false)
unfolding contains
AreFresh-not seen m [] h = (tt, refl)
AreFresh-not seen m (n ∷ ns) h =
    let (apart, fresh) = contains-cons seen m n h.0 in
    let (others, absent) = AreFresh-not seen m ns h.1 in
    ((fresh, others), ground (arith, same-false-swap m n apart))
