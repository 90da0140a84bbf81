-- ===== src/Text/Subset.antt =====
-- Counting the strings of lists in which none stands twice.
-- Removing a string, and what a list within another has at most.
use vps_user_portal.Text.{contains, Text, same, same_iff}
use vps_user_portal.Text.Distinct.{IsDistinct}
use vps_user_portal.Base.{List, ◌∷◌, ◌≡◌, false, true, [], arith, if◌then◌else◌, length, suc, ◌≤◌}

-- the list but for the first of these strings
less : List Text → Text → List Text
unfolding same
less [] x = []
less (y ∷ ys) x = let rest = less ys x in if same y x then ys else y ∷ rest

length-less :
    (ys : List Text) (x : Text) → contains ys x ≡ true → suc (length (less ys x)) ≡ length ys
unfolding contains less
length-less [] x h = cc
length-less (y ∷ ys) x h = ground (arith, length-less ys x)

contains-less :
    (ys : List Text) (x z : Text)
    → contains ys z ≡ true
    → same x z ≡ false
    → contains (less ys x) z ≡ true
unfolding contains less
contains-less [] x z h ne = cc
contains-less (y ∷ ys) x z h ne =
    ground (arith, contains-less ys x z, same_iff y x, same_iff y z, same_iff x z)

apart_of :
    (xs : List Text) (x z : Text) → contains xs x ≡ false → contains xs z ≡ true → same x z ≡ false
unfolding contains
apart_of [] x z h e = cc
apart_of (y ∷ ys) x z h e =
    ground (arith, apart_of ys x z, same_iff y x, same_iff y z, same_iff x z)

-- Of strings that all stand in a list, and none twice, there are no more than the list has.
pub length-within :
    (xs ys : List Text)
    → IsDistinct xs
    → ((z : Text) → contains xs z ≡ true → contains ys z ≡ true)
    → length xs ≤ length ys
unfolding contains
length-within [] ys d h = ground arith
length-within (x ∷ xs) ys d h =
    let here : contains ys x ≡ true = h x (ground (arith, same_iff x x)) in
    let rest =
      length-within xs (less ys x) d.1
        (λ z e. contains-less ys x z (h z (ground arith)) (apart_of xs x z d.0 e)) in
    ground (arith, rest, length-less ys x here)
