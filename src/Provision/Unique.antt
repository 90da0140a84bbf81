-- ===== src/Provision/Unique.antt =====
-- The names that `Load` of internal/provision/provision.go lets through.
use vps_user_portal.Text.Distinct.{IsDistinct, AreFresh, AreFresh-not}
use vps_user_portal.Text.{Text, contains}
use vps_user_portal.Base.{
  List, [], ◌∷◌, Option, ◌≡◌, Outcome, false, ℕ, refl, ok, arith, length, some, none, bind-eq-ok,
  ◌+◌, or_fail, subst, suc, require, ap, not, require-eq-ok, ok_injective,
}
use vps_user_portal.Provision.{
  load_one, load_from, load_entries, Entry, name_of, make, unknown_type,
}

abbrev pub names {ℓ} : {P : Type ℓ} → List (Text × P) → List Text
names [] = []
names ((n, p) ∷ ps) = n ∷ names ps

module _ {N P E : Type 0} (factories : Text → Option (Text → N → Outcome E P)) where
  load_one-fresh :
      (i : ℕ) (seen : List Text) (e : Entry N) {made : Text × P}
      → load_one factories i seen e ≡ ok made
      → contains seen made.0 ≡ false
  unfolding load_one
  load_one-fresh i seen (none, n) h = cc
  load_one-fresh i seen (some d, n) h =
      let (f, known, guarded) =
        bind-eq-ok (or_fail (factories d.kind) (unknown_type i d.kind)) _ h in
      let (u, free, built) =
        bind-eq-ok (require (not (contains seen (name_of factories d))) _) _ guarded in
      let (p, made_p, whole) = bind-eq-ok (make factories (name_of factories d) n f) _ built in
      ground (arith, require-eq-ok (not (contains seen (name_of factories d))) _ free, whole)

  load_from_sound :
      (i : ℕ) (seen : List Text) (es : List (Entry N)) {made : List (Text × P)}
      → load_from factories i seen es ≡ ok made
      → AreFresh seen (names made) × IsDistinct (names made) × (length made ≡ length es)
  unfolding load_from
  load_from_sound i seen [] h =
      subst (λ m. AreFresh seen (names m) × IsDistinct (names m) × (length m ≡ 0)) (ok_injective h)
        (tt, tt, refl)
  load_from_sound i seen (e ∷ es) h =
      let (made_one, first, later) = bind-eq-ok (load_one factories i seen e) _ h in
      let (rest, others, whole) =
        bind-eq-ok (load_from factories (i + 1) (made_one.0 ∷ seen) es) _ later in
      let (fresh, distinct, as_many) = load_from_sound (i + 1) (made_one.0 ∷ seen) es others in
      let (still_fresh, alone) = AreFresh-not seen made_one.0 (names rest) fresh in
      subst (λ m. AreFresh seen (names m) × IsDistinct (names m) × (length m ≡ suc (length es)))
        (ok_injective whole)
        ((load_one-fresh i seen e first, still_fresh), (alone, distinct), ap suc as_many)

  -- Every entry has become a provisioner, and no two have one name.
  pub load_entries-IsDistinct :
      (es : List (Entry N)) {made : List (Text × P)}
      → load_entries factories es ≡ ok made
      → IsDistinct (names made) × (length made ≡ length es)
  unfolding load_entries
  load_entries-IsDistinct es h =
      let (fresh, distinct, all_made) = load_from_sound 0 [] es h in (distinct, all_made)
