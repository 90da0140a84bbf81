-- ===== src/Text/Maps.antt =====
-- Go's `map[string]V`: an association list in which a key stands once.
use vps_user_portal.Base.{
  suc, ◌≡◌, refl, inl, inr, true, Option, none, some, List, [], ◌∷◌, arith, if◌then◌else◌,
  Bool-cases, length,
}
use vps_user_portal.Text.{Text, same, same_iff, contains}

abbrev pub Dict {ℓ} : Type ℓ → Type ℓ
Dict V = List (Text × V)

module _ {ℓ} {V : Type ℓ} where
  -- `m[k]`, with its `ok`
  unfoldable pub get : Dict V → Text → Option V
  unfolding same
  get [] k = none
  get ((j, v) ∷ m) k = if same j k then some v else get m k

  -- `m[k] = v`
  unfoldable pub put : Dict V → Text → V → Dict V
  unfolding same
  put [] k v = (k, v) ∷ []
  put ((j, w) ∷ m) k v = if same j k then (k, v) ∷ m else (j, w) ∷ put m k v

  -- `delete(m, k)`
  unfoldable pub remove : Dict V → Text → Dict V
  unfolding same
  remove [] k = []
  remove ((j, w) ∷ m) k = let rest = remove m k in if same j k then rest else (j, w) ∷ rest

  abbrev pub keys : Dict V → List Text
  keys [] = []
  keys ((j, v) ∷ m) = j ∷ keys m

  -- Every law is in `if` form.
  pub get-put :
      (m : Dict V) (k j : Text) (v : V) → get (put m k v) j ≡ (if same k j then some v else get m j)
  unfolding get put
  get-put [] k j v = refl
  get-put ((i, w) ∷ m) k j v =
      ground (arith, get-put m k j v, same_iff i k, same_iff i j, same_iff k j)

  pub get-remove :
      (m : Dict V) (k j : Text) → get (remove m k) j ≡ (if same k j then none else get m j)
  unfolding get remove
  get-remove [] k j = ground arith
  get-remove ((i, w) ∷ m) k j =
      ground (arith, get-remove m k j, same_iff i k, same_iff i j, same_iff k j)

  -- Writing a new key adds one entry, writing an old one none.
  pub length-put :
      (m : Dict V) (k : Text) (v : V)
      → length (put m k v) ≡ elim (get m k) [ none ↦ suc (length m) | some _ ↦ length m ]
  unfolding get put
  length-put [] k v = refl
  length-put ((i, w) ∷ m) k v = ground (arith, length-put m k v)

  pub get_of_key :
      (m : Dict V) (k : Text) → contains (keys m) k ≡ true → (v : V) × (get m k ≡ some v)
  unfolding get contains
  get_of_key [] k h = cc
  get_of_key ((i, w) ∷ m) k h = elim (Bool-cases (same i k)) [
    | inl e ↦ (w, rw e refl)
    | inr e ↦ let (v, p) = get_of_key m k (ground arith) in (v, rw e p)
  ]

  pub key_of_get : (m : Dict V) (k : Text) (v : V) → get m k ≡ some v → contains (keys m) k ≡ true
  unfolding get contains
  key_of_get [] k v h = cc
  key_of_get ((i, w) ∷ m) k v h = ground (arith, key_of_get m k v)
