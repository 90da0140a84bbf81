-- ===== src/Userstore/Edits/Duplicates.antt =====
-- Which users `Add` of internal/userstore/userstore.go takes for duplicates.
use vps_user_portal.Userstore.Nodes.{decode_users, decode_user}
use vps_user_portal.Base.{ok, err, ◌≡◌, All, false, ◌↔◌, arith, true, refl, Bool-cases, inl, inr}
use vps_user_portal.Userstore.Types.{User, Error, is_duplicate}
use vps_user_portal.Yaml.{Yaml, Nodes, cons, nil, value}
use vps_user_portal.Text.Case.{Unicode, equal_fold}
use vps_user_portal.Userstore.Edits.{check_new}

module _ ⦃u : Unicode⦄ (y : Yaml) (new : User) where
  -- Neither the name nor the email of an entry is that of the new user, whatever the case.
  abbrev pub IsApart : User → Type 0
  IsApart existing =
      (equal_fold existing.username new.username ≡ false)
      × (equal_fold existing.email new.email ≡ false)

  check_new_sound : (ns : Nodes) → check_new y new ns ≡ ok tt → All IsApart (decode_users y ns)
  unfolding check_new decode_users
  check_new_sound nil h = tt
  check_new_sound (cons k nil) h = tt
  check_new_sound (cons k (cons v ns)) h = ground (arith, check_new_sound ns)

  check_new_complete : (ns : Nodes) → All IsApart (decode_users y ns) → check_new y new ns ≡ ok tt
  unfolding check_new decode_users
  check_new_complete nil h = refl
  check_new_complete (cons k nil) h = refl
  check_new_complete (cons k (cons v ns)) h = ground (arith, check_new_complete ns h.1)

  -- The loop lets a user through exactly when every entry of the file is apart from it.
  pub check_new_iff : (ns : Nodes) → (check_new y new ns ≡ ok tt) ↔ All IsApart (decode_users y ns)
  check_new_iff ns = (check_new_sound ns, check_new_complete ns)

  -- What the loop refuses, it refuses as a duplicate.
  pub check_new-is_duplicate :
      (ns : Nodes) {e : Error} → check_new y new ns ≡ err e → is_duplicate e ≡ true
  unfolding check_new
  check_new-is_duplicate nil h = cc
  check_new-is_duplicate (cons k nil) h = cc
  check_new-is_duplicate (cons k (cons v ns)) h =
      let existing = decode_user y (value k) v in
      elim (Bool-cases (equal_fold existing.username new.username)) [
        | inl e ↦ ground arith
        | inr e ↦ elim (Bool-cases (equal_fold existing.email new.email)) [
          | inl e' ↦ ground arith
          | inr e' ↦ check_new-is_duplicate ns (rw (e, e') at h)
        ]
      ]
