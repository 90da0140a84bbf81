-- ===== src/Userstore/Edits/Verified.antt =====
-- What the checks of `Add`, `SetGroups` and `Delete` in internal/userstore/userstore.go let through.
use vps_user_portal.Text.Maps.{get}
use vps_user_portal.Userstore.Snapshot.Untouched.{
  SameBut, texts, untouched_equal_iff, same_strings_iff,
}
use vps_user_portal.Userstore.Snapshot.{Snapshot, untouched_equal}
use vps_user_portal.Text.{Text, lit, same_iff}
use vps_user_portal.Userstore.Types.{User, count_changed}
use vps_user_portal.Yaml.{Yaml, Fields, Value, text, seq, other}
use vps_user_portal.Text.Case.{Unicode, to_lower}
use vps_user_portal.Base.{
  ok, bind-eq-ok, require, require-eq-ok, Option, ◌≡◌, not, some, List, true, none, length, refl,
  ap, ◌+◌, ◌==◌, ==_iff,
}
use vps_user_portal.Userstore.Edits.{
  has, email_is, check_added, groups_of, add_verify, set_groups_verify, delete_verify,
}

has-eq-true : (o : Option Fields) → has o ≡ true → (m : Fields) × (o ≡ some m)
has-eq-true none h = cc
has-eq-true (some m) h = (m, refl)

has-eq-false : (o : Option Fields) → not (has o) ≡ true → o ≡ none
has-eq-false none h = refl
has-eq-false (some m) h = cc

email_is_sound : (o : Option Value) (mail : Text) → email_is o mail ≡ true → o ≡ some (text mail)
unfolding email_is
email_is_sound none mail h = cc
email_is_sound (some (text s)) mail h = ap (λ t. some (text t)) ((same_iff s mail).0 h)
email_is_sound (some (seq vs)) mail h = cc
email_is_sound (some (other t)) mail h = cc

module _ ⦃u : Unicode⦄ (y : Yaml) (new : User) where
  -- Exactly one user was added: the new one, under its name and with its email in lower case.
  pub record IsAdded (before after : Snapshot) : Type 0 where
    pub others : SameBut y new.username before after
    pub was_absent : get before new.username ≡ none
    pub added : Fields
    pub is_present : get after new.username ≡ some added
    pub email : get added (lit "email") ≡ some (text (to_lower new.email))
    pub one_more : length after ≡ length before + 1

  check_added_sound :
      (added : Fields)
      → check_added new (some added) ≡ ok tt
      → get added (lit "email") ≡ some (text (to_lower new.email))
  unfolding check_added
  check_added_sound added h = email_is_sound _ _ (require-eq-ok _ _ h)

  pub add_verify-IsAdded :
      (before after : Snapshot) → add_verify y new before after ≡ ok tt → IsAdded before after
  unfolding add_verify
  add_verify-IsAdded before after h =
      let (u1, untouched, h1) = bind-eq-ok (untouched_equal y before after new.username) _ h in
      let (u2, present, h2) = bind-eq-ok (require (has (get after new.username)) _) _ h1 in
      let (u3, absent, h3) = bind-eq-ok (require (not (has (get before new.username))) _) _ h2 in
      let (u4, mail, h4) = bind-eq-ok (check_added new (get after new.username)) _ h3 in
      let (added, is_some) = has-eq-true (get after new.username) (require-eq-ok _ _ present) in
      record {
        others = (untouched_equal_iff y before after new.username).0 untouched;
        was_absent = has-eq-false (get before new.username) (require-eq-ok _ _ absent);
        added = added;
        is_present = is_some;
        email = check_added_sound added (rw is_some at mail);
        one_more = (==_iff _ _).0 (require-eq-ok _ _ h4);
      }

module _ (y : Yaml) (username : Text) where
  -- Nothing but one user's groups was changed, and they are the ones that were asked for.
  pub record IsRegrouped (groups : List Text) (before after : Snapshot) : Type 0 where
    pub others : SameBut y username before after
    pub as_many : length after ≡ length before
    pub regrouped : groups_of (get after username) ≡ texts groups

  pub set_groups_verify-IsRegrouped :
      (groups : List Text) (before after : Snapshot)
      → set_groups_verify y username groups before after ≡ ok tt
      → IsRegrouped groups before after
  unfolding set_groups_verify
  set_groups_verify-IsRegrouped groups before after h =
      let (u1, untouched, h1) = bind-eq-ok (untouched_equal y before after username) _ h in
      let (u2, count, h2) =
        bind-eq-ok (require (length after == length before) count_changed) _ h1 in
      record {
        others = (untouched_equal_iff y before after username).0 untouched;
        as_many = (==_iff _ _).0 (require-eq-ok _ _ count);
        regrouped = (same_strings_iff _ _).0 (require-eq-ok _ _ h2);
      }

  -- Exactly one user is gone.
  pub record IsDeleted (before after : Snapshot) : Type 0 where
    pub others : SameBut y username before after
    pub is_absent : get after username ≡ none
    pub one_less : length after + 1 ≡ length before

  pub delete_verify-IsDeleted :
      (before after : Snapshot)
      → delete_verify y username before after ≡ ok tt
      → IsDeleted before after
  unfolding delete_verify
  delete_verify-IsDeleted before after h =
      let (u1, untouched, h1) = bind-eq-ok (untouched_equal y before after username) _ h in
      let (u2, absent, h2) = bind-eq-ok (require (not (has (get after username))) _) _ h1 in
      record {
        others = (untouched_equal_iff y before after username).0 untouched;
        is_absent = has-eq-false (get after username) (require-eq-ok _ _ absent);
        one_less = (==_iff _ _).0 (require-eq-ok _ _ h2);
      }
