-- ===== src/Userstore/Types.antt =====
-- The types of internal/userstore/userstore.go, and its errors as values.
use vps_user_portal.Base.{ℕ, Bool, true, false, List, Outcome}
use vps_user_portal.Text.{Text}

pub record User : Type 0 where
  pub username : Text
  pub display_name : Text
  pub email : Text
  pub groups : List Text
  pub disabled : Bool

-- One constructor for each error that the package makes, with the data that its text shows.
pub data Error : Type 0 where
  lock_failed flock_failed : Error
  read_failed reread_failed : Error
  not_yaml empty_document many_documents : Error
  root_not_mapping users_not_mapping no_users_key : Error
  undecodable : Text → Error
  invalid_username : Text → Error
  duplicate_username : Text → Error
  duplicate_email : Text → Text → Error
  not_found : Text → Error
  vanished modified appeared missing existed still_present : Text → Error
  wrong_email wrong_groups : Text → Error
  wrong_count : ℕ → ℕ → Error
  count_changed : Error
  encode_failed : Error
  output_unparsable output_undecodable refused : Error → Error
  backup_failed temp_failed write_failed sync_failed close_failed rename_failed : Error
  exhausted : Error

abbrev pub Result {ℓ} : Type ℓ → Type ℓ
Result A = Outcome Error A

-- `errors.Is(err, ErrDuplicate)`
abbrev pub is_duplicate : Error → Bool
is_duplicate (duplicate_username name) = true
is_duplicate (duplicate_email mail name) = true
is_duplicate (output_unparsable e) = is_duplicate e
is_duplicate (output_undecodable e) = is_duplicate e
is_duplicate (refused e) = is_duplicate e
is_duplicate _ = false
