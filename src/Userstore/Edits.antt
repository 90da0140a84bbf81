-- ===== src/Userstore/Edits.antt =====
-- The two closures that `Add`, `SetGroups` and `Delete` of internal/userstore/userstore.go hand to
-- `mutate`: the edit of the users mapping, and the check of the snapshots before and after.
pub mod Verified
pub mod Duplicates
use vps_user_portal.Base.{
  ok, err, ◌>>◌, require, ◌+◌, Bool, true, false, not, Option, none, some, List, [], ◌==◌,
  if◌then◌else◌, length,
}
use vps_user_portal.Text.{Text, lit, same}
use vps_user_portal.Text.Maps.{get}
use vps_user_portal.Text.Case.{Unicode, to_lower, equal_fold}
use vps_user_portal.Yaml.{
  mapping, Node, Nodes, nil, cons, value, content, with_content, Fields, Value, text, seq, Values,
  end, Yaml,
}
use vps_user_portal.Userstore.Types.{
  User, duplicate_username, duplicate_email, not_found, missing, existed, still_present,
  wrong_email, wrong_groups, wrong_count, count_changed, Result,
}
use vps_user_portal.Userstore.Nodes.{
  fresh, scalar_node, seq_node, append_pair, find_user, set_value, set_map_field, decode_user,
}
use vps_user_portal.Userstore.Snapshot.{Snapshot, untouched_equal, same_strings}

abbrev has : Option Fields → Bool
has none = false
has (some m) = true

-- the entry that `Add` writes
unfoldable pub user_node : Text → Text → Text → List Text → Node
unfolding scalar_node seq_node
user_node display_name email hash groups = fresh mapping (lit "!!map") [] (
    cons (scalar_node (lit "displayname")) (
      cons (scalar_node display_name) (
        cons (scalar_node (lit "email")) (
          cons (scalar_node email) (
            cons (scalar_node (lit "password")) (
              cons (scalar_node hash)
                (cons (scalar_node (lit "groups")) (cons (seq_node groups) nil))))))))

email_is : Option Value → Text → Bool
unfolding same
email_is (some (text s)) mail = same s mail
email_is _ mail = false

module _ ⦃u : Unicode⦄ where
  check_added : User → Option Fields → Result (Unit {0})
  unfolding email_is get to_lower
  check_added new none = err (missing new.username)
  check_added new (some added) =
      require (email_is (get added (lit "email")) (to_lower new.email))
        (wrong_email (to_lower new.email))

module _ ⦃u : Unicode⦄ (y : Yaml) where
  -- the loop of `Add`: names and emails are compared without regard to case
  unfoldable pub check_new : User → Nodes → Result (Unit {0})
  unfolding decode_user equal_fold
  check_new new nil = ok tt
  check_new new (cons k nil) = ok tt
  check_new new (cons k (cons v ns)) =
      let rest = check_new new ns in
      let existing = decode_user y (value k) v in
      if equal_fold existing.username new.username
      then err (duplicate_username new.username)
      else if equal_fold existing.email new.email
      then err (duplicate_email new.email existing.username)
      else rest

  unfoldable pub add_edit : User → Text → Node → Result Node
  unfolding check_new append_pair user_node to_lower
  add_edit new hash users = do
    check_new new (content users)
    ok (
        with_content users (
          append_pair (content users) (scalar_node new.username)
            (user_node new.display_name (to_lower new.email) hash new.groups)))

  -- Go looks at `added`, then at `before`, then at the email.
  unfoldable pub add_verify : User → Snapshot → Snapshot → Result (Unit {0})
  unfolding untouched_equal check_added get
  add_verify new before after = do
    untouched_equal y before after new.username
    require (has (get after new.username)) (missing new.username)
    require (not (has (get before new.username))) (existed new.username)
    check_added new (get after new.username)
    require (length after == length before + 1) (wrong_count (length before) (length after))

unfoldable pub set_groups_found : Node → Text → List Text → Option Node → Result Node
unfolding set_value set_map_field seq_node
set_groups_found users username groups none = err (not_found username)
set_groups_found users username groups (some val) = ok (
    with_content users
      (set_value (content users) username (set_map_field val (lit "groups") (seq_node groups))))

unfoldable pub set_groups_edit : Text → List Text → Node → Result Node
unfolding set_groups_found find_user
set_groups_edit username groups users =
    set_groups_found users username groups (find_user users username)

-- `after[username]["groups"].([]any)`: an empty list where that fails
unfoldable pub groups_of : Option Fields → Values
unfolding get
groups_of none = end
groups_of (some m) = elim (get m (lit "groups")) [
  | none ↦ end
  | some v ↦ elim v [ seq vs ↦ vs | _ ↦ end ]
]

module _ (y : Yaml) where
  unfoldable pub set_groups_verify : Text → List Text → Snapshot → Snapshot → Result (Unit {0})
  unfolding untouched_equal groups_of same_strings get
  set_groups_verify username groups before after = do
    untouched_equal y before after username
    require (length after == length before) count_changed
    require (same_strings (groups_of (get after username)) groups) (wrong_groups username)

  unfoldable pub delete_verify : Text → Snapshot → Snapshot → Result (Unit {0})
  unfolding untouched_equal get
  delete_verify username before after = do
    untouched_equal y before after username
    require (not (has (get after username))) (still_present username)
    require (length after + 1 == length before) (wrong_count (length before) (length after))

unfoldable pub drop_user : Nodes → Text → Option Nodes
unfolding same
drop_user nil username = none
drop_user (cons k nil) username = none
drop_user (cons k (cons v ns)) username =
    let rest = drop_user ns username in
    if same (value k) username
    then some ns
    else elim rest [ none ↦ none | some left ↦ some (cons k (cons v left)) ]

unfoldable pub delete_edit : Text → Node → Result Node
unfolding drop_user
delete_edit username users = elim (drop_user (content users) username) [
  | none ↦ err (not_found username)
  | some left ↦ ok (with_content users left)
]
