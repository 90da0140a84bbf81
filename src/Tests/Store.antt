-- ===== src/Tests/Store.antt =====
-- The user store of internal/userstore on the two files of the tests.
use vps_user_portal.Userstore.Store.Granted.{IsGranted, set_groups-IsGranted}
use vps_user_portal.Userstore.Nodes.{decode_users}
use vps_user_portal.Userstore.Edits.Duplicates.{IsApart, check_new_iff}
use vps_user_portal.Userstore.Snapshot.Untouched.{
  SameBut, untouched_equal_iff, texts, same_strings_iff,
}
use vps_user_portal.Userstore.Store.Deleted.{list_users-delete}
use vps_user_portal.Userstore.Names.Valid.{fits, valid_username-derive_username}
use vps_user_portal.Tests.Faithful.{file_name-IsProper, toy-IsFaithful}
use vps_user_portal.Userstore.Types.{duplicate_email, not_found, duplicate_username, temp_failed}
use vps_user_portal.Yaml.{item, text, end}
use vps_user_portal.Userstore.Store.Added.{AddsOne, list_users-add}
use vps_user_portal.Userstore.Edits.Verified.{IsAdded, IsDeleted}
use vps_user_portal.Userstore.Mutate.Safety.{LeavesAlone}
use vps_user_portal.Userstore.Edits.{add_edit, add_verify, check_new}
use vps_user_portal.Userstore.Names.{valid_username, derive_username}
use vps_user_portal.Userstore.Snapshot.{untouched_equal, same_strings}
use vps_user_portal.Userstore.Store.Listing.{IsListed, without}
use vps_user_portal.Userstore.Store.Sound.{IsStored, add-IsStored, delete-IsStored}
use vps_user_portal.Userstore.Mutate.Quiet.{IsCalm, verdict, mutate-eq-verdict}
use vps_user_portal.Text.Maps.{get, put}
use vps_user_portal.Userstore.Mutate.Loop.{IsCommitted, mutate-IsCommitted, mutate_failed}
use vps_user_portal.Userstore.Mutate.{Mutation, mutate, Circumstances}
use vps_user_portal.Base.{ok, err, ℕ, ◌≡◌, if◌then◌else◌, refl, [], ◌∷◌, ltb, none, ◌↔◌, true, All}
use vps_user_portal.Text.{lit}
use vps_user_portal.Userstore.Disk.{Dir, quiet, lock_name, backup_name}
use vps_user_portal.Userstore.Store.{add, set_groups, delete}
use vps_user_portal.Tests.Toy.{
  toy, toy_encode, toy_parse, toy_user, alice, bob, calm, dir_a, file_name, text_ab, text_a, ascii,
  users_a, toy_fields,
}

abbrev pub dir_ab : Dir
dir_ab = (file_name, text_ab) ∷ []

add_runs : (add toy file_name bob (lit "k") calm dir_a).1 ≡ ok tt
unfolding add toy_encode toy_parse toy_user toy_fields
add_runs = refl

-- The backup is written, and the lock file stays.
add_result :
    (add toy file_name bob (lit "k") calm dir_a).0
    ≡ (file_name, text_ab) ∷ (lock_name, []) ∷ (backup_name file_name, text_a) ∷ []
unfolding add toy_encode toy_parse toy_user toy_fields
add_result = refl

-- A second user of the same name, or of the same email in other letters, is refused.
add_twice :
    (add toy file_name
      (record alice { username = lit "al"; email = lit "ALICE@X.org" })
      (lit "k")
      calm
      dir_a).1
    ≡ err (duplicate_email (lit "ALICE@X.org") (lit "alice"))
unfolding add toy_encode toy_parse toy_user toy_fields
add_twice = refl

delete_runs : (delete toy file_name (lit "bob") calm dir_ab).1 ≡ ok tt
unfolding delete toy_encode toy_parse toy_user toy_fields
delete_runs = refl

delete_unknown : (delete toy file_name (lit "eve") calm dir_ab).1 ≡ err (not_found (lit "eve"))
unfolding delete toy_encode toy_parse toy_user toy_fields
delete_unknown = refl

set_groups_runs : (set_groups toy file_name (lit "bob") bob.groups calm dir_ab).1 ≡ ok tt
unfolding set_groups toy_encode toy_parse toy_user toy_fields
set_groups_runs = refl

-- A writer that changes the file in every round but the last is waited out.
abbrev busy : ℕ → Circumstances
busy n = record calm {
  around =
      λ i. if ltb i n then record quiet { meanwhile = λ d. put d file_name (lit "ab") } else quiet;
}

retry_wins :
    (add toy file_name bob (lit "k") (busy 1) dir_a).1 ≡ err (duplicate_username (lit "bob"))
unfolding add toy_encode toy_parse toy_user toy_fields
retry_wins = refl

abbrev bob_added : Mutation
bob_added = record { edit = add_edit toy bob (lit "k"); verify = add_verify toy bob }

mutate_runs : (mutate toy file_name bob_added calm dir_a).1 ≡ ok tt
unfolding mutate add_edit add_verify toy_encode toy_parse toy_user toy_fields
mutate_runs = refl

mutate-IsCommitted_example :
    IsCommitted toy file_name bob_added calm.around (mutate toy file_name bob_added calm dir_a).0
mutate-IsCommitted_example =
    mutate-IsCommitted toy file_name bob_added file_name-IsProper calm dir_a mutate_runs

-- A directory that cannot take a temporary file.
abbrev full : Circumstances
full = record calm { around = λ i. record quiet { temp_suffix = none } }

mutate_fails : (mutate toy file_name bob_added full dir_a).1 ≡ err temp_failed
unfolding mutate add_edit add_verify toy_encode toy_parse toy_user toy_fields
mutate_fails = refl

full-LeavesAlone : (round : ℕ) → LeavesAlone file_name (full.around round)
full-LeavesAlone round = record { meanwhile_keeps = λ d. refl; late_keeps = λ d. refl }

mutate_failed_example :
    get (mutate toy file_name bob_added full dir_a).0 file_name ≡ get dir_a file_name
mutate_failed_example =
    mutate_failed toy file_name bob_added file_name-IsProper full dir_a full-LeavesAlone
      mutate_fails

calm-IsCalm : IsCalm file_name calm
calm-IsCalm = record {
  locks = refl;
  flocks = refl;
  first = record {
    reads = refl;
    rereads = refl;
    meanwhile_keeps = λ d. refl;
    backs_up = refl;
    suffix = lit "1";
    makes_temp = refl;
    finishes = refl;
  };
}

mutate-eq-verdict_example :
    (mutate toy file_name bob_added calm dir_a).1
    ≡ verdict toy file_name bob_added (get dir_a file_name)
mutate-eq-verdict_example =
    mutate-eq-verdict toy file_name bob_added calm dir_a file_name-IsProper calm-IsCalm

add-IsStored_example :
    IsStored toy file_name (IsAdded toy bob) (add toy file_name bob (lit "k") calm dir_a).0
add-IsStored_example =
    add-IsStored toy file_name file_name-IsProper bob (lit "k") calm dir_a add_runs

set_groups-IsGranted_example :
    IsGranted toy file_name
      (lit "bob")
      bob.groups
      (set_groups toy file_name (lit "bob") bob.groups calm dir_ab).0
set_groups-IsGranted_example =
    set_groups-IsGranted toy file_name (lit "bob") bob.groups calm dir_ab file_name-IsProper
      set_groups_runs

delete-IsStored_example :
    IsStored toy file_name
      (IsDeleted toy (lit "bob"))
      (delete toy file_name (lit "bob") calm dir_ab).0
delete-IsStored_example =
    delete-IsStored toy file_name file_name-IsProper (lit "bob") calm dir_ab delete_runs

list_users-add_example :
    IsListed toy file_name
      (AddsOne toy file_name file_name-IsProper toy-IsFaithful bob)
      (add toy file_name bob (lit "k") calm dir_a).0
list_users-add_example =
    list_users-add toy file_name file_name-IsProper toy-IsFaithful bob (lit "k") calm dir_a add_runs

list_users-delete_example :
    IsListed toy file_name
      (λ before after. after ≡ without toy (lit "bob") before)
      (delete toy file_name (lit "bob") calm dir_ab).0
list_users-delete_example =
    list_users-delete toy file_name (lit "bob") calm dir_ab file_name-IsProper toy-IsFaithful
      delete_runs

untouched_equal_iff_example :
    (untouched_equal toy ((lit "a", []) ∷ []) ((lit "a", []) ∷ (lit "b", []) ∷ []) (lit "b")
      ≡ ok tt)
    ↔ SameBut toy (lit "b") ((lit "a", []) ∷ []) ((lit "a", []) ∷ (lit "b", []) ∷ [])
untouched_equal_iff_example = untouched_equal_iff toy _ _ (lit "b")

ops_alone :
    (same_strings (item (text (lit "ops")) end) (lit "ops" ∷ []) ≡ true)
    ↔ (item (text (lit "ops")) end ≡ texts (lit "ops" ∷ []))
ops_alone = same_strings_iff (item (text (lit "ops")) end) (lit "ops" ∷ [])

derived_name_valid :
    valid_username (derive_username (lit ".Jane.Smith@x.org"))
    ≡ fits (derive_username (lit ".Jane.Smith@x.org"))
derived_name_valid = valid_username-derive_username (lit ".Jane.Smith@x.org")

derive_username_test : derive_username (lit ".Jane.Smith+x@x.org") ≡ lit "jane.smithx"
unfolding derive_username
derive_username_test = refl

bob-IsApart : (check_new toy bob users_a ≡ ok tt) ↔ All (IsApart toy bob) (decode_users toy users_a)
bob-IsApart = check_new_iff toy bob users_a
