-- ===== src/Tests/Calls.antt =====
-- A sequence of calls of the store of internal/userstore on the files of the tests.
use vps_user_portal.Tests.Store.{dir_ab}
use vps_user_portal.Userstore.Edits.{delete_edit, delete_verify}
use vps_user_portal.Userstore.Store.Deleted.{deletion}
use vps_user_portal.Text.Maps.{get, put}
use vps_user_portal.Userstore.Mutate.Ends.{IsEnded, mutate-IsEnded}
use vps_user_portal.Userstore.Disk.{Attempt, quiet, sweep_stale_temps, touch, lock_name}
use vps_user_portal.Tests.Faithful.{file_name-IsProper, toy-IsFaithful, toy-IsKeeping}
use vps_user_portal.Userstore.Types.{not_found, User}
use vps_user_portal.Text.{lit}
use vps_user_portal.Userstore.Mutate.{Circumstances, mutate, attempts}
use vps_user_portal.Userstore.Mutate.Safety.{LeavesAlone}
use vps_user_portal.Tests.Toy.{
  toy_parse, toy_encode, toy_user, file_name, toy, dir_a, calm, bob, alice, ascii, text_a,
  toy_fields,
}
use vps_user_portal.Userstore.Store.Refined.{
  perform_all, Op, add_op, IsTrace, delete_op, set_groups_op, perform_all-IsTrace,
}
use vps_user_portal.Base.{List, ℕ, false, ◌≡◌, refl, ok, ◌∷◌, [], err, suc, zero}
use vps_user_portal.Userstore.Store.{list_users}

lists_a : list_users toy file_name false dir_a ≡ ok (alice ∷ [])
unfolding list_users toy_parse toy_user toy_fields
lists_a = refl

-- The second call fails: there is no user of that name.
abbrev calls : List (Op × Circumstances)
calls =
    (add_op bob (lit "k"), calm)
    ∷ (delete_op (lit "carol"), calm)
    ∷ (set_groups_op (lit "bob") bob.groups, calm)
    ∷ (delete_op (lit "bob"), calm)
    ∷ []

calls_end :
    (perform_all toy file_name calls dir_a).1
    ≡ ok tt ∷ err (not_found (lit "carol")) ∷ ok tt ∷ ok tt ∷ []
unfolding perform_all toy_encode toy_parse toy_user toy_fields
calls_end = refl

pub calm-LeavesAlone : (round : ℕ) → LeavesAlone file_name (calm.around round)
calm-LeavesAlone round = record { meanwhile_keeps = λ d. refl; late_keeps = λ d. refl }

perform_all-IsTrace_example :
    (after : List User) × (list_users toy file_name false (perform_all toy file_name calls dir_a).0
      ≡ ok after)
    × IsTrace toy file_name calls (perform_all toy file_name calls dir_a).1 (alice ∷ []) after
perform_all-IsTrace_example =
    perform_all-IsTrace toy file_name file_name-IsProper toy-IsFaithful toy-IsKeeping calls dir_a
      (alice ∷ [])
      (calm-LeavesAlone, (calm-LeavesAlone, (calm-LeavesAlone, (calm-LeavesAlone, tt)))) lists_a

-- Another process takes bob out in the first round, so the second fails.
abbrev busy_attempt : ℕ → Attempt
busy_attempt zero = record quiet { meanwhile = λ d. put d file_name text_a }
busy_attempt (suc n) = quiet

abbrev busy : Circumstances
busy = record { lock_fails = false; flock_fails = false; around = busy_attempt }

busy_ends :
    (mutate toy file_name (deletion toy file_name (lit "bob")) busy dir_ab).1
    ≡ err (not_found (lit "bob"))
unfolding mutate get put delete_edit delete_verify toy_encode toy_parse toy_user toy_fields
busy_ends = refl

mutate-IsEnded_example :
    IsEnded toy file_name
      (deletion toy file_name (lit "bob"))
      busy.around
      0
      attempts
      (sweep_stale_temps (touch dir_ab lock_name))
      (mutate toy file_name (deletion toy file_name (lit "bob")) busy dir_ab)
mutate-IsEnded_example =
    mutate-IsEnded toy file_name (deletion toy file_name (lit "bob")) file_name-IsProper busy dir_ab
      refl refl
