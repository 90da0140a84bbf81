-- ===== src/Userstore/Store/Refined.antt =====
-- The store of internal/userstore/userstore.go implements a list of users, when the portal is the only
-- one that writes the file.
use vps_user_portal.Userstore.Store.Granted.{regrouping}
use vps_user_portal.Userstore.Store.Deleted.{deletion, list_users-delete}
use vps_user_portal.Userstore.Mutate.Saved.{mutate_saved}
use vps_user_portal.Userstore.Mutate.Loop.{mutate_failed}
use vps_user_portal.Userstore.Names.{valid_username}
use vps_user_portal.Userstore.Store.Sound.{add_failed, addition}
use vps_user_portal.Userstore.Store.Added.{AddsOne, list_users-add}
use vps_user_portal.Userstore.Mutate.Safety.{LeavesAlone}
use vps_user_portal.Userstore.Edits.Duplicates.{IsApart}
use vps_user_portal.Text.Maps.{get}
use vps_user_portal.Userstore.Store.Regrouped.{cleared, list_users-set_groups, Regroups}
use vps_user_portal.Userstore.Store.Keeping.{IsKeeping, shown_groups}
use vps_user_portal.Userstore.Store.Listing.{IsFaithful, IsListed, without}
use vps_user_portal.Userstore.Disk.{Dir, read_file, backup_name}
use vps_user_portal.Userstore.Mutate.{Circumstances}
use vps_user_portal.Userstore.Mutate.Publish.{IsProper}
use vps_user_portal.Userstore.Types.{User, Result, Error}
use vps_user_portal.Userstore.Store.{add, list_users, set_groups, parse_file, delete}
use vps_user_portal.Base.{
  List, err, [], ◌∷◌, ◌≡◌, All, ok, ℕ, false, ◌++◌, ok_injective, Bool-cases, ◌∙◌, sym, subst, inl,
  inr, refl,
}
use vps_user_portal.Yaml.{Yaml}
use vps_user_portal.Text.{Text}
use vps_user_portal.Text.Case.{Unicode, to_lower}

pub data Op : Type 0 where
  add_op : User → Text → Op
  set_groups_op : Text → List Text → Op
  delete_op : Text → Op

module _ ⦃u : Unicode⦄ (y : Yaml) (file : Text) where
  unfoldable pub perform : Op → Circumstances → Dir → Dir × Result (Unit {0})
  unfolding add set_groups delete
  perform (add_op new hash) c dir = add y file new hash c dir
  perform (set_groups_op username groups) c dir = set_groups y file username groups c dir
  perform (delete_op username) c dir = delete y file username c dir

  -- Calls one after the other, with their results
  unfoldable pub perform_all : List (Op × Circumstances) → Dir → Dir × List (Result (Unit {0}))
  unfolding perform
  perform_all [] dir = (dir, [])
  perform_all ((op, c) ∷ calls) dir =
      let first = perform op c dir in
      let rest = perform_all calls first.0 in (rest.0, first.1 ∷ rest.1)

-- What is asked of a list of users: a failed call leaves it, `Add` puts a user behind it that is apart
-- from all others, `SetGroups` changes nothing but the groups of the first user of a
-- name, and the last one has those asked for then, `Delete` drops that user.
abbrev pub Step :
    ⦃u : Unicode⦄ → Yaml → Text → Op → Result (Unit {0}) → List User → List User → Type 0
Step y file op (err e) before after = after ≡ before
Step y file (add_op new hash) (ok t) before after =
    All (IsApart y new) before
    × (after ≡ before ++ record new { email = to_lower new.email; disabled = false } ∷ [])
Step y file (set_groups_op username groups) (ok t) before after =
    (cleared username after ≡ cleared username before) × (shown_groups username [] after ≡ groups)
Step y file (delete_op username) (ok t) before after = after ≡ without y username before

abbrev pub IsTrace :
    ⦃u : Unicode⦄
    → Yaml
    → Text
    → List (Op × Circumstances)
    → List (Result (Unit {0}))
    → List User
    → List User
    → Type 0
IsTrace y file [] results before after = after ≡ before
IsTrace y file (call ∷ calls) [] before after = ⊥
IsTrace y file ((op, c) ∷ calls) (r ∷ results) before after =
    (between : List User) × Step y file op r before between
    × IsTrace y file calls results between after

-- No other process writes the users file around these calls.
abbrev pub IsAlone : Text → List (Op × Circumstances) → Type 0
IsAlone file calls = All (λ call. (round : ℕ) → LeavesAlone file (call.1.around round)) calls

module _ (y : Yaml) where
  list_users-cong :
      (file other : Text) (dir after : Dir)
      → get after other ≡ get dir file
      → list_users y other false after ≡ list_users y file false dir
  unfolding list_users parse_file read_file
  list_users-cong file other dir after h = rw h

  refined :
      (file : Text) (Change : List User → List User → Type 0) (dir after : Dir) (before : List User)
      → IsListed y file Change after
      → get after (backup_name file) ≡ get dir file
      → list_users y file false dir ≡ ok before
      → (shown : List User) × (list_users y file false after ≡ ok shown) × Change before shown
  refined file Change dir after before listed saved there =
      let same_list : listed.before ≡ before = ok_injective (
        sym listed.listed_before
        ∙ (list_users-cong file (backup_name file) dir after saved ∙ there)) in
      (
        listed.after,
        listed.listed_after,
        subst (λ b. Change b listed.after) same_list listed.change,
      )

module _ ⦃u : Unicode⦄ (y : Yaml) (file : Text) (proper : IsProper file) (faithful : IsFaithful y)
    (keeping : IsKeeping y) where
  add_saved :
      (new : User) (hash : Text) (c : Circumstances) (dir : Dir)
      → ((round : ℕ) → LeavesAlone file (c.around round))
      → (add y file new hash c dir).1 ≡ ok tt
      → get (add y file new hash c dir).0 (backup_name file) ≡ get dir file
  unfolding add
  add_saved new hash c dir alone h = elim (Bool-cases (valid_username new.username)) [
    | inl e ↦
        rw e (mutate_saved y file (addition y file proper new hash) proper c dir alone (rw e at h))
    | inr e ↦ cc (rw e at h)
  ]

  pub perform_done :
      (op : Op) (c : Circumstances) (dir : Dir) (before : List User)
      → ((round : ℕ) → LeavesAlone file (c.around round))
      → list_users y file false dir ≡ ok before
      → (perform y file op c dir).1 ≡ ok tt
      → (after : List User) × (list_users y file false (perform y file op c dir).0 ≡ ok after)
        × Step y file op (ok tt) before after
  unfolding perform set_groups delete
  perform_done (add_op new hash) c dir before alone there h =
      refined y file (AddsOne y file proper faithful new) dir _ before
        (list_users-add y file proper faithful new hash c dir h) (add_saved new hash c dir alone h)
        there
  perform_done (set_groups_op username groups) c dir before alone there h =
      refined y file (Regroups y file username groups) dir _ before
        (list_users-set_groups y file username groups c dir proper faithful keeping h)
        (mutate_saved y file (regrouping y file username groups) proper c dir alone h) there
  perform_done (delete_op username) c dir before alone there h =
      refined y file (λ b a. a ≡ without y username b) dir _ before
        (list_users-delete y file username c dir proper faithful h)
        (mutate_saved y file (deletion y file username) proper c dir alone h) there

  perform_failed :
      (op : Op) (c : Circumstances) (dir : Dir) {e : Error}
      → ((round : ℕ) → LeavesAlone file (c.around round))
      → (perform y file op c dir).1 ≡ err e
      → get (perform y file op c dir).0 file ≡ get dir file
  unfolding perform set_groups delete
  perform_failed (add_op new hash) c dir alone h = add_failed y file proper new hash c dir alone h
  perform_failed (set_groups_op username groups) c dir alone h =
      mutate_failed y file (regrouping y file username groups) proper c dir alone h
  perform_failed (delete_op username) c dir alone h =
      mutate_failed y file (deletion y file username) proper c dir alone h

  perform-Step :
      (op : Op) (c : Circumstances) (dir : Dir) (before : List User) (r : Result (Unit {0}))
      → ((round : ℕ) → LeavesAlone file (c.around round))
      → list_users y file false dir ≡ ok before
      → (perform y file op c dir).1 ≡ r
      → (after : List User) × (list_users y file false (perform y file op c dir).0 ≡ ok after)
        × Step y file op r before after
  perform-Step op c dir before (ok t) alone there h = perform_done op c dir before alone there h
  perform-Step op c dir before (err e) alone there h =
      (before, list_users-cong y file file dir _ (perform_failed op c dir alone h) ∙ there, refl)

  -- With a YAML library that reads back what it writes, keeps of an entry what is not replaced, and
  -- reads groups alike in both ways, and no other process that writes the users file: after any
  -- sequence of calls of `Add`, `SetGroups` and `Delete`, whichever of them fail, `List` shows a
  -- list that steps of these calls make of the list shown before.
  pub perform_all-IsTrace :
      (calls : List (Op × Circumstances)) (dir : Dir) (before : List User)
      → IsAlone file calls
      → list_users y file false dir ≡ ok before
      → (after : List User) × (list_users y file false (perform_all y file calls dir).0 ≡ ok after)
        × IsTrace y file calls (perform_all y file calls dir).1 before after
  unfolding perform_all
  perform_all-IsTrace [] dir before alone there = (before, there, refl)
  perform_all-IsTrace ((op, c) ∷ calls) dir before alone there =
      let (between, shown, step) = perform-Step op c dir before _ alone.0 there refl in
      let (after, last, trace) =
        perform_all-IsTrace calls (perform y file op c dir).0 between alone.1 shown in
      (after, last, (between, step, trace))
