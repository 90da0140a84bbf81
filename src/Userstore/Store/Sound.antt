-- ===== src/Userstore/Store/Sound.antt =====
-- What `Add` and `Delete` of internal/userstore/userstore.go have done when they succeed,
-- and what they leave alone when they fail.
use vps_user_portal.Userstore.Names.{valid_username}
use vps_user_portal.Userstore.Mutate.Loop.{IsCommitted, mutate-IsCommitted, mutate_failed}
use vps_user_portal.Userstore.Mutate.Safety.{LeavesAlone}
use vps_user_portal.Userstore.Edits.Verified.{
  IsAdded, IsDeleted, delete_verify-IsDeleted, add_verify-IsAdded,
}
use vps_user_portal.Userstore.Edits.{add_edit, add_verify}
use vps_user_portal.Text.Maps.{get}
use vps_user_portal.Userstore.Nodes.{parse_bytes}
use vps_user_portal.Userstore.Types.{User, Error}
use vps_user_portal.Base.{ok, err, ◌≡◌, some, ℕ, Bool-cases, inl, inr}
use vps_user_portal.Userstore.Disk.{Dir, backup_name, Attempt}
use vps_user_portal.Userstore.Mutate.Publish.{IsProper}
use vps_user_portal.Userstore.Mutate.{Mutation, Circumstances}
use vps_user_portal.Userstore.Snapshot.{Snapshot, snapshot}
use vps_user_portal.Text.{Text}
use vps_user_portal.Text.Case.{Unicode}
use vps_user_portal.Yaml.{Yaml, Node}
use vps_user_portal.Userstore.Store.{add, delete}

-- A text parses as a users file with these users.
abbrev pub HasSnapshot : Yaml → Text → Snapshot → Type 0
HasSnapshot y bytes users =
    (root : Node) × (parse_bytes y bytes ≡ ok root) × (snapshot y root ≡ ok users)

-- The file was replaced by one that relates to it by `Change`, and the old one is the backup.
pub record IsStored (y : Yaml) (file : Text) (Change : Snapshot → Snapshot → Type 0) (dir : Dir)
    : Type 0 where
  pub original : Text
  pub out : Text
  pub before : Snapshot
  pub after : Snapshot
  pub written : get dir file ≡ some out
  pub saved : get dir (backup_name file) ≡ some original
  pub was : HasSnapshot y original before
  pub now : HasSnapshot y out after
  pub change : Change before after

IsStored-of_committed :
    (y : Yaml) (file : Text) (m : Mutation) (Change : Snapshot → Snapshot → Type 0)
    → ((before after : Snapshot) → m.verify before after ≡ ok tt → Change before after)
    → {around : ℕ → Attempt} {dir : Dir} → IsCommitted y file m around dir
    → IsStored y file Change dir
IsStored-of_committed y file m Change sound c =
    let r = c.commit.rewritten in
    record {
      original = c.commit.original;
      out = c.commit.out;
      before = r.before;
      after = r.after;
      written = c.commit.published.written;
      saved = c.commit.published.saved;
      was = (r.root, r.parsed_root, r.taken);
      now = (r.reparsed, r.read_back, r.taken_after);
      change = sound r.before r.after r.verified;
    }

module _ ⦃u : Unicode⦄ (y : Yaml) (file : Text) (proper : IsProper file) where
  abbrev pub addition : User → Text → Mutation
  addition new hash = record { edit = add_edit y new hash; verify = add_verify y new }

  pub add-IsCommitted :
      (new : User) (hash : Text) (c : Circumstances) (dir : Dir)
      → (add y file new hash c dir).1 ≡ ok tt
      → IsCommitted y file (addition new hash) c.around (add y file new hash c dir).0
  unfolding add
  add-IsCommitted new hash c dir h = elim (Bool-cases (valid_username new.username)) [
    | inl e ↦ rw e (mutate-IsCommitted y file (addition new hash) proper c dir (rw e at h))
    | inr e ↦ cc (rw e at h)
  ]

  -- If `Add` succeeds, whatever other processes do around it, the file and the backup hold documents
  -- that parse; the new username is in the file, with the lowercased email, and not in the backup;
  -- the file has one entry more, and the entry of every other user marshals to what it did.
  pub add-IsStored :
      (new : User) (hash : Text) (c : Circumstances) (dir : Dir)
      → (add y file new hash c dir).1 ≡ ok tt
      → IsStored y file (IsAdded y new) (add y file new hash c dir).0
  add-IsStored new hash c dir h =
      IsStored-of_committed y file (addition new hash) (IsAdded y new) (add_verify-IsAdded y new)
        (add-IsCommitted new hash c dir h)

  pub add_failed :
      (new : User) (hash : Text) (c : Circumstances) (dir : Dir) {e : Error}
      → ((round : ℕ) → LeavesAlone file (c.around round))
      → (add y file new hash c dir).1 ≡ err e
      → get (add y file new hash c dir).0 file ≡ get dir file
  unfolding add
  add_failed new hash c dir alone h = elim (Bool-cases (valid_username new.username)) [
    | inl e ↦ rw e (mutate_failed y file (addition new hash) proper c dir alone (rw e at h))
    | inr e ↦ rw e
  ]

module _ (y : Yaml) (file : Text) (proper : IsProper file) where
  -- If `Delete` succeeds, the file and the backup hold documents that parse; the user is not in the
  -- file, which has one entry less, and the entry of every other user marshals to what it did.
  pub delete-IsStored :
      (username : Text) (c : Circumstances) (dir : Dir)
      → (delete y file username c dir).1 ≡ ok tt
      → IsStored y file (IsDeleted y username) (delete y file username c dir).0
  unfolding delete
  delete-IsStored username c dir h =
      IsStored-of_committed y file _ (IsDeleted y username) (delete_verify-IsDeleted y username)
        (mutate-IsCommitted y file _ proper c dir h)
