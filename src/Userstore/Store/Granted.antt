-- ===== src/Userstore/Store/Granted.antt =====
-- What `SetGroups` of internal/userstore/userstore.go has done to the document when it succeeds.
use vps_user_portal.Text.Maps.{keys, get}
use vps_user_portal.Userstore.Mutate.Publish.{IsProper}
use vps_user_portal.Userstore.Mutate.Loop.{IsCommitted, mutate-IsCommitted}
use vps_user_portal.Text.Distinct.{IsDistinct}
use vps_user_portal.Userstore.Edits.Verified.{IsRegrouped, set_groups_verify-IsRegrouped}
use vps_user_portal.Userstore.Store.{set_groups}
use vps_user_portal.Userstore.Mutate.{Mutation, Circumstances}
use vps_user_portal.Userstore.Disk.{Dir, Attempt}
use vps_user_portal.Userstore.Nodes.{
  find_user, find_value, users_map, with_users, set_value, set_map_field, seq_node,
}
use vps_user_portal.Text.{Text, lit}
use vps_user_portal.Userstore.Snapshot.{snapshot, Snapshot, snapshot_from}
use vps_user_portal.Yaml.{Yaml, Node, Fields, content, with_content}
use vps_user_portal.Userstore.Edits.{set_groups_edit, set_groups_found, set_groups_verify}
use vps_user_portal.Userstore.Store.Sound.{IsStored}
use vps_user_portal.Userstore.Snapshot.Keys.{
  snapshot_from_found, snapshot_from-IsDistinct, still_present,
}
use vps_user_portal.Base.{
  List, ◌≡◌, ℕ, ok, some, bind-eq-ok, subst, [], Option-cases, inl, inr, sym, ok_injective,
}

pub set_groups_edit_sound :
    (username : Text) (groups : List Text) (users : Node) {edited : Node}
    → set_groups_edit username groups users ≡ ok edited
    → (v : Node) × (find_value (content users) username ≡ some v)
      × (edited
          ≡ with_content users (
              set_value
                (content users)
                username
                (set_map_field v (lit "groups") (seq_node groups))))
unfolding set_groups_edit set_groups_found find_user
set_groups_edit_sound username groups users h =
    elim (Option-cases (find_value (content users) username)) [
      | inl e ↦ cc (rw e at h)
      | inr (v, e) ↦ (v, e, sym (ok_injective (rw e at h)))
    ]

module _ (y : Yaml) where
  snapshot_found :
      (root users : Node) (name : Text) {s : Snapshot} {entry : Node}
      → snapshot y root ≡ ok s
      → users_map root ≡ ok users
      → find_value (content users) name ≡ some entry
      → (n : Fields) × (get s name ≡ some n)
  unfolding snapshot
  snapshot_found root users name {s} {entry} h found e =
      snapshot_from_found y [] (content users) name {entry = entry} (rw found at h) e

  snapshot-IsDistinct : (root : Node) {s : Snapshot} → snapshot y root ≡ ok s → IsDistinct (keys s)
  unfolding snapshot
  snapshot-IsDistinct root h =
      let (users, found, rest) =
        bind-eq-ok (users_map root) (λ u. snapshot_from y [] (content u)) h in
      snapshot_from-IsDistinct y [] (content users) rest tt

module _ (y : Yaml) (file username : Text) (groups : List Text) where
  -- The file was replaced as `SetGroups` means to: the user stood in the old document and stands in
  -- the new one, which is the old tree with the list of these groups as the field `groups` of the
  -- user's entry.
  pub record IsGranted (dir : Dir) : Type 0 where
    pub stored : IsStored y file (IsRegrouped y username groups) dir
    pub was_present : (m : Fields) × (get stored.before username ≡ some m)
    pub is_present : (m : Fields) × (get stored.after username ≡ some m)
    pub users : Node
    pub found : users_map stored.was.0 ≡ ok users
    pub entry : Node
    pub of_user : find_value (content users) username ≡ some entry
    pub printed :
        y.encode (
          with_users stored.was.0 (
            with_content users (
              set_value
                (content users)
                username
                (set_map_field entry (lit "groups") (seq_node groups)))))
        ≡ some stored.out

  abbrev pub regrouping : Mutation
  regrouping = record {
    edit = set_groups_edit username groups;
    verify = set_groups_verify y username groups;
  }

  IsGranted-of_committed :
      {around : ℕ → Attempt} {dir : Dir} → IsCommitted y file regrouping around dir → IsGranted dir
  IsGranted-of_committed c =
      let r = c.commit.rewritten in
      let checked = set_groups_verify-IsRegrouped y username groups r.before r.after r.verified in
      let (entry, of_user, shape) = set_groups_edit_sound username groups r.users r.changed in
      let (m, was) =
        snapshot_found y r.root r.users username {entry = entry} r.taken r.found of_user in
      record {
        stored = record {
          original = c.commit.original;
          out = c.commit.out;
          before = r.before;
          after = r.after;
          written = c.commit.published.written;
          saved = c.commit.published.saved;
          was = (r.root, r.parsed_root, r.taken);
          now = (r.reparsed, r.read_back, r.taken_after);
          change = checked;
        };
        was_present = (m, was);
        is_present =
            still_present y username r.before r.after {m = m}
              (snapshot-IsDistinct y r.reparsed r.taken_after) checked.others checked.as_many was;
        users = r.users;
        found = r.found;
        entry = entry;
        of_user = of_user;
        printed = subst (λ n. y.encode (with_users r.root n) ≡ some c.commit.out) shape r.printed;
      }

  -- If `SetGroups` succeeds, whatever other processes do around it, the file and the backup hold
  -- documents that parse; the user stands in both; the file is the tree of the backup with the list of
  -- the groups asked for as the field `groups` of the user's entry, and read back it has exactly these
  -- groups; there are as many entries, and the entry of every other user marshals to what it did.
  pub set_groups-IsGranted :
      (c : Circumstances) (dir : Dir)
      → IsProper file
      → (set_groups y file username groups c dir).1 ≡ ok tt
      → IsGranted (set_groups y file username groups c dir).0
  unfolding set_groups
  set_groups-IsGranted c dir proper h =
      IsGranted-of_committed (mutate-IsCommitted y file regrouping proper c dir h)
