-- ===== src/Userstore/Store/Listing.antt =====
-- The users that `List` of internal/userstore/userstore.go shows after `Add`, `Delete` and
-- `SetGroups`, for a YAML library whose parser reads back what its printer wrote.
use vps_user_portal.Userstore.Mutate.Loop.{IsCommitted}
use vps_user_portal.Text.Maps.{get}
use vps_user_portal.Userstore.Disk.{Attempt, read_file, Dir, backup_name}
use vps_user_portal.Userstore.Store.{list_users, parse_file}
use vps_user_portal.Userstore.Nodes.Laws.{
  IsPaired, users_map-with_users, kind-with_content, users_map_sound,
}
use vps_user_portal.Userstore.Mutate.Rewrite.{IsRewrite}
use vps_user_portal.Base.{
  ◌>>=◌, ok, ◌≡◌, List, some, ◌∷◌, if◌then◌else◌, true, [], ◌∙◌, ap, ℕ, false, Bool-cases, inl,
  arith, inr, Option-cases,
}
use vps_user_portal.Userstore.Types.{Result, User}
use vps_user_portal.Userstore.Mutate.{Mutation}
use vps_user_portal.Userstore.Nodes.{decode_users, users_map, parse_bytes}
use vps_user_portal.Text.{Text, same}
use vps_user_portal.Yaml.{
  Yaml, Node, Nodes, is_mapping, cons, kind, content, with_content, value, nil,
}
use vps_user_portal.Userstore.Edits.{drop_user, user_node}

module _ (y : Yaml) where
  -- What `List` makes of a parsed file.
  abbrev pub listing : Node → Result (List User)
  listing root = users_map root >>= λ users. ok (decode_users y (content users))

  -- The library keeps what the program reads: a print parses to a tree with the same users, and a
  -- parsed mapping has a value for each key.
  pub record IsFaithful : Type 0 where
    pub reads_back :
        (root : Node) (out : Text) (root' : Node)
        → y.encode root ≡ some out
        → parse_bytes y out ≡ ok root'
        → listing root' ≡ listing root
    pub pairs :
        (bytes : Text) (root users : Node)
        → parse_bytes y bytes ≡ ok root
        → users_map root ≡ ok users
        → IsPaired (content users)
    pub decodes :
        (display_name email hash : Text) (groups : List Text)
        → y.decode_raw (user_node display_name email hash groups)
          ≡ record { display_name = display_name; email = email; groups = groups; disabled = false }

  -- The first user of a name is taken out; the others keep their order.
  abbrev pub without : Text → List User → List User
  without username [] = []
  without username (u ∷ us) =
      let rest = without username us in if same u.username username then us else u ∷ rest

  pub decode_users-drop_user :
      (ns : Nodes) (username : Text) {left : Nodes}
      → drop_user ns username ≡ some left
      → decode_users y left ≡ without username (decode_users y ns)
  unfolding drop_user decode_users
  decode_users-drop_user nil username h = cc
  decode_users-drop_user (cons k nil) username h = cc
  decode_users-drop_user (cons k (cons v ns)) username {left} h =
      elim (Bool-cases (same (value k) username)) [
        | inl e ↦ ground arith
        | inr e ↦ elim (Option-cases (drop_user ns username)) [
          | inl gone ↦ ground arith
          | inr (l, found) ↦ ground (arith, decode_users-drop_user ns username {left = l} found)
        ]
      ]

  module _ (m : Mutation) (faithful : IsFaithful) where
    -- What `List` shows of the new file is what the edit made of the users mapping.
    pub listing-rewrite :
        {original out : Text}
        → (r : IsRewrite y m original out) → is_mapping (kind r.edited) ≡ true
        → listing r.reparsed ≡ ok (decode_users y (content r.edited))
    listing-rewrite r e =
        faithful.reads_back _ _ r.reparsed r.printed r.read_back
        ∙ ap (λ (x : Result Node). x >>= λ users. ok (decode_users y (content users)))
            (users_map-with_users r.root r.edited r.found e)

  list_of_HasSnapshot :
      (file bytes : Text) (dir : Dir) (root : Node)
      → get dir file ≡ some bytes
      → parse_bytes y bytes ≡ ok root
      → list_users y file false dir ≡ listing root
  unfolding list_users parse_file read_file
  list_of_HasSnapshot file bytes dir root there parsed_root = rw (there, parsed_root)

  kind-with_content_of_found :
      (root : Node) {users : Node} (ns : Nodes)
      → users_map root ≡ ok users
      → is_mapping (kind (with_content users ns)) ≡ true
  kind-with_content_of_found root {users} ns found =
      ap is_mapping (kind-with_content users ns) ∙ (users_map_sound root found).1

  -- After a successful mutation, `List` of the backup shows what the edit was given, and `List` of the
  -- file shows what the edit returned.
  module _ (file : Text) (m : Mutation) (faithful : IsFaithful) {around : ℕ → Attempt} {dir : Dir}
      (c : IsCommitted y file m around dir)
      (keeps : (users edited : Node)
        → is_mapping (kind users) ≡ true
        → m.edit users ≡ ok edited
        → is_mapping (kind edited) ≡ true) where
    abbrev original_users : List User
    original_users = decode_users y (content c.commit.rewritten.users)

    pub list_before : list_users y (backup_name file) false dir ≡ ok original_users
    list_before =
        let r = c.commit.rewritten in
        list_of_HasSnapshot (backup_name file) c.commit.original dir r.root c.commit.published.saved
          r.parsed_root
        ∙ ap (λ (x : Result Node). x >>= λ users. ok (decode_users y (content users))) r.found

    pub list_after :
        list_users y file false dir ≡ ok (decode_users y (content c.commit.rewritten.edited))
    list_after =
        let r = c.commit.rewritten in
        list_of_HasSnapshot file c.commit.out dir r.reparsed c.commit.published.written r.read_back
        ∙ listing-rewrite m faithful r
            (keeps r.users r.edited (users_map_sound r.root r.found).1 r.changed)

-- The lists of the backup and of the file, related by what an operation does.
pub record IsListed (y : Yaml) (file : Text) (Change : List User → List User → Type 0) (dir : Dir)
    : Type 0 where
  pub before : List User
  pub after : List User
  pub listed_before : list_users y (backup_name file) false dir ≡ ok before
  pub listed_after : list_users y file false dir ≡ ok after
  pub change : Change before after

pub mapping_kept :
    (users : Node) (ns : Nodes)
    → is_mapping (kind users) ≡ true
    → is_mapping (kind (with_content users ns)) ≡ true
mapping_kept users ns h = ap is_mapping (kind-with_content users ns) ∙ h
