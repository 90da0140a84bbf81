-- ===== src/Userstore/Store/Added.antt =====
-- What `List` of internal/userstore/userstore.go shows after a successful `Add`.
use vps_user_portal.Userstore.Store.Sound.{addition, add-IsCommitted}
use vps_user_portal.Userstore.Store.{add}
use vps_user_portal.Userstore.Mutate.Loop.{IsCommitted}
use vps_user_portal.Userstore.Edits.Duplicates.{IsApart, check_new_iff}
use vps_user_portal.Userstore.Disk.{Attempt, Dir}
use vps_user_portal.Userstore.Nodes.Laws.{IsPaired, content-with_content, decode_users-append_pair}
use vps_user_portal.Userstore.Mutate.{Circumstances}
use vps_user_portal.Base.{
  ok, bind-eq-ok, List, ℕ, false, ◌≡◌, All, ◌++◌, ◌∷◌, [], ap, true, ◌∙◌, subst, sym,
}
use vps_user_portal.Userstore.Nodes.{decode_user, scalar_node, decode_users, append_pair}
use vps_user_portal.Userstore.Edits.{add_edit, user_node, check_new}
use vps_user_portal.Userstore.Types.{User}
use vps_user_portal.Userstore.Store.Listing.{
  IsFaithful, IsListed, mapping_kept, list_before, list_after,
}
use vps_user_portal.Userstore.Mutate.Publish.{IsProper}
use vps_user_portal.Text.{Text}
use vps_user_portal.Yaml.{Yaml, Node, value, content, with_content, is_mapping, kind}
use vps_user_portal.Text.Case.{Unicode, to_lower}

module _ ⦃u : Unicode⦄ (y : Yaml) (file : Text) (proper : IsProper file)
    (faithful : IsFaithful y) where
  -- The user as `Add` stores it: enabled, its email in lower case.
  abbrev pub stored : User → User
  stored new = record new { email = to_lower new.email; disabled = false }

  add_edit_sound :
      (new : User) (hash : Text) (users : Node) {edited : Node}
      → add_edit y new hash users ≡ ok edited
      → (check_new y new (content users) ≡ ok tt)
        × (edited
            ≡ with_content users (
                append_pair
                  (content users)
                  (scalar_node new.username)
                  (user_node new.display_name (to_lower new.email) hash new.groups)))
  unfolding add_edit
  add_edit_sound new hash users h =
      let (x, apart, e) = bind-eq-ok (check_new y new (content users)) _ h in (apart, cc)

  decode_user-stored :
      (new : User) (hash : Text)
      → decode_user y
          (value (scalar_node new.username))
          (user_node new.display_name (to_lower new.email) hash new.groups)
        ≡ stored new
  unfolding decode_user scalar_node
  decode_user-stored new hash =
      rw (faithful.decodes new.display_name (to_lower new.email) hash new.groups)

  decode_users-added :
      (new : User) (hash : Text) (users : Node) {edited : Node}
      → IsPaired (content users)
      → add_edit y new hash users ≡ ok edited
      → decode_users y (content edited) ≡ decode_users y (content users) ++ stored new ∷ []
  decode_users-added new hash users pairs h =
      let (apart, shape) = add_edit_sound new hash users h in
      ap (λ (n : Node). decode_users y (content n)) shape
      ∙ (ap (decode_users y) (content-with_content users _)
          ∙ (decode_users-append_pair y (content users) _ _ pairs
              ∙ ap (λ (v : User). decode_users y (content users) ++ v ∷ [])
                  (decode_user-stored new hash)))

  -- The new user is apart from all that were there, and is listed after them.
  abbrev pub AddsOne : User → List User → List User → Type 0
  AddsOne new before after = All (IsApart y new) before × (after ≡ before ++ stored new ∷ [])

  committed-AddsOne :
      (new : User) (hash : Text) {around : ℕ → Attempt} {dir : Dir}
      → IsCommitted y file (addition y file proper new hash) around dir
      → IsListed y file (AddsOne new) dir
  committed-AddsOne new hash c =
      let r = c.commit.rewritten in
      let (apart, shape) = add_edit_sound new hash r.users r.changed in
      let m = addition y file proper new hash in
      let keeps =
        λ (users edited : Node) (h : is_mapping (kind users) ≡ true) (e : m.edit users ≡ ok edited).
          subst (λ n. is_mapping (kind n) ≡ true) (sym (add_edit_sound new hash users e).1)
            (mapping_kept users _ h) in
      record {
        before = decode_users y (content r.users);
        after = decode_users y (content r.edited);
        listed_before = list_before y file m faithful c keeps;
        listed_after = list_after y file m faithful c keeps;
        change = (
          (check_new_iff y new (content r.users)).0 apart,
          decode_users-added new hash r.users
              (faithful.pairs _ r.root r.users r.parsed_root r.found) r.changed,
        );
      }

  -- With a YAML library that reads back what it writes: after a successful `Add`, `List` shows the
  -- users of the backup, from all of which the new one is apart, and then the new one.
  pub list_users-add :
      (new : User) (hash : Text) (c : Circumstances) (dir : Dir)
      → (add y file new hash c dir).1 ≡ ok tt
      → IsListed y file (AddsOne new) (add y file new hash c dir).0
  list_users-add new hash c dir h =
      committed-AddsOne new hash (add-IsCommitted y file proper new hash c dir h)
