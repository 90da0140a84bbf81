-- ===== src/Userstore/Store/Deleted.antt =====
-- What `List` of internal/userstore/userstore.go shows after a successful `Delete`.
use vps_user_portal.Userstore.Nodes.Laws.{content-with_content}
use vps_user_portal.Userstore.Mutate.Loop.{mutate-IsCommitted}
use vps_user_portal.Userstore.Store.Listing.{
  IsFaithful, without, IsListed, decode_users-drop_user, mapping_kept, list_before, list_after,
}
use vps_user_portal.Userstore.Mutate.Publish.{IsProper}
use vps_user_portal.Userstore.Nodes.{decode_users}
use vps_user_portal.Userstore.Disk.{Dir}
use vps_user_portal.Base.{ok, ◌≡◌, some, ap, Option-cases, ◌∙◌, inl, arith, true, inr, subst, sym}
use vps_user_portal.Userstore.Store.{delete}
use vps_user_portal.Userstore.Mutate.{Mutation, Circumstances}
use vps_user_portal.Text.{Text}
use vps_user_portal.Yaml.{Yaml, Node, Nodes, content, with_content, is_mapping, kind}
use vps_user_portal.Userstore.Edits.{drop_user, delete_edit, delete_verify}

module _ (y : Yaml) (file : Text) (username : Text) where
  abbrev pub deletion : Mutation
  deletion = record { edit = delete_edit username; verify = delete_verify y username }

  delete_edit_sound :
      (users : Node) {edited : Node}
      → delete_edit username users ≡ ok edited
      → (left : Nodes) × (drop_user (content users) username ≡ some left)
        × (edited ≡ with_content users left)
  unfolding delete_edit
  delete_edit_sound users h = elim (Option-cases (drop_user (content users) username)) [
    | inl e ↦ ground arith
    | inr (left, e) ↦ (left, e, ground arith)
  ]

  decode_users-deleted :
      (users : Node) {edited : Node}
      → delete_edit username users ≡ ok edited
      → decode_users y (content edited) ≡ without y username (decode_users y (content users))
  decode_users-deleted users h =
      let (left, dropped, shape) = delete_edit_sound users h in
      ap (λ (n : Node). decode_users y (content n)) shape
      ∙ (ap (decode_users y) (content-with_content users left)
          ∙ decode_users-drop_user y (content users) username dropped)

  -- With a YAML library that reads back what it writes: after a successful `Delete`, `List` shows the
  -- users of the backup without the first of that name.
  pub list_users-delete :
      (c : Circumstances) (dir : Dir)
      → IsProper file
      → IsFaithful y
      → (delete y file username c dir).1 ≡ ok tt
      → IsListed y file
          (λ before after. after ≡ without y username before)
          (delete y file username c dir).0
  unfolding delete
  list_users-delete c dir proper faithful h =
      let k = mutate-IsCommitted y file deletion proper c dir h in
      let r = k.commit.rewritten in
      let keeps =
        λ (users edited : Node) (p : is_mapping (kind users) ≡ true)
            (e : deletion.edit users ≡ ok edited).
          subst (λ n. is_mapping (kind n) ≡ true) (sym (delete_edit_sound users e).2)
            (mapping_kept users _ p) in
      record {
        before = decode_users y (content r.users);
        after = decode_users y (content r.edited);
        listed_before = list_before y file deletion faithful k keeps;
        listed_after = list_after y file deletion faithful k keeps;
        change = decode_users-deleted r.users r.changed;
      }
