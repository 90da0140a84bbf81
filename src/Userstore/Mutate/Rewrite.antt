-- ===== src/Userstore/Mutate/Rewrite.antt =====
-- What a successful `rewrite` has established: the part of `mutateOnce` before the disk is touched.
use vps_user_portal.Base.{ok, bind-eq-ok, wrap, wrap-eq-ok, or_fail-eq-ok, some, subst}
use vps_user_portal.Userstore.Snapshot.{Snapshot, snapshot}
use vps_user_portal.Userstore.Types.{encode_failed, output_unparsable, output_undecodable, refused}
use vps_user_portal.Userstore.Nodes.{parse_bytes, users_map, with_users}
use vps_user_portal.Text.{Text}
use vps_user_portal.Yaml.{Yaml, Node}
use vps_user_portal.Userstore.Mutate.{Mutation, rewrite, ◌≡◌, check_output, edit_root}

module _ (y : Yaml) (m : Mutation) where
  -- What `check_output` has found.
  pub record IsChecked (before : Snapshot) (out : Text) : Type 0 where
    reparsed : Node
    read_back : parse_bytes y out ≡ ok reparsed
    after : Snapshot
    taken_after : snapshot y reparsed ≡ ok after
    verified : m.verify before after ≡ ok tt

  check_output-IsChecked :
      (before : Snapshot) (out : Text) {out' : Text}
      → check_output y m before out ≡ ok out'
      → IsChecked before out × (out ≡ out')
  unfolding check_output
  check_output-IsChecked before out h =
      let (reparsed, read_back, h1) = bind-eq-ok (wrap output_unparsable (parse_bytes y out)) _ h in
      let (after, taken, h2) = bind-eq-ok (wrap output_undecodable (snapshot y reparsed)) _ h1 in
      let (u, verified, same_out) = bind-eq-ok (wrap refused (m.verify before after)) _ h2 in
      (
        record {
          reparsed = reparsed;
          read_back = wrap-eq-ok output_unparsable (parse_bytes y out) read_back;
          after = after;
          taken_after = wrap-eq-ok output_undecodable (snapshot y reparsed) taken;
          verified = wrap-eq-ok refused (m.verify before after) verified;
        },
        cc,
      )

  record IsEdited (root : Node) (out : Text) : Type 0 where
    users : Node
    found : users_map root ≡ ok users
    edited : Node
    changed : m.edit users ≡ ok edited
    printed : y.encode (with_users root edited) ≡ some out

  edit_root-IsEdited : (root : Node) {out : Text} → edit_root y m root ≡ ok out → IsEdited root out
  unfolding edit_root
  edit_root-IsEdited root h =
      let (users, found, h1) = bind-eq-ok (users_map root) _ h in
      let (edited, changed, h2) = bind-eq-ok (m.edit users) _ h1 in
      record {
        users = users;
        found = found;
        edited = edited;
        changed = changed;
        printed = or_fail-eq-ok (y.encode (with_users root edited)) encode_failed h2;
      }

  -- The stages between the bytes that were read and the bytes to write.
  pub record IsRewrite (original out : Text) : Type 0 where
    pub root : Node
    pub parsed_root : parse_bytes y original ≡ ok root
    pub before : Snapshot
    pub taken : snapshot y root ≡ ok before
    pub users : Node
    pub found : users_map root ≡ ok users
    pub edited : Node
    pub changed : m.edit users ≡ ok edited
    pub printed : y.encode (with_users root edited) ≡ some out
    pub reparsed : Node
    pub read_back : parse_bytes y out ≡ ok reparsed
    pub after : Snapshot
    pub taken_after : snapshot y reparsed ≡ ok after
    pub verified : m.verify before after ≡ ok tt

  pub rewrite-IsRewrite :
      {original out : Text} → rewrite y m original ≡ ok out → IsRewrite original out
  unfolding rewrite
  rewrite-IsRewrite {original} {out} h =
      let (root, parsed_root, h1) = bind-eq-ok (parse_bytes y original) _ h in
      let (before, taken, h2) = bind-eq-ok (snapshot y root) _ h1 in
      let (written, was_edited, h3) = bind-eq-ok (edit_root y m root) _ h2 in
      let (checked, same_out) = check_output-IsChecked before written h3 in
      let e = edit_root-IsEdited root was_edited in
      subst (IsRewrite original) same_out (record {
        root = root;
        parsed_root = parsed_root;
        before = before;
        taken = taken;
        users = e.users;
        found = e.found;
        edited = e.edited;
        changed = e.changed;
        printed = e.printed;
        reparsed = checked.reparsed;
        read_back = checked.read_back;
        after = checked.after;
        taken_after = checked.taken_after;
        verified = checked.verified;
      })
