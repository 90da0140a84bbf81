-- ===== src/Userstore/Store/Regrouped.antt =====
-- What `List` of internal/userstore/userstore.go shows after a successful `SetGroups`.
use vps_user_portal.Userstore.Store.Granted.{set_groups_edit_sound, regrouping}
use vps_user_portal.Userstore.Store.Keeping.{IsKeeping, shown_groups, shown_groups-snapshot}
use vps_user_portal.Userstore.Edits.Verified.{set_groups_verify-IsRegrouped}
use vps_user_portal.Userstore.Mutate.Loop.{mutate-IsCommitted}
use vps_user_portal.Userstore.Store.Listing.{
  IsFaithful, IsListed, mapping_kept, list_before, list_after, listing-rewrite,
}
use vps_user_portal.Userstore.Mutate.Publish.{IsProper}
use vps_user_portal.Userstore.Disk.{Dir}
use vps_user_portal.Userstore.Nodes.Laws.{content-with_content, users_map_sound}
use vps_user_portal.Userstore.Store.{set_groups}
use vps_user_portal.Userstore.Edits.{set_groups_edit}
use vps_user_portal.Userstore.Mutate.{Circumstances}
use vps_user_portal.Userstore.Types.{User}
use vps_user_portal.Userstore.Nodes.{
  decode_user, find_value, set_map_field, set_value, decode_users, seq_node,
}
use vps_user_portal.Base.{
  List, ◌∷◌, ◌≡◌, if◌then◌else◌, ok, [], some, ap, Bool-cases, ◌∙◌, inl, inr, sym, true, subst,
  false,
}
use vps_user_portal.Yaml.{Yaml, Node, Nodes, content, cons, RawUser, value, nil, is_mapping, kind}
use vps_user_portal.Text.{Text, lit, same}

-- The users, but for the groups of the first one of that name
unfoldable pub cleared : Text → List User → List User
unfolding same
cleared username [] = []
cleared username (u ∷ us) =
    let rest = cleared username us in
    if same u.username username then record u { groups = [] } ∷ us else u ∷ rest

pub cleared_here :
    (username : Text) (u : User) (us : List User)
    → same u.username username ≡ true
    → cleared username (u ∷ us) ≡ record u { groups = [] } ∷ us
unfolding cleared
cleared_here username u us h = rw h

pub cleared_later :
    (username : Text) (u : User) (us : List User)
    → same u.username username ≡ false
    → cleared username (u ∷ us) ≡ u ∷ cleared username us
unfolding cleared
cleared_later username u us h = rw h

module _ (y : Yaml) (keeping : IsKeeping y) where
  decode_user-keeping :
      (name : Text) (v : Node) (groups : List Text)
      → record (decode_user y name (set_map_field v (lit "groups") (seq_node groups))) {
        groups = [];
      }
        ≡ record (decode_user y name v) { groups = [] }
  unfolding decode_user
  decode_user-keeping name v groups =
      ap
        (λ (raw : RawUser). record {
          username = name;
          display_name = raw.display_name;
          email = raw.email;
          groups = [];
          disabled = raw.disabled;
        })
        (keeping.others v groups)

  set_value_here :
      (k w new : Node) (ns : Nodes) (username : Text)
      → same (value k) username ≡ true
      → set_value (cons k (cons w ns)) username new ≡ cons k (cons new ns)
  unfolding set_value
  set_value_here k w new ns username h = rw h

  set_value_later :
      (k w new : Node) (ns : Nodes) (username : Text)
      → same (value k) username ≡ false
      → set_value (cons k (cons w ns)) username new ≡ cons k (cons w (set_value ns username new))
  unfolding set_value
  set_value_later k w new ns username h = rw h

  -- the entry with other groups
  abbrev regrouped_entry : Node → List Text → Node
  regrouped_entry v groups = set_map_field v (lit "groups") (seq_node groups)

  decode_users-set_value :
      (ns : Nodes) (username : Text) (groups : List Text) {v : Node}
      → find_value ns username ≡ some v
      → cleared username (decode_users y (set_value ns username (regrouped_entry v groups)))
        ≡ cleared username (decode_users y ns)
  unfolding find_value decode_users decode_user
  decode_users-set_value nil username groups h = cc
  decode_users-set_value (cons k nil) username groups h = cc
  decode_users-set_value (cons k (cons w ns)) username groups {v} h =
      elim (Bool-cases (same (value k) username)) [
        | inl e ↦
            let found : some w ≡ some v = rw e at h in
            let same_node : w ≡ v = cc in
            ap (λ (x : Nodes). cleared username (decode_users y x))
              (set_value_here k w (regrouped_entry v groups) ns username e)
            ∙ (cleared_here username (decode_user y (value k) (regrouped_entry v groups))
                  (decode_users y ns) e
                ∙ (ap (λ (u : User). u ∷ decode_users y ns)
                      (decode_user-keeping (value k) v groups
                        ∙ ap (λ (n : Node). record (decode_user y (value k) n) { groups = [] })
                            (sym same_node))
                    ∙ sym
                        (cleared_here username (decode_user y (value k) w) (decode_users y ns) e)))
        | inr e ↦
            ap (λ (x : Nodes). cleared username (decode_users y x))
              (set_value_later k w (regrouped_entry v groups) ns username e)
            ∙ (cleared_later username (decode_user y (value k) w)
                  (decode_users y (set_value ns username (regrouped_entry v groups))) e
                ∙ (ap (λ (us : List User). decode_user y (value k) w ∷ us)
                      (decode_users-set_value ns username groups {v = v} (rw e at h))
                    ∙ sym
                        (cleared_later username (decode_user y (value k) w) (decode_users y ns) e)))
      ]

module _ (y : Yaml) (file : Text) (username : Text) (groups : List Text) where
  decode_users-regrouped :
      (users : Node) {edited : Node}
      → IsKeeping y
      → set_groups_edit username groups users ≡ ok edited
      → cleared username (decode_users y (content edited))
        ≡ cleared username (decode_users y (content users))
  decode_users-regrouped users keeping h =
      let (v, found, shape) = set_groups_edit_sound username groups users h in
      ap (λ (n : Node). cleared username (decode_users y (content n))) shape
      ∙ (ap (λ (ns : Nodes). cleared username (decode_users y ns)) (content-with_content users _)
          ∙ decode_users-set_value y keeping (content users) username groups found)

  -- In the list shown after, the first user of the name differs from the list before in its groups at
  -- most, the last one has the groups asked for, and all else is as it was.
  abbrev pub Regroups : List User → List User → Type 0
  Regroups before after =
      (cleared username after ≡ cleared username before) × (shown_groups username [] after ≡ groups)

  -- With a YAML library that reads back what it writes, and keeps what is not replaced: after a
  -- successful `SetGroups`, `List` shows the users of the backup, in order, but for the groups of the
  -- first of that name, and the last of that name has the groups asked for.
  pub list_users-set_groups :
      (c : Circumstances) (dir : Dir)
      → IsProper file
      → IsFaithful y
      → IsKeeping y
      → (set_groups y file username groups c dir).1 ≡ ok tt
      → IsListed y file Regroups (set_groups y file username groups c dir).0
  unfolding set_groups
  list_users-set_groups c dir proper faithful keeping h =
      let k = mutate-IsCommitted y file (regrouping y file username groups) proper c dir h in
      let r = k.commit.rewritten in
      let keeps =
        λ (users edited : Node) (p : is_mapping (kind users) ≡ true)
            (e : (regrouping y file username groups).edit users ≡ ok edited).
          subst (λ n. is_mapping (kind n) ≡ true)
            (sym (set_groups_edit_sound username groups users e).2) (mapping_kept users _ p) in
      record {
        before = decode_users y (content r.users);
        after = decode_users y (content r.edited);
        listed_before = list_before y file (regrouping y file username groups) faithful k keeps;
        listed_after = list_after y file (regrouping y file username groups) faithful k keeps;
        change = (
          decode_users-regrouped r.users keeping r.changed,
          shown_groups-snapshot y keeping username r.reparsed r.after _ groups r.taken_after
              (listing-rewrite y (regrouping y file username groups) faithful r
                (keeps r.users r.edited (users_map_sound r.root r.found).1 r.changed))
              (set_groups_verify-IsRegrouped y username groups r.before r.after
                r.verified).regrouped,
        );
      }
