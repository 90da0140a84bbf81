-- ===== src/Userstore/Store/Keeping.antt =====
-- The groups that `List` of internal/userstore/userstore.go shows for a user, by the snapshot that
-- the checks of `mutate` take.
use vps_user_portal.Userstore.Types.{undecodable, User}
use vps_user_portal.Text.Maps.{get, put, get-put}
use vps_user_portal.Userstore.Snapshot.Untouched.{texts}
use vps_user_portal.Userstore.Snapshot.{Snapshot, snapshot_from, snapshot}
use vps_user_portal.Userstore.Store.Listing.{listing}
use vps_user_portal.Userstore.Edits.{groups_of}
use vps_user_portal.Userstore.Nodes.{decode_user, set_map_field, decode_users, seq_node, users_map}
use vps_user_portal.Base.{
  List, ◌∷◌, ◌≡◌, if◌then◌else◌, ok, [], some, ap, Bool-cases, ◌∙◌, inl, inr, sym, ok_injective,
  subst, Option, refl, bind-eq-ok, or_fail, or_fail-eq-ok,
}
use vps_user_portal.Yaml.{Yaml, Node, Nodes, content, cons, value, nil, Fields, end}
use vps_user_portal.Text.{Text, lit, same}

-- The groups of the last user of a name, or what is given where there is none
unfoldable pub shown_groups : Text → List Text → List User → List Text
unfolding same
shown_groups username otherwise [] = otherwise
shown_groups username otherwise (u ∷ us) =
    shown_groups username (if same u.username username then u.groups else otherwise) us

-- The library decodes an entry whose groups were replaced as before, but for the groups, and reads one
-- list of strings as the groups of an entry both into a map and into the struct of `decodeUser`.
pub record IsKeeping (y : Yaml) : Type 0 where
  pub others :
      (v : Node) (groups : List Text)
      → record (y.decode_raw (set_map_field v (lit "groups") (seq_node groups))) { groups = [] }
        ≡ record (y.decode_raw v) { groups = [] }
  pub agrees :
      (v : Node) (m : Fields) (groups : List Text)
      → y.decode_map v ≡ some m
      → groups_of (some m) ≡ texts groups
      → (y.decode_raw v).groups ≡ groups

pub texts-eq-end : (groups : List Text) → end ≡ texts groups → [] ≡ groups
texts-eq-end [] h = refl
texts-eq-end (g ∷ groups) h = cc

-- The groups that an entry of a snapshot has, if they are strings.
abbrev HasGroups : Option Fields → List Text → Type 0
HasGroups o shown = (groups : List Text) → groups_of o ≡ texts groups → shown ≡ groups

module _ (y : Yaml) (keeping : IsKeeping y) (username : Text) where
  HasGroups-put :
      (out : Snapshot) (k v : Node) (m : Fields) (otherwise : List Text)
      → y.decode_map v ≡ some m
      → HasGroups (get out username) otherwise
      → HasGroups
          (get (put out (value k) m) username)
          (if same (value k) username then (y.decode_raw v).groups else otherwise)
  HasGroups-put out k v m otherwise decoded has groups h =
      elim (Bool-cases (same (value k) username)) [
        | inl e ↦ rw e (
            keeping.agrees v m groups decoded
              (sym (ap groups_of (get-put out (value k) username m ∙ rw e)) ∙ h))
        | inr e ↦
            rw e (has groups (sym (ap groups_of (get-put out (value k) username m ∙ rw e)) ∙ h))
      ]

  -- The snapshot keeps the last entry of a name.
  snapshot_from-HasGroups :
      (ns : Nodes) (out after : Snapshot) (otherwise : List Text)
      → snapshot_from y out ns ≡ ok after
      → HasGroups (get out username) otherwise
      → HasGroups (get after username) (shown_groups username otherwise (decode_users y ns))
  unfolding snapshot_from decode_users shown_groups decode_user
  snapshot_from-HasGroups nil out after otherwise h has =
      subst (λ (s : Snapshot). HasGroups (get s username) otherwise) (ok_injective h) has
  snapshot_from-HasGroups (cons k nil) out after otherwise h has =
      subst (λ (s : Snapshot). HasGroups (get s username) otherwise) (ok_injective h) has
  snapshot_from-HasGroups (cons k (cons v ns)) out after otherwise h has =
      let (m, decoded, rest) = bind-eq-ok (or_fail (y.decode_map v) (undecodable (value k))) _ h in
      snapshot_from-HasGroups ns (put out (value k) m) after _ rest
        (HasGroups-put out k v m otherwise (or_fail-eq-ok (y.decode_map v) _ decoded) has)

  pub shown_groups-snapshot :
      (root : Node) (after : Snapshot) (users : List User) (groups : List Text)
      → snapshot y root ≡ ok after
      → listing y root ≡ ok users
      → groups_of (get after username) ≡ texts groups
      → shown_groups username [] users ≡ groups
  unfolding snapshot get groups_of
  shown_groups-snapshot root after users groups taken listed has =
      let (m, found, rest) = bind-eq-ok (users_map root) _ taken in
      let (m', found', rest') = bind-eq-ok (users_map root) _ listed in
      let same_map : m ≡ m' = ok_injective (sym found ∙ found') in
      let same_users : decode_users y (content m) ≡ users =
        ap (λ (n : Node). decode_users y (content n)) same_map ∙ ok_injective rest' in
      subst (λ (us : List User). shown_groups username [] us ≡ groups) same_users
        (snapshot_from-HasGroups (content m) [] after [] rest texts-eq-end groups has)
