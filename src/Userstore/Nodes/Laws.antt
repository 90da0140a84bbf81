-- ===== src/Userstore/Nodes/Laws.antt =====
-- Laws of the node-tree helpers of internal/userstore/userstore.go.
use vps_user_portal.Base.{
  ok, ◌≡◌, if◌then◌else◌, some, ◌++◌, arith, true, ◌∷◌, [], refl, ap, Option, Bool-cases, none, inl,
  inr,
}
use vps_user_portal.Text.{Text, same, same_iff, lit}
use vps_user_portal.Yaml.{
  Nodes, Node, Yaml, cons, is_mapping, nil, kind, value, node, content, document, sequence, mapping,
  scalar, alias, with_content,
}
use vps_user_portal.Userstore.Nodes.{
  find_value, set_value, normalise, normalise_found, users_map, with_users, set_field, append_pair,
  decode_users, decode_user,
}

-- The content of a mapping: keys and values in turn.
abbrev pub IsPaired : Nodes → Type 0
IsPaired nil = Unit
IsPaired (cons k nil) = ⊥
IsPaired (cons k (cons v ns)) = IsPaired ns

-- Setting one field leaves every other field as it is.
pub find_value-set_field :
    (ns : Nodes) (key j : Text) (new : Node)
    → IsPaired ns
    → find_value (set_field ns key new) j ≡ (if same key j then some new else find_value ns j)
unfolding find_value set_field
find_value-set_field nil key j new h = refl
find_value-set_field (cons k nil) key j new h = absurd h
find_value-set_field (cons k (cons v ns)) key j new h = ground (
  arith,
  find_value-set_field ns key j new h,
  same_iff (value k) key,
  same_iff (value k) j,
  same_iff key j,
)

pub find_value-set_value :
    (ns : Nodes) (key : Text) (new : Node) {old : Node}
    → find_value ns key ≡ some old
    → find_value (set_value ns key new) key ≡ some new
unfolding find_value set_value
find_value-set_value nil key new h = cc
find_value-set_value (cons k nil) key new h = cc
find_value-set_value (cons k (cons v ns)) key new {old} h =
    ground (arith, find_value-set_value ns key new {old = old})

normalise-mapping : (m : Node) → is_mapping (kind m) ≡ true → normalise m ≡ ok m
unfolding normalise
normalise-mapping (node document t v ns rest) h = cc
normalise-mapping (node sequence t v ns rest) h = cc
normalise-mapping (node mapping t v ns rest) h = refl
normalise-mapping (node scalar t v ns rest) h = cc
normalise-mapping (node alias t v ns rest) h = cc

normalise_sound :
    (m : Node) {users : Node} → normalise m ≡ ok users → is_mapping (kind users) ≡ true
unfolding normalise
normalise_sound (node document t v ns rest) h = cc
normalise_sound (node sequence t v ns rest) h = cc
normalise_sound (node mapping t v ns rest) h = ground arith
normalise_sound (node scalar t v ns rest) h = ground arith
normalise_sound (node alias t v ns rest) h = cc

normalise_found_sound :
    (o : Option Node) {users : Node}
    → normalise_found o ≡ ok users
    → (is_mapping (kind users) ≡ true) × ((old : Node) × (o ≡ some old))
unfolding normalise_found
normalise_found_sound none h = cc
normalise_found_sound (some m) h = (normalise_sound m h, (m, refl))

-- The users mapping comes from a mapping that has the key, and is one itself.
pub users_map_sound :
    (root : Node) {users : Node}
    → users_map root ≡ ok users
    → (is_mapping (kind root) ≡ true)
      × (is_mapping (kind users) ≡ true)
      × ((old : Node) × (find_value (content root) (lit "users") ≡ some old))
unfolding users_map
users_map_sound root h = elim (Bool-cases (is_mapping (kind root))) [
  | inl e ↦ let (is_map, found) = normalise_found_sound _ (rw e at h) in (e, is_map, found)
  | inr e ↦ cc (rw e at h)
]

pub kind-with_content : (n : Node) (ns : Nodes) → kind (with_content n ns) ≡ kind n
kind-with_content (node k t v old rest) ns = refl

pub content-with_content : (n : Node) (ns : Nodes) → content (with_content n ns) ≡ ns
content-with_content (node k t v old rest) ns = refl

users_map_lem :
    (root m : Node)
    → is_mapping (kind root) ≡ true
    → find_value (content root) (lit "users") ≡ some m
    → is_mapping (kind m) ≡ true
    → users_map root ≡ ok m
unfolding users_map
users_map_lem root m h found e = rw (h, found) (normalise-mapping m e)

-- After a change in place, the users mapping is the changed one.
pub users_map-with_users :
    (root edited : Node) {users : Node}
    → users_map root ≡ ok users
    → is_mapping (kind edited) ≡ true
    → users_map (with_users root edited) ≡ ok edited
unfolding with_users
users_map-with_users root edited h e =
    let (root_map, is_map, (old, found)) = users_map_sound root h in
    let ns = set_value (content root) (lit "users") edited in
    users_map_lem (with_content root ns) edited (rw (kind-with_content root ns) root_map)
      (rw (content-with_content root ns)
        (find_value-set_value (content root) (lit "users") edited found))
      e

module _ (y : Yaml) where
  pub decode_users-append_pair :
      (ns : Nodes) (k v : Node)
      → IsPaired ns
      → decode_users y (append_pair ns k v) ≡ decode_users y ns ++ decode_user y (value k) v ∷ []
  unfolding decode_users append_pair
  decode_users-append_pair nil k v h = refl
  decode_users-append_pair (cons n nil) k v h = absurd h
  decode_users-append_pair (cons n (cons m ns)) k v h =
      ap (◌∷◌ (decode_user y (value n) m)) (decode_users-append_pair ns k v h)
