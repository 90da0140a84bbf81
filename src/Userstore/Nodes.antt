-- ===== src/Userstore/Nodes.antt =====
-- The node-tree helpers of internal/userstore/userstore.go: `parseBytes`, `usersMap`, `findUser`,
-- `setMapField`, `scalarNode`, `seqNode`, `decodeUser`. The code changes nodes in place; here a
-- changed tree is returned.
pub mod Laws
use vps_user_portal.Base.{
  ok, err, ◌>>=◌, ◌&&◌, ◌||◌, Option, none, some, List, [], ◌∷◌, if◌then◌else◌, is_empty,
}
use vps_user_portal.Text.{Text, lit, same}
use vps_user_portal.Yaml.{
  Kind, mapping, sequence, scalar, Node, node, Nodes, nil, cons, kind, value, content, with_content,
  is_document, is_mapping, is_scalar, Yaml, parsed, eof,
}
use vps_user_portal.Userstore.Types.{
  User, not_yaml, empty_document, many_documents, root_not_mapping, users_not_mapping, no_users_key,
  Result,
}

-- A node that the program makes itself.
abbrev pub fresh : Kind → Text → Text → Nodes → Node
fresh k t v ns = node k t v ns []

unfoldable pub scalar_node : Text → Node
scalar_node v = fresh scalar (lit "!!str") v nil

unfoldable pub scalar_nodes : List Text → Nodes
unfolding scalar_node
scalar_nodes [] = nil
scalar_nodes (it ∷ items) = cons (scalar_node it) (scalar_nodes items)

unfoldable pub seq_node : List Text → Node
unfolding scalar_nodes
seq_node items = fresh sequence (lit "!!seq") [] (scalar_nodes items)

-- `append(content, key, val)`
unfoldable pub append_pair : Nodes → Node → Node → Nodes
append_pair nil key val = cons key (cons val nil)
append_pair (cons n ns) key val = cons n (append_pair ns key val)

-- A document has its root as its first content; every caller of `parseBytes` goes on with that node
-- alone, so it is the result here.
first_root : Node → Result Node
first_root doc = elim (content doc) [
  | nil ↦ err empty_document
  | cons root ns ↦ if is_document (kind doc) then ok root else err empty_document
]

module _ (y : Yaml) where
  only_document : Text → Node → Result Node
  only_document b root = elim (y.second_document b) [ eof ↦ ok root | _ ↦ err many_documents ]

  first_parsed : Text → Result Node
  first_parsed b = elim (y.first_document b) [ parsed doc ↦ ok doc | _ ↦ err not_yaml ]

  unfoldable pub parse_bytes : Text → Result Node
  unfolding first_parsed only_document first_root
  parse_bytes b = do doc ← first_parsed b; root ← first_root doc; only_document b root

-- the value of the first pair with this key
unfoldable pub find_value : Nodes → Text → Option Node
unfolding same
find_value nil key = none
find_value (cons k nil) key = none
find_value (cons k (cons v ns)) key = if same (value k) key then some v else find_value ns key

-- the content with that value replaced
unfoldable pub set_value : Nodes → Text → Node → Nodes
unfolding same
set_value nil key new = nil
set_value (cons k nil) key new = cons k nil
set_value (cons k (cons v ns)) key new =
    if same (value k) key then cons k (cons new ns) else cons k (cons v (set_value ns key new))

-- `users:` with a null value becomes an empty mapping; its content, style and comments stay.
unfoldable pub normalise : Node → Result Node
unfolding same
normalise (node k t v ns rest) =
    if is_scalar k && (same t (lit "!!null") || is_empty v)
    then ok (node mapping (lit "!!map") [] ns rest)
    else if is_mapping k
    then ok (node k t v ns rest)
    else err users_not_mapping

normalise_found : Option Node → Result Node
unfolding normalise
normalise_found none = err no_users_key
normalise_found (some m) = normalise m

-- The mapping under the top-level "users" key.
unfoldable pub users_map : Node → Result Node
unfolding find_value normalise_found
users_map root =
    if is_mapping (kind root)
    then normalise_found (find_value (content root) (lit "users"))
    else err root_not_mapping

-- The root after its users mapping was changed in place.
unfoldable pub with_users : Node → Node → Node
unfolding set_value
with_users root users = with_content root (set_value (content root) (lit "users") users)

unfoldable pub find_user : Node → Text → Option Node
unfolding find_value
find_user users username = find_value (content users) username

unfoldable pub set_field : Nodes → Text → Node → Nodes
unfolding same append_pair scalar_node
set_field nil key val = append_pair nil (scalar_node key) val
set_field (cons k nil) key val = append_pair (cons k nil) (scalar_node key) val
set_field (cons k (cons v ns)) key val =
    if same (value k) key then cons k (cons val ns) else cons k (cons v (set_field ns key val))

unfoldable pub set_map_field : Node → Text → Node → Node
unfolding set_field
set_map_field m key val = with_content m (set_field (content m) key val)

module _ (y : Yaml) where
  unfoldable pub decode_user : Text → Node → User
  decode_user username val =
      let raw = y.decode_raw val in
      record {
        username = username;
        display_name = raw.display_name;
        email = raw.email;
        groups = raw.groups;
        disabled = raw.disabled;
      }

  -- the loop of `List`
  unfoldable pub decode_users : Nodes → List User
  unfolding decode_user
  decode_users nil = []
  decode_users (cons k nil) = []
  decode_users (cons k (cons v ns)) = decode_user (value k) v ∷ decode_users ns
