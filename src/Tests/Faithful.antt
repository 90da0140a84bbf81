-- ===== src/Tests/Faithful.antt =====
-- The YAML library of the tests keeps its promises, and the names of the tests are proper.
use vps_user_portal.Userstore.Snapshot.Untouched.{texts}
use vps_user_portal.Text.Maps.{get}
use vps_user_portal.Userstore.Store.Keeping.{IsKeeping, texts-eq-end}
use vps_user_portal.Userstore.Nodes.Laws.{IsPaired, content-with_content, find_value-set_field}
use vps_user_portal.Userstore.Types.{not_yaml}
use vps_user_portal.Base.{
  ok, err, ◌≡◌, ap, some, inl, subst, inr, ◌⊎◌, refl, List, ℕ, arith, Bool-cases, false, ◌≢◌, ◌∷◌,
  [], true, ◌∙◌, Option, none, sym,
}
use vps_user_portal.Text.{Text, same, same_iff, lit}
use vps_user_portal.Userstore.Mutate.Publish.{IsProper}
use vps_user_portal.Userstore.Store.Listing.{IsFaithful, listing}
use vps_user_portal.Userstore.Edits.{user_node, groups_of}
use vps_user_portal.Yaml.{
  Node, content, bad, Nodes, cons, nil, Value, value, Values, end, node, seq, sequence, document,
  mapping, scalar, alias, Fields,
}
use vps_user_portal.Userstore.Nodes.{
  parse_bytes, users_map, scalar_nodes, set_field, set_map_field, seq_node, find_value,
}
use vps_user_portal.Tests.Toy.{
  toy, toy_encode, toy_parse, toy_user, tree_a, tree_ab, text_a, text_ab, file_name, texts_of,
  field, is_paired, scalar_of, decoded_values, decoded_value, fields_of, items_of, toy_fields,
}

toy_encode_sound :
    (root : Node) (out : Text)
    → toy_encode root ≡ some out
    → ((root ≡ tree_a) × (out ≡ text_a)) ⊎ ((root ≡ tree_ab) × (out ≡ text_ab))
unfolding toy_encode
toy_encode_sound root out h = ground arith

parse_a : parse_bytes toy text_a ≡ ok tree_a
unfolding parse_bytes toy_parse
parse_a = refl

parse_ab : parse_bytes toy text_ab ≡ ok tree_ab
unfolding parse_bytes toy_parse
parse_ab = refl

reads_back :
    (root : Node) (out : Text) (root' : Node)
    → toy.encode root ≡ some out
    → parse_bytes toy out ≡ ok root'
    → root' ≡ root
reads_back root out root' h p = elim (toy_encode_sound root out h) [
  | inl (e, t) ↦ cc (parse_a, subst (λ b. parse_bytes toy b ≡ ok root') t p, e)
  | inr (e, t) ↦ cc (parse_ab, subst (λ b. parse_bytes toy b ≡ ok root') t p, e)
]

parse_bad : (b : Text) → toy_parse b ≡ bad → parse_bytes toy b ≡ err not_yaml
unfolding parse_bytes
parse_bad b h = ground arith

toy_parse-bad : (b : Text) → same b text_a ≡ false → same b text_ab ≡ false → toy_parse b ≡ bad
unfolding toy_parse
toy_parse-bad b h k = rw (h, k)

parse_bytes-cases :
    (b : Text) (root : Node) → parse_bytes toy b ≡ ok root → (root ≡ tree_a) ⊎ (root ≡ tree_ab)
parse_bytes-cases b root h = elim (Bool-cases (same b text_a)) [
  | inl e ↦ inl (cc (parse_a, subst (λ t. parse_bytes toy t ≡ ok root) ((same_iff b text_a).0 e) h))
  | inr e ↦ elim (Bool-cases (same b text_ab)) [
    | inl e' ↦
        inr (cc (parse_ab, subst (λ t. parse_bytes toy t ≡ ok root) ((same_iff b text_ab).0 e') h))
    | inr e' ↦ cc (parse_bad b (toy_parse-bad b e e'))
  ]
]

users-IsPaired :
    (root known users : Node)
    → users_map root ≡ ok known
    → IsPaired (content known)
    → users_map root ≡ ok users
    → IsPaired (content users)
users-IsPaired root known users h p k =
    let e : known ≡ users = cc in subst (λ (n : Node). IsPaired (content n)) e p

users_a-IsPaired : (users : Node) → users_map tree_a ≡ ok users → IsPaired (content users)
unfolding users_map
users_a-IsPaired users h = users-IsPaired tree_a _ users refl tt h

users_ab-IsPaired : (users : Node) → users_map tree_ab ≡ ok users → IsPaired (content users)
unfolding users_map
users_ab-IsPaired users h = users-IsPaired tree_ab _ users refl tt h

texts_of-scalar_nodes : (ss : List Text) → texts_of (scalar_nodes ss) ≡ ss
unfolding scalar_nodes
texts_of-scalar_nodes [] = refl
texts_of-scalar_nodes (s ∷ ss) = ap (◌∷◌ s) (texts_of-scalar_nodes ss)

toy_user-user_node :
    (display_name email hash : Text) (groups : List Text)
    → toy_user (user_node display_name email hash groups)
      ≡ record { display_name = display_name; email = email; groups = groups; disabled = false }
unfolding toy_user user_node
toy_user-user_node display_name email hash groups = λ i. record {
  display_name = display_name;
  email = email;
  groups = texts_of-scalar_nodes groups i;
  disabled = false;
}

pub toy-IsFaithful : IsFaithful toy
toy-IsFaithful = record {
  reads_back = λ root out root' h p. ap (listing toy) (reads_back root out root' h p);
  pairs = λ bytes root users p f. elim (parse_bytes-cases bytes root p) [
    | inl e ↦ users_a-IsPaired users (subst (λ n. users_map n ≡ ok users) e f)
    | inr e ↦ users_ab-IsPaired users (subst (λ n. users_map n ≡ ok users) e f)
  ];
  decodes = toy_user-user_node;
}

is_paired-set_field :
    (ns : Nodes) (key : Text) (new : Node) → is_paired (set_field ns key new) ≡ is_paired ns
unfolding set_field
is_paired-set_field nil key new = refl
is_paired-set_field (cons k nil) key new = refl
is_paired-set_field (cons k (cons v ns)) key new = ground (arith, is_paired-set_field ns key new)

IsPaired-is_paired : (ns : Nodes) → is_paired ns ≡ true → IsPaired ns
IsPaired-is_paired nil h = tt
IsPaired-is_paired (cons k nil) h = cc
IsPaired-is_paired (cons k (cons v ns)) h = IsPaired-is_paired ns h

-- Another field is what it was.
field-set_field :
    (ns : Nodes) (key j : Text) (new : Node)
    → same key j ≡ false
    → field (set_field ns key new) j ≡ field ns j
unfolding field
field-set_field ns key j new other = elim (Bool-cases (is_paired ns)) [
  | inl e ↦
      rw (is_paired-set_field ns key new, e)
        (find_value-set_field ns key j new (IsPaired-is_paired ns e) ∙ rw other)
  | inr e ↦ rw (is_paired-set_field ns key new, e)
]

set_field-content :
    (v new : Node) (key : Text) → content (set_map_field v key new) ≡ set_field (content v) key new
unfolding set_map_field
set_field-content v new key = content-with_content v (set_field (content v) key new)

toy_user-others :
    (v : Node) (groups : List Text)
    → record (toy_user (set_map_field v (lit "groups") (seq_node groups))) { groups = [] }
      ≡ record (toy_user v) { groups = [] }
unfolding toy_user
toy_user-others v groups =
    let kept = λ (j : Text) (other : same (lit "groups") j ≡ false).
      ap (λ (ns : Nodes). field ns j) (set_field-content v (seq_node groups) (lit "groups"))
      ∙ field-set_field (content v) (lit "groups") j (seq_node groups) other in
    λ i. record {
      display_name = scalar_of (kept (lit "displayname") refl i);
      email = scalar_of (kept (lit "email") refl i);
      groups = [];
      disabled = false;
    }

abbrev value_of : Option Node → Option Value
value_of none = none
value_of (some n) = some (decoded_value n)

get-fields_of : (ns : Nodes) (key : Text) → get (fields_of ns) key ≡ value_of (find_value ns key)
unfolding get find_value
get-fields_of nil key = refl
get-fields_of (cons k nil) key = refl
get-fields_of (cons k (cons v ns)) key = ground (arith, get-fields_of ns key)

texts_of-decoded_values :
    (ns : Nodes) (groups : List Text) → decoded_values ns ≡ texts groups → texts_of ns ≡ groups
texts_of-decoded_values nil [] h = refl
texts_of-decoded_values nil (g ∷ groups) h = cc
texts_of-decoded_values (cons n ns) [] h = cc
texts_of-decoded_values (cons n ns) (g ∷ groups) h =
    let rest : decoded_values ns ≡ texts groups = cc in
    let head : value n ≡ g = cc in cc (texts_of-decoded_values ns groups rest, head)

-- The values that are listed under a key
abbrev listed : Option Value → Values
listed o = elim o [ none ↦ end | some v ↦ elim v [ seq vs ↦ vs | _ ↦ end ] ]

items_of-listed :
    (o : Option Node) (groups : List Text)
    → listed (value_of o) ≡ texts groups
    → items_of o ≡ groups
items_of-listed none groups h = texts-eq-end groups h
items_of-listed (some (node sequence t v ns rest)) groups h = texts_of-decoded_values ns groups h
items_of-listed (some (node document t v ns rest)) groups h = texts-eq-end groups h
items_of-listed (some (node mapping t v ns rest)) groups h = texts-eq-end groups h
items_of-listed (some (node scalar t v ns rest)) groups h = texts-eq-end groups h
items_of-listed (some (node alias t v ns rest)) groups h = texts-eq-end groups h

toy_user-agrees :
    (v : Node) (m : Fields) (groups : List Text)
    → toy_fields v ≡ some m
    → groups_of (some m) ≡ texts groups
    → (toy_user v).groups ≡ groups
unfolding toy_fields toy_user field groups_of
toy_user-agrees v m groups decoded has = elim (Bool-cases (is_paired (content v))) [
  | inl e ↦
      let whole : some (fields_of (content v)) ≡ some m = rw e at decoded in
      let same_fields : fields_of (content v) ≡ m = cc in
      rw e (
        items_of-listed (find_value (content v) (lit "groups")) groups (
          ap listed (
            sym (get-fields_of (content v) (lit "groups"))
            ∙ ap (λ (fs : Fields). get fs (lit "groups")) same_fields)
          ∙ has))
  | inr e ↦ cc (rw e at decoded)
]

pub toy-IsKeeping : IsKeeping toy
toy-IsKeeping = record { others = toy_user-others; agrees = toy_user-agrees }

cons-ne-cons : (c d : ℕ) (s t : Text) → c ≢ d → c ∷ s ≢ d ∷ t
cons-ne-cons c d s t h e = h (ground arith)

pub file_name-IsProper : IsProper file_name
file_name-IsProper = record {
  not_temp = λ suffix. cons-ne-cons b'u' b'.' _ _ (omega arith);
  backup_not_temp = λ suffix. cons-ne-cons b'u' b'.' _ _ (omega arith);
  not_lock = cons-ne-cons b'u' b'.' _ _ (omega arith);
}
