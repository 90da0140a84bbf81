-- ===== src/Tests/Toy.antt =====
-- A small YAML library and Unicode tables for the tests: the library reads two files and prints them.
use vps_user_portal.Userstore.Disk.{Dir, quiet}
use vps_user_portal.Userstore.Mutate.{Circumstances}
use vps_user_portal.Userstore.Nodes.{find_value, fresh}
use vps_user_portal.Base.{Option, false, List, some, [], ◌∷◌, none, if◌then◌else◌, ◌++◌, Bool, true}
use vps_user_portal.Userstore.Types.{User}
use vps_user_portal.Text.{Text, same, lit}
use vps_user_portal.Text.Case.{Unicode}
use vps_user_portal.Yaml.{
  Node, Nodes, Values, Value, Fields, Yaml, cons, node, Decoded, RawUser, end, text, eof, mapping,
  nil, document, value, content, item, seq, parsed, sequence, other, bad, scalar,
}
use native.Mathlib.Decide.{ℕ_discrete}
use mathlib.Core.Logic.{ite}

unfoldable pub Node-discrete : Discrete Node
Node-discrete = hlevel ℕ_discrete

instance abbrev pub ascii : Unicode
ascii = record { lower_wide = λ r. r; upper_wide = λ r. r; fold_wide = λ r t. false }

abbrev pub file_name : Text
file_name = lit "users.yml"

abbrev pub alice : User
alice = record {
  username = lit "alice";
  display_name = lit "Alice";
  email = lit "alice@x.org";
  groups = lit "staff" ∷ [];
  disabled = false;
}

abbrev pub bob : User
bob = record {
  username = lit "bob";
  display_name = lit "Bob";
  email = lit "Bob@x.org";
  groups = lit "ops" ∷ lit "staff" ∷ [];
  disabled = false;
}

abbrev scalar_key : Text → Node
scalar_key s = fresh scalar (lit "!!str") s nil

abbrev scalar_keys : List Text → Nodes
scalar_keys [] = nil
scalar_keys (s ∷ ss) = cons (scalar_key s) (scalar_keys ss)

abbrev entry : Text → Text → Text → List Text → Node
entry display_name email hash groups = fresh mapping (lit "!!map") [] (
    cons (scalar_key (lit "displayname")) (
      cons (scalar_key display_name) (
        cons (scalar_key (lit "email")) (
          cons (scalar_key email) (
            cons (scalar_key (lit "password")) (
              cons (scalar_key hash) (
                cons (scalar_key (lit "groups"))
                  (cons (fresh sequence (lit "!!seq") [] (scalar_keys groups)) nil))))))))

abbrev root_with : Nodes → Node
root_with users =
    fresh mapping (lit "!!map") []
      (cons (scalar_key (lit "users")) (cons (fresh mapping (lit "!!map") [] users) nil))

-- The file with one user, and with two.
abbrev pub users_a : Nodes
users_a =
    cons (scalar_key alice.username)
      (cons (entry alice.display_name alice.email (lit "h") alice.groups) nil)

abbrev pub tree_a : Node
tree_a = root_with users_a

abbrev pub tree_ab : Node
tree_ab = root_with (
    cons (scalar_key alice.username) (
      cons (entry alice.display_name alice.email (lit "h") alice.groups) (
        cons (scalar_key bob.username)
          (cons (entry bob.display_name (lit "bob@x.org") (lit "k") bob.groups) nil))))

abbrev pub text_a : Text
text_a = lit "a"

abbrev pub text_ab : Text
text_ab = lit "ab"

unfoldable pub toy_encode : Node → Option Text
unfolding Node-discrete ℕ_discrete
toy_encode root =
    ite (Node-discrete root tree_a) (some text_a)
      (ite (Node-discrete root tree_ab) (some text_ab) none)

abbrev in_document : Node → Node
in_document root = node document [] [] (cons root nil) []

unfoldable pub toy_parse : Text → Decoded
unfolding same
toy_parse b =
    if same b text_a
    then parsed (in_document tree_a)
    else if same b text_ab
    then parsed (in_document tree_ab)
    else bad

abbrev pub scalar_of : Option Node → Text
scalar_of none = []
scalar_of (some n) = value n

abbrev pub texts_of : Nodes → List Text
texts_of nil = []
texts_of (cons n ns) = value n ∷ texts_of ns

-- A list of strings is read of a sequence only.
abbrev pub items_of : Option Node → List Text
items_of none = []
items_of (some (node sequence t v ns rest)) = texts_of ns
items_of (some (node k t v ns rest)) = []

abbrev pub is_paired : Nodes → Bool
is_paired nil = true
is_paired (cons k nil) = false
is_paired (cons k (cons v ns)) = is_paired ns

-- A field of a mapping; content that is not in pairs has none.
unfoldable pub field : Nodes → Text → Option Node
unfolding find_value
field ns key = if is_paired ns then find_value ns key else none

unfoldable pub toy_user : Node → RawUser
unfolding field
toy_user n = record {
  display_name = scalar_of (field (content n) (lit "displayname"));
  email = scalar_of (field (content n) (lit "email"));
  groups = items_of (field (content n) (lit "groups"));
  disabled = false;
}

abbrev pub decoded_values : Nodes → Values
decoded_values nil = end
decoded_values (cons n ns) = item (text (value n)) (decoded_values ns)

abbrev pub decoded_value : Node → Value
decoded_value (node sequence t v ns rest) = seq (decoded_values ns)
decoded_value (node k t v ns rest) = text v

abbrev pub fields_of : Nodes → Fields
fields_of nil = []
fields_of (cons k nil) = []
fields_of (cons k (cons v ns)) = (value k, decoded_value v) ∷ fields_of ns

unfoldable pub toy_fields : Node → Option Fields
toy_fields n = if is_paired (content n) then some (fields_of (content n)) else none

abbrev printed_values : Values → Text
printed_values end = []
printed_values (item (text s) vs) = s ++ 0 ∷ printed_values vs
printed_values (item v vs) = printed_values vs

abbrev printed_value : Value → Text
printed_value (text s) = s
printed_value (seq vs) = printed_values vs
printed_value (other s) = s

abbrev toy_print : Fields → Text
toy_print [] = []
toy_print ((k, v) ∷ m) = k ++ 0 ∷ printed_value v ++ 1 ∷ toy_print m

abbrev pub toy : Yaml
toy = record {
  first_document = toy_parse;
  second_document = λ b. eof;
  encode = toy_encode;
  decode_map = toy_fields;
  decode_raw = toy_user;
  marshal = λ m. some (toy_print m);
}

abbrev pub calm : Circumstances
calm = record { lock_fails = false; flock_fails = false; around = λ i. quiet }

abbrev pub dir_a : Dir
dir_a = (file_name, text_a) ∷ []
