-- ===== src/Yaml.antt =====
-- The part of gopkg.in/yaml.v3 that the program uses. Its node tree is a data type; parsing,
-- printing and decoding are third-party code and so are parameters.
use vps_user_portal.Base.{Bool, true, false, Option, List}
use vps_user_portal.Text.{Text}
use vps_user_portal.Text.Maps.{Dict}

pub data Kind : Type 0 where
  document sequence mapping scalar alias : Kind

-- `yaml.Node`: its kind, tag, value, content, and all that the program never reads (style, anchor,
-- comments, position), as one text.
mutual
  pub data Node : Type 0 where
    node : Kind → Text → Text → Nodes → Text → Node

  pub data Nodes : Type 0 where
    nil : Nodes
    cons : Node → Nodes → Nodes

abbrev pub kind : Node → Kind
kind (node k t v ns rest) = k

abbrev pub tag : Node → Text
tag (node k t v ns rest) = t

abbrev pub value : Node → Text
value (node k t v ns rest) = v

abbrev pub content : Node → Nodes
content (node k t v ns rest) = ns

abbrev pub with_content : Node → Nodes → Node
with_content (node k t v ns rest) new = node k t v new rest

abbrev pub is_document : Kind → Bool
is_document document = true
is_document _ = false

abbrev pub is_mapping : Kind → Bool
is_mapping mapping = true
is_mapping _ = false

abbrev pub is_scalar : Kind → Bool
is_scalar scalar = true
is_scalar _ = false

-- What a field decodes to, Go's `any`; `other` is any value that is neither a string nor a list.
mutual
  pub data Value : Type 0 where
    text : Text → Value
    seq : Values → Value
    other : Text → Value

  pub data Values : Type 0 where
    end : Values
    item : Value → Values → Values

-- `map[string]any`
abbrev pub Fields : Type 0
Fields = Dict Value

-- What the anonymous struct of `decodeUser` decodes to.
pub record RawUser : Type 0 where
  pub display_name : Text
  pub email : Text
  pub groups : List Text
  pub disabled : Bool

-- One call of `(*Decoder).Decode`.
pub data Decoded : Type 0 where
  parsed : Node → Decoded
  eof bad : Decoded

pub record Yaml : Type 0 where
  -- the first and the second call of `Decode` on a decoder of these bytes
  pub first_document : Text → Decoded
  pub second_document : Text → Decoded
  -- `Encode` and `Close`, with an indent of two
  pub encode : Node → Option Text
  -- `node.Decode(&m)` for a `map[string]any`
  pub decode_map : Node → Option Fields
  -- `node.Decode(&raw)` for the struct of `decodeUser`: what is in it when the error is dropped
  pub decode_raw : Node → RawUser
  pub marshal : Fields → Option Text
