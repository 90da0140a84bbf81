-- ===== src/Userstore/Snapshot.antt =====
-- `snapshot`, `untouchedEqual` and `sameStrings` of internal/userstore/userstore.go.
pub mod Untouched
pub mod Keys
use vps_user_portal.Base.{
  ok, err, ◌>>=◌, ◌>>◌, or_fail, Bool, true, false, ◌&&◌, Option, none, some, List, [], ◌∷◌,
  if◌then◌else◌,
}
use vps_user_portal.Text.{Text, same}
use vps_user_portal.Text.Maps.{Dict, get, put, keys}
use vps_user_portal.Text.Order.{sort}
use vps_user_portal.Yaml.{
  Node, Nodes, nil, cons, value, content, Fields, text, Values, end, item, Yaml,
}
use vps_user_portal.Userstore.Types.{undecodable, vanished, modified, appeared, Result}
use vps_user_portal.Userstore.Nodes.{users_map}

-- `map[string]map[string]any`: each user with all of its fields
abbrev pub Snapshot : Type 0
Snapshot = Dict Fields

module _ (y : Yaml) where
  unfoldable pub snapshot_from : Snapshot → Nodes → Result Snapshot
  unfolding put
  snapshot_from out nil = ok out
  snapshot_from out (cons k nil) = ok out
  snapshot_from out (cons k (cons v ns)) = do
    m ← or_fail (y.decode_map v) (undecodable (value k))
    snapshot_from (put out (value k) m) ns

  unfoldable pub snapshot : Node → Result Snapshot
  unfolding users_map snapshot_from
  snapshot root = do users ← users_map root; snapshot_from [] (content users)

  -- both entries print, and print alike
  unfoldable pub same_marshal : Fields → Fields → Bool
  unfolding same
  same_marshal a b = elim (y.marshal a) [
    | none ↦ false
    | some s ↦ elim (y.marshal b) [ none ↦ false | some t ↦ same s t ]
  ]

  check_kept : Text → Option Fields → Option Fields → Result (Unit {0})
  unfolding same_marshal
  check_kept name old none = err (vanished name)
  check_kept name none (some new) = err (modified name)
  check_kept name (some old) (some new) =
      if same_marshal old new then ok tt else err (modified name)

  -- the first loop, over the sorted names
  all_kept : Snapshot → Snapshot → Text → List Text → Result (Unit {0})
  unfolding check_kept get same
  all_kept before after exempt [] = ok tt
  all_kept before after exempt (name ∷ names) =
      let rest = all_kept before after exempt names in
      if same name exempt then rest else check_kept name (get before name) (get after name) >> rest

  is_known : Option Fields → Bool
  is_known none = false
  is_known (some m) = true

  -- The second loop. Go takes the names in no fixed order, which decides only the name in the error.
  none_new : Snapshot → Text → List Text → Result (Unit {0})
  unfolding is_known get same
  none_new before exempt [] = ok tt
  none_new before exempt (name ∷ names) =
      let rest = none_new before exempt names in
      if same name exempt
      then rest
      else if is_known (get before name)
      then rest
      else err (appeared name)

  unfoldable pub untouched_equal : Snapshot → Snapshot → Text → Result (Unit {0})
  unfolding all_kept none_new sort
  untouched_equal before after exempt =
      all_kept before after exempt (sort (keys before)) >> none_new before exempt (keys after)

-- `got` holds strings only, and they are `want`
unfoldable pub same_strings : Values → List Text → Bool
unfolding same
same_strings end [] = true
same_strings end (w ∷ want) = false
same_strings (item g got) [] = false
same_strings (item (text s) got) (w ∷ want) = same s w && same_strings got want
same_strings (item _ got) (w ∷ want) = false
