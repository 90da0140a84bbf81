-- ===== src/Userstore/Snapshot/Keys.antt =====
-- The names of `snapshot` in internal/userstore/userstore.go: which stand in it, and how often.
use vps_user_portal.Userstore.Snapshot.{Snapshot, snapshot_from}
use vps_user_portal.Userstore.Snapshot.Untouched.{SameBut}
use vps_user_portal.Userstore.Nodes.{find_value}
use vps_user_portal.Text.Subset.{length-within}
use vps_user_portal.Text.Distinct.{IsDistinct}
use vps_user_portal.Text.Maps.{Dict, get, put, keys, get-put, get_of_key, key_of_get}
use vps_user_portal.Text.{Text, same, contains, same_iff, same_comm}
use vps_user_portal.Yaml.{Yaml, Node, Nodes, nil, cons, value, Fields}
use vps_user_portal.Userstore.Types.{undecodable}
use vps_user_portal.Base.{
  ok, ◌≡◌, true, false, some, [], ◌∷◌, arith, bind-eq-ok, or_fail, Option-cases, Bool-cases, inl,
  inr, length, refl, ap, suc, subst, ok_injective, List,
}

put_apart :
    {V : Type 0} (m : Dict V) (k z : Text) (v : V)
    → contains (keys m) z ≡ false
    → same z k ≡ false
    → contains (keys (put m k v)) z ≡ false
unfolding contains put
put_apart [] k z v h ne = ground (arith, same_comm z k)
put_apart ((j, w) ∷ m) k z v h ne = ground (arith, put_apart m k z v, same_comm z k)

length-keys : {V : Type 0} (m : Dict V) → length (keys m) ≡ length m
length-keys [] = refl
length-keys ((k, v) ∷ m) = ap suc (length-keys m)

put-IsDistinct :
    {V : Type 0} (m : Dict V) (k : Text) (v : V)
    → IsDistinct (keys m)
    → IsDistinct (keys (put m k v))
unfolding contains put
put-IsDistinct [] k v d = (refl, tt)
put-IsDistinct ((j, w) ∷ m) k v d = elim (Bool-cases (same j k)) [
  | inl e ↦ rw e (rw ((same_iff j k).0 e) at d)
  | inr e ↦ rw e (put_apart m k j v d.0 e, put-IsDistinct m k v d.1)
]

contains_later :
    (name z : Text) (names : List Text)
    → contains (name ∷ names) z ≡ true
    → same name z ≡ false
    → contains names z ≡ true
unfolding contains
contains_later name z names h ne = rw ne at h

module _ (y : Yaml) where
  -- What stands in the snapshot so far stays in it.
  snapshot_from-keeps :
      (out : Snapshot) (ns : Nodes) (name : Text) {s : Snapshot} {m : Fields}
      → snapshot_from y out ns ≡ ok s
      → get out name ≡ some m
      → (n : Fields) × (get s name ≡ some n)
  unfolding snapshot_from
  snapshot_from-keeps out nil name {s} {m} h e =
      (m, subst (λ o. get o name ≡ some m) (ok_injective h) e)
  snapshot_from-keeps out (cons k nil) name {s} {m} h e =
      (m, subst (λ o. get o name ≡ some m) (ok_injective h) e)
  snapshot_from-keeps out (cons k (cons v ns)) name {s} {m} h e =
      let (f, decoded, rest) = bind-eq-ok (or_fail (y.decode_map v) (undecodable (value k))) _ h in
      elim (Bool-cases (same (value k) name)) [
        | inl p ↦
            snapshot_from-keeps (put out (value k) f) ns name {m = f} rest
              (rw (get-put out (value k) name f, p) refl)
        | inr p ↦
            snapshot_from-keeps (put out (value k) f) ns name {m = m} rest
              (rw (get-put out (value k) name f, p) e)
      ]

  -- A name of the mapping stands in its snapshot.
  pub snapshot_from_found :
      (out : Snapshot) (ns : Nodes) (name : Text) {s : Snapshot} {entry : Node}
      → snapshot_from y out ns ≡ ok s
      → find_value ns name ≡ some entry
      → (n : Fields) × (get s name ≡ some n)
  unfolding snapshot_from find_value
  snapshot_from_found out nil name h e = cc
  snapshot_from_found out (cons k nil) name h e = cc
  snapshot_from_found out (cons k (cons v ns)) name {s} {entry} h e =
      let (f, decoded, rest) = bind-eq-ok (or_fail (y.decode_map v) (undecodable (value k))) _ h in
      elim (Bool-cases (same (value k) name)) [
        | inl p ↦
            snapshot_from-keeps (put out (value k) f) ns name {m = f} rest
              (rw (get-put out (value k) name f, p) refl)
        | inr p ↦ snapshot_from_found (put out (value k) f) ns name {entry = entry} rest (rw p at e)
      ]

  -- No name stands twice in a snapshot.
  pub snapshot_from-IsDistinct :
      (out : Snapshot) (ns : Nodes) {s : Snapshot}
      → snapshot_from y out ns ≡ ok s
      → IsDistinct (keys out)
      → IsDistinct (keys s)
  unfolding snapshot_from
  snapshot_from-IsDistinct out nil h d = subst (λ o. IsDistinct (keys o)) (ok_injective h) d
  snapshot_from-IsDistinct out (cons k nil) h d =
      subst (λ o. IsDistinct (keys o)) (ok_injective h) d
  snapshot_from-IsDistinct out (cons k (cons v ns)) h d =
      let (f, decoded, rest) = bind-eq-ok (or_fail (y.decode_map v) (undecodable (value k))) _ h in
      snapshot_from-IsDistinct (put out (value k) f) ns rest (put-IsDistinct out (value k) f d)

  stood_before :
      (username : Text) (before after : Snapshot)
      → SameBut y username before after
      → contains (keys after) username ≡ false
      → (z : Text) → contains (keys after) z ≡ true
      → contains (keys before) z ≡ true
  stood_before username before after others absent z h =
      let (m, here) = get_of_key after z h in
      elim (Option-cases (get before z)) [
        | inl gone ↦
            let entry = others z (λ e. cc (rw e at h, absent)) in absurd (rw (gone, here) at entry)
        | inr (n, there) ↦ key_of_get before z n there
      ]

  -- If every other user is as before and there are as many, a user that was there still is.
  pub still_present :
      (username : Text) (before after : Snapshot) {m : Fields}
      → IsDistinct (keys after)
      → SameBut y username before after
      → length after ≡ length before
      → get before username ≡ some m
      → (n : Fields) × (get after username ≡ some n)
  still_present username before after {m} d others as_many was =
      elim (Bool-cases (contains (keys after) username)) [
        | inl e ↦ get_of_key after username e
        | inr e ↦
            let fits =
              length-within (username ∷ keys after) (keys before) (e, d)
                (λ z h. elim (Bool-cases (same username z)) [
                  | inl p ↦
                      subst (λ t. contains (keys before) t ≡ true) ((same_iff username z).0 p)
                        (key_of_get before username m was)
                  | inr p ↦
                      stood_before username before after others e z
                        (contains_later username z (keys after) h p)
                ]) in
            absurd (omega (arith, fits, as_many, length-keys before, length-keys after))
      ]
