-- ===== src/Userstore/Snapshot/Untouched.antt =====
-- What `untouchedEqual` and `sameStrings` of internal/userstore/userstore.go decide.
use vps_user_portal.Text.Order.{sort, contains-sort}
use vps_user_portal.Base.{
  ok, bind-eq-ok, ◌≡◌, ◌≢◌, refl, sym, ◌∙◌, subst, ◌↔◌, ◌⊎◌, inl, inr, true, Option, none, some,
  List, [], ◌∷◌, arith, Bool-cases, Option-cases, All,
}
use vps_user_portal.Text.{Text, same, contains, All-contains, All-of_contains, same_refl, same_iff}
use vps_user_portal.Text.Maps.{get, keys, get_of_key, key_of_get}
use vps_user_portal.Yaml.{seq, other, Fields, Yaml, Values, end, item, text}
use vps_user_portal.Userstore.Snapshot.{
  Snapshot, same_marshal, check_kept, all_kept, is_known, none_new, untouched_equal, same_strings,
}

module _ (y : Yaml) where
  -- One user's entry is the same in two snapshots: absent from both, or printed alike.
  abbrev pub SameEntry : Option Fields → Option Fields → Type 0
  SameEntry none none = Unit
  SameEntry (some a) (some b) = same_marshal y a b ≡ true
  SameEntry _ _ = ⊥

  -- Every entry but one is the same.
  abbrev pub SameBut : Text → Snapshot → Snapshot → Type 0
  SameBut exempt before after =
      (name : Text) → name ≢ exempt → SameEntry (get before name) (get after name)

  module _ (before after : Snapshot) (exempt : Text) where
    abbrev Kept : Text → Type 0
    Kept name =
        (same name exempt ≡ true) ⊎ (check_kept y name (get before name) (get after name) ≡ ok tt)

    all_kept_sound :
        (names : List Text) → all_kept y before after exempt names ≡ ok tt → All Kept names
    unfolding all_kept
    all_kept_sound [] h = tt
    all_kept_sound (name ∷ names) h = elim (Bool-cases (same name exempt)) [
      | inl e ↦ (inl e, all_kept_sound names (rw e at h))
      | inr e ↦
          let (u, here, rest) =
            bind-eq-ok (check_kept y name (get before name) (get after name))
              (λ _. all_kept y before after exempt names) (rw e at h) in
          (inr here, all_kept_sound names rest)
    ]

    all_kept_complete :
        (names : List Text) → All Kept names → all_kept y before after exempt names ≡ ok tt
    unfolding all_kept
    all_kept_complete [] h = refl
    all_kept_complete (name ∷ names) h = ground (arith, all_kept_complete names h.1)

    abbrev Known : Text → Type 0
    Known name = (same name exempt ≡ true) ⊎ (is_known y (get before name) ≡ true)

    none_new_sound : (names : List Text) → none_new y before exempt names ≡ ok tt → All Known names
    unfolding none_new
    none_new_sound [] h = tt
    none_new_sound (name ∷ names) h = ground (arith, none_new_sound names)

    none_new_complete :
        (names : List Text) → All Known names → none_new y before exempt names ≡ ok tt
    unfolding none_new
    none_new_complete [] h = refl
    none_new_complete (name ∷ names) h = ground (arith, none_new_complete names h.1)

  SameEntry-of_check :
      (name : Text) (old new : Option Fields)
      → check_kept y name old new ≡ ok tt
      → SameEntry old new
  unfolding check_kept
  SameEntry-of_check name old none h = cc
  SameEntry-of_check name none (some b) h = cc
  SameEntry-of_check name (some a) (some b) h = ground arith

  check_of_SameEntry :
      (name : Text) (a : Fields) (new : Option Fields)
      → SameEntry (some a) new
      → check_kept y name (some a) new ≡ ok tt
  unfolding check_kept
  check_of_SameEntry name a none h = absurd h
  check_of_SameEntry name a (some b) h = ground arith

  module _ (before after : Snapshot) (exempt : Text) where
    SameBut_of_Known :
        (name : Text)
        → name ≢ exempt
        → All (Known before after exempt) (keys after)
        → get before name ≡ none
        → SameEntry (get before name) (get after name)
    unfolding is_known
    SameBut_of_Known name ne known e = elim (Option-cases (get after name)) [
      | inl e' ↦ rw (e, e') tt
      | inr (b, e') ↦
          elim (All-contains (Known before after exempt) _ name known
            (key_of_get after name b e')) [
              | inl p ↦ absurd (ne ((same_iff name exempt).0 p))
              | inr p ↦ cc
            ]
    ]

    SameBut-of_ok : untouched_equal y before after exempt ≡ ok tt → SameBut exempt before after
    unfolding untouched_equal
    SameBut-of_ok h name ne =
        let (u, kept, known) =
          bind-eq-ok (all_kept y before after exempt (sort (keys before)))
            (λ _. none_new y before exempt (keys after)) h in
        elim (Option-cases (get before name)) [
          | inl e ↦
              SameBut_of_Known name ne (none_new_sound before after exempt (keys after) known) e
          | inr (a, e) ↦
              elim (All-contains (Kept before after exempt) _ name
                (all_kept_sound before after exempt _ kept)
                (contains-sort name (keys before) ∙ key_of_get before name a e)) [
                  | inl p ↦ absurd (ne ((same_iff name exempt).0 p))
                  | inr p ↦ SameEntry-of_check name _ _ p
                ]
        ]

    Kept-of_SameBut :
        SameBut exempt before after
        → (name : Text) → contains (sort (keys before)) name ≡ true
        → Kept before after exempt name
    Kept-of_SameBut h name e = elim (Bool-cases (same name exempt)) [
      | inl p ↦ inl p
      | inr p ↦
          let (a, e') = get_of_key before name (sym (contains-sort name (keys before)) ∙ e) in
          let entry = h name (λ q. cc ((same_iff name exempt).1 q, p)) in
          inr (rw e' (check_of_SameEntry name a _ (rw e' at entry)))
    ]

    Known-of_SameBut :
        SameBut exempt before after
        → (name : Text) → contains (keys after) name ≡ true
        → Known before after exempt name
    unfolding is_known
    Known-of_SameBut h name e = elim (Bool-cases (same name exempt)) [
      | inl p ↦ inl p
      | inr p ↦
          let (b, e') = get_of_key after name e in
          let entry = h name (λ q. cc ((same_iff name exempt).1 q, p)) in
          elim (Option-cases (get before name)) [
            | inl none_e ↦ absurd (rw (none_e, e') at entry)
            | inr (a, some_e) ↦ inr (rw some_e)
          ]
    ]

    -- The check passes exactly when every entry but the exempt one is the same in both snapshots.
    pub untouched_equal_iff :
        (untouched_equal y before after exempt ≡ ok tt) ↔ SameBut exempt before after
    unfolding untouched_equal
    untouched_equal_iff = (
      SameBut-of_ok,
      λ h.
          rw
            (all_kept_complete before after exempt _
              (All-of_contains (Kept before after exempt) _ (Kept-of_SameBut h)))
            (none_new_complete before after exempt _
              (All-of_contains (Known before after exempt) _ (Known-of_SameBut h))),
    )

-- The values that are the strings of a list.
abbrev pub texts : List Text → Values
texts [] = end
texts (s ∷ ss) = item (text s) (texts ss)

same_strings_sound :
    (got : Values) (want : List Text) → same_strings got want ≡ true → got ≡ texts want
unfolding same_strings
same_strings_sound end [] h = refl
same_strings_sound end (w ∷ want) h = cc
same_strings_sound (item g got) [] h = cc
same_strings_sound (item (text s) got) (w ∷ want) h =
    ground (arith, same_iff s w, same_strings_sound got want)
same_strings_sound (item (seq vs) got) (w ∷ want) h = cc
same_strings_sound (item (other t) got) (w ∷ want) h = cc

same_strings-texts : (want : List Text) → same_strings (texts want) want ≡ true
unfolding same_strings
same_strings-texts [] = refl
same_strings-texts (w ∷ want) = ground (arith, same_refl w, same_strings-texts want)

-- A decoded list passes exactly when it is these strings and nothing else.
pub same_strings_iff :
    (got : Values) (want : List Text) → (same_strings got want ≡ true) ↔ (got ≡ texts want)
same_strings_iff got want = (
  same_strings_sound got want,
  λ e. subst (λ g. same_strings g want ≡ true) (sym e) (same_strings-texts want),
)
