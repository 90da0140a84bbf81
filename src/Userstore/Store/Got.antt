-- ===== src/Userstore/Store/Got.antt =====
-- `Get` of internal/userstore/userstore.go after a successful `SetGroups`.
use vps_user_portal.Userstore.Mutate.Safety.{LeavesAlone}
use vps_user_portal.Userstore.Mutate.{Circumstances}
use vps_user_portal.Userstore.Store.Refined.{perform, perform_done, set_groups_op}
use vps_user_portal.Userstore.Store.Listing.{IsFaithful}
use vps_user_portal.Userstore.Disk.{Dir}
use vps_user_portal.Userstore.Mutate.Publish.{IsProper}
use vps_user_portal.Text.Case.{Unicode}
use vps_user_portal.Yaml.{Yaml}
use vps_user_portal.Userstore.Store.{first_named, get_user, list_users, set_groups}
use vps_user_portal.Userstore.Store.Regrouped.{cleared, cleared_here, cleared_later}
use vps_user_portal.Userstore.Store.Keeping.{shown_groups, IsKeeping}
use vps_user_portal.Userstore.Types.{User}
use vps_user_portal.Text.{Text, same}
use vps_user_portal.Base.{
  List, All, ◌∷◌, [], ◌≡◌, ◌⊎◌, inl, inr, true, false, ok, refl, Bool-cases, subst, sym,
  ok_injective, ◌∙◌, ap, ℕ,
}

-- Exactly one user has the name.
abbrev pub IsOnce : Text → List User → Type 0
IsOnce username [] = ⊥
IsOnce username (u ∷ us) =
    ((same u.username username ≡ true) × All (λ v. same v.username username ≡ false) us)
    ⊎ ((same u.username username ≡ false) × IsOnce username us)

-- A user but for the groups
abbrev bare : User → User
bare u = record u { groups = [] }

abbrev regrouped_user : User → List Text → User
regrouped_user u groups = record u { groups = groups }

shown_groups-others :
    (username : Text) (otherwise : List Text) (us : List User)
    → All (λ v. same v.username username ≡ false) us
    → shown_groups username otherwise us ≡ otherwise
unfolding shown_groups
shown_groups-others username otherwise [] h = refl
shown_groups-others username otherwise (u ∷ us) h =
    rw h.0 (shown_groups-others username otherwise us h.1)

IsOnce-later :
    (username : Text) (u : User) (us vs : List User)
    → same u.username username ≡ false
    → (IsOnce username us → IsOnce username vs)
    → IsOnce username (u ∷ us)
    → IsOnce username (u ∷ vs)
IsOnce-later username u us vs e f (inl (e', others)) = cc
IsOnce-later username u us vs e f (inr (e', once)) = inr (e', f once)

IsOnce-cleared :
    (username : Text) (us : List User)
    → (IsOnce username us → IsOnce username (cleared username us))
      × (IsOnce username (cleared username us) → IsOnce username us)
unfolding cleared
IsOnce-cleared username [] = (λ h. h, λ h. h)
IsOnce-cleared username (u ∷ us) = elim (Bool-cases (same u.username username)) [
  | inl e ↦
      subst
        (λ vs.
          (IsOnce username (u ∷ us) → IsOnce username vs)
          × (IsOnce username vs → IsOnce username (u ∷ us)))
        (sym (cleared_here username u us e)) (λ h. h, λ h. h)
  | inr e ↦
      let both = IsOnce-cleared username us in
      subst
        (λ vs.
          (IsOnce username (u ∷ us) → IsOnce username vs)
          × (IsOnce username vs → IsOnce username (u ∷ us)))
        (sym (cleared_later username u us e))
        (
          IsOnce-later username u us (cleared username us) e both.0,
          IsOnce-later username u (cleared username us) us e both.1,
        )
]

module _ (y : Yaml) (file : Text) (username : Text) where
  first_named-IsOnce :
      (us : List User)
      → IsOnce username us
      → (u : User) × (first_named y file username us ≡ ok u)
        × (shown_groups username [] us ≡ u.groups)
        × (first_named y file username (cleared username us) ≡ ok (bare u))
  unfolding first_named shown_groups cleared
  first_named-IsOnce [] h = absurd h
  first_named-IsOnce (u ∷ us) (inl (e, others)) =
      (u, rw e refl, rw e (shown_groups-others username u.groups us others), rw (e, e) refl)
  first_named-IsOnce (u ∷ us) (inr (e, once)) =
      let (v, named, shown, there) = first_named-IsOnce us once in
      (v, rw e named, rw e shown, rw (e, e) there)

  -- The first of the name in two lists that are the same but for its groups
  first_named-cleared :
      (before after : List User)
      → IsOnce username before
      → cleared username after ≡ cleared username before
      → (u : User) × (first_named y file username before ≡ ok u)
        × (first_named y file username after
            ≡ ok (record u { groups = shown_groups username [] after }))
  first_named-cleared before after once e =
      let (u, named, shown, there) = first_named-IsOnce before once in
      let (v, named', shown', there') = first_named-IsOnce after (
        (IsOnce-cleared username after).1
          (subst (IsOnce username) (sym e) ((IsOnce-cleared username before).0 once))) in
      let alike : bare v ≡ bare u =
        ok_injective (sym there' ∙ (ap (first_named y file username) e ∙ there)) in
      (
        u,
        named,
        named'
            ∙ ap ok (
                ap (λ gs. record v { groups = gs }) (sym shown')
                ∙ ap (λ (w : User). regrouped_user w (shown_groups username [] after)) alike),
      )

  get_user-list :
      (dir : Dir) (us : List User)
      → list_users y file false dir ≡ ok us
      → get_user y file false dir username ≡ first_named y file username us
  unfolding get_user
  get_user-list dir us h = rw h

module _ ⦃unicode : Unicode⦄ (y : Yaml) (file : Text) (proper : IsProper file)
    (faithful : IsFaithful y) (keeping : IsKeeping y) where
  -- With a YAML library that reads back what it writes, keeps of an entry what is not replaced, and
  -- reads groups alike in both ways, and no other process that writes the users file: where exactly
  -- one user has the name, `Get` after a successful `SetGroups` gives that user with the groups
  -- asked for, and all else as `Get` gave it before.
  pub get_user-set_groups :
      (username : Text) (groups : List Text) (c : Circumstances) (dir : Dir) (before : List User)
      → ((round : ℕ) → LeavesAlone file (c.around round))
      → list_users y file false dir ≡ ok before
      → IsOnce username before
      → (set_groups y file username groups c dir).1 ≡ ok tt
      → (u : User) × (get_user y file false dir username ≡ ok u)
        × (get_user y file false (set_groups y file username groups c dir).0 username
            ≡ ok (record u { groups = groups }))
  unfolding perform
  get_user-set_groups username groups c dir before alone there once h =
      let (after, shown, change) =
        perform_done y file proper faithful keeping (set_groups_op username groups) c dir before
          alone there h in
      let (u, named, named') = first_named-cleared y file username before after once change.0 in
      (
        u,
        get_user-list y file username dir before there ∙ named,
        get_user-list y file username _ after shown
            ∙ (named' ∙ ap (λ (gs : List Text). ok (regrouped_user u gs)) change.1),
      )
