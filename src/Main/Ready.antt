-- ===== src/Main/Ready.antt =====
-- What holds when main.go starts to serve.
use vps_user_portal.Userstore.Types.{User}
use vps_user_portal.Server.Health.{
  IsPassing, handle_healthz, healthy, run_checks, handle_healthz_iff,
}
use vps_user_portal.Provision.Unique.{names, load_entries-IsDistinct}
use vps_user_portal.Text.Distinct.{IsDistinct}
use vps_user_portal.Userstore.Store.{list_users}
use vps_user_portal.Config.{load_config}
use vps_user_portal.Base.{
  ◌≡◌, List, ok, false, map, Outcome, Bool-cases, is_empty, bind-eq-ok, ap, inl, Option, err,
  ok_injective, subst, inr, some, refl, none,
}
use vps_user_portal.Text.{Text}
use vps_user_portal.Config.Laws.{IsUsable, load_config-IsUsable}
use vps_user_portal.Provision.{load, Provisioner, as_error, load_entries}
use vps_user_portal.Main.{
  Outside, Portal, prepare, new_portal, checked_start, check_prepared, start_portal, Exit,
  config_invalid, users_unreadable, provisioners_invalid,
}
use vps_user_portal.Text.Case.{Unicode}

module _ ⦃unicode : Unicode⦄ {S E F N : Type 0} (out : Outside S E F N) where
  -- The configuration is sound, the users file can be listed, and the provisioners are those that
  -- `Load` makes of the file of the configuration; they have names of their own and pass their checks.
  pub record IsServing (s : S) (p : Portal S E) : Type 0 where
    pub usable : IsUsable p.server.config
    pub loaded : load_config out.getenv ≡ ok p.server.config
    pub users : List User
    pub listed :
        list_users out.yaml p.server.file false (out.locate p.server.config.users_file).0 ≡ ok users
    pub made : List (Text × Provisioner S E)
    pub provisioned :
        load out.factories out.read out.expand out.entries p.server.config.provisioners_file
        ≡ ok made
    pub distinct : IsDistinct (names made)
    pub all_made : p.server.provs ≡ map (λ x. x.1) made
    pub passing : IsPassing p.server.provs s

  as_error-eq-ok :
      {A : Type 0} {G H : Type 0} (f : G → H) (r : Outcome G A) {a : A}
      → as_error f r ≡ ok a
      → r ≡ ok a
  as_error-eq-ok f (ok b) h = ap ok (ok_injective h)
  as_error-eq-ok f (err e) h = cc

  load-IsDistinct :
      (path : Text) {made : List (Text × Provisioner S E)}
      → load out.factories out.read out.expand out.entries path ≡ ok made
      → IsDistinct (names made)
  unfolding load
  load-IsDistinct path h = elim (Bool-cases (is_empty path)) [
    | inl none_given ↦ subst (λ m. IsDistinct (names m)) (ok_injective (rw none_given at h)) tt
    | inr given ↦
        let (b, was_read, h1) = bind-eq-ok (as_error inl (out.read path)) _ (rw given at h) in
        let (es, parsed_all, h2) = bind-eq-ok (as_error inl (out.entries (out.expand b))) _ h1 in
        (load_entries-IsDistinct out.factories es
          (as_error-eq-ok inr (load_entries out.factories es) h2)).0
  ]

  abbrev IsPrepared : Portal S E → Type 0
  IsPrepared p =
      (made : List (Text × Provisioner S E)) × (users : List User) × (load_config out.getenv
        ≡ ok p.server.config)
      × (list_users out.yaml p.server.file false (out.locate p.server.config.users_file).0
          ≡ ok users)
      × (load out.factories out.read out.expand out.entries p.server.config.provisioners_file
          ≡ ok made)
      × IsDistinct (names made)
      × (p.server.provs ≡ map (λ x. x.1) made)

  prepare-IsPrepared : {p : Portal S E} → prepare out ≡ ok p → IsPrepared p
  unfolding prepare new_portal
  prepare-IsPrepared {p} h =
      let (cfg, loaded, h1) = bind-eq-ok (as_error config_invalid (load_config out.getenv)) _ h in
      let (users, listed, h2) =
        bind-eq-ok
          (as_error users_unreadable
            (list_users out.yaml (out.locate cfg.users_file).1 false (out.locate cfg.users_file).0))
          _ h1 in
      let (made, provisioned, h3) =
        bind-eq-ok
          (as_error provisioners_invalid
            (load out.factories out.read out.expand out.entries cfg.provisioners_file))
          _ h2 in
      let loaded_provs = as_error-eq-ok provisioners_invalid _ provisioned in
      subst IsPrepared (ok_injective h3) (
        made,
        users,
        as_error-eq-ok config_invalid (load_config out.getenv) loaded,
        as_error-eq-ok users_unreadable _ listed,
        loaded_provs,
        load-IsDistinct cfg.provisioners_file loaded_provs,
        refl,
      )

  checked_sound :
      (portal : Portal S E) (after : S × Option (Text × E)) {p : Portal S E}
      → (checked_start out portal after).1 ≡ ok p
      → (portal ≡ p) × (handle_healthz after.1 ≡ healthy)
  unfolding checked_start handle_healthz
  checked_sound portal (s, none) h = (ok_injective h, refl)
  checked_sound portal (s, some e) h = cc

  check_prepared-IsServing :
      (prepared : Outcome (Exit F E) (Portal S E)) (s : S) {p : Portal S E}
      → ((q : Portal S E) → prepared ≡ ok q → IsPrepared q)
      → (check_prepared out prepared s).1 ≡ ok p
      → IsServing s p
  unfolding check_prepared
  check_prepared-IsServing (err e) s sound h = cc
  check_prepared-IsServing (ok portal) s sound h =
      let (same_portal, fine) = checked_sound portal (run_checks portal.server.provs s) h in
      let (made, users, loaded, listed, provisioned, distinct, all_made) = sound portal refl in
      subst (IsServing s) same_portal (record {
        usable = load_config-IsUsable out.getenv loaded;
        loaded = loaded;
        users = users;
        listed = listed;
        made = made;
        provisioned = provisioned;
        distinct = distinct;
        all_made = all_made;
        passing = (handle_healthz_iff portal.server.provs s).0 fine;
      })

  -- The portal serves only with a configuration that loads and is sound, a users file that can be
  -- listed, the provisioners that Load makes of the file that the configuration names, which have
  -- names of their own, and the check of each passed.
  pub start_portal-IsServing :
      (s : S) {p : Portal S E} → (start_portal out s).1 ≡ ok p → IsServing s p
  unfolding start_portal
  start_portal-IsServing s h =
      check_prepared-IsServing (prepare out) s (λ q e. prepare-IsPrepared {p = q} e) h
