-- ===== src/Userstore/Mutate/Loop.antt =====
-- The loop of `mutate` in internal/userstore/userstore.go, and `mutate` as a whole.
use vps_user_portal.Text.Parts.{has_prefix, has_prefix_sound}
use vps_user_portal.Userstore.Disk.Laws.{get-touch_ne, get-sweep_stale_temps}
use vps_user_portal.Text.Maps.{get}
use vps_user_portal.Userstore.Mutate.Safety.{
  IsRound, mutate_once-IsRound, LeavesAlone, mutate_once_retry, mutate_once_failed,
}
use vps_user_portal.Userstore.Mutate.Publish.{IsProper, same-eq-false}
use vps_user_portal.Userstore.Disk.{Dir, Attempt, sweep_stale_temps, touch, lock_name, temp_prefix}
use vps_user_portal.Text.{Text}
use vps_user_portal.Base.{
  ok, err, Bool, ◌≡◌, ℕ, false, true, ◌⊎◌, ◌<◌, ◌+◌, inl, arith, ◌≤◌, inr, suc, refl, zero,
  Bool-cases, sym, ◌∙◌,
}
use vps_user_portal.Yaml.{Yaml}
use vps_user_portal.Userstore.Types.{Result, Error}
use vps_user_portal.Userstore.Mutate.{
  again, attempt_loop, Mutation, attempts, mutate_once, Circumstances, mutate,
}

pub Round-cases : (r : Result Bool) → (r ≡ ok false) ⊎ ((r ≡ ok true) ⊎ ((e : Error) × (r ≡ err e)))
Round-cases (ok false) = inl refl
Round-cases (ok true) = inr (inl refl)
Round-cases (err e) = inr (inr (e, refl))

module _ (y : Yaml) (file : Text) (m : Mutation) where
  pub again_done :
      (p : Dir × Result Bool) (more : Dir → Dir × Result (Unit {0}))
      → p.1 ≡ ok false
      → again y file m p more ≡ (p.0, ok tt)
  unfolding again
  again_done (dir, ok false) more h = refl
  again_done (dir, ok true) more h = cc
  again_done (dir, err e) more h = cc

  pub again_retry :
      (p : Dir × Result Bool) (more : Dir → Dir × Result (Unit {0}))
      → p.1 ≡ ok true
      → again y file m p more ≡ more p.0
  unfolding again
  again_retry (dir, ok false) more h = cc
  again_retry (dir, ok true) more h = refl
  again_retry (dir, err e) more h = cc

  pub again_failed :
      (p : Dir × Result Bool) (more : Dir → Dir × Result (Unit {0})) {e : Error}
      → p.1 ≡ err e
      → again y file m p more ≡ (p.0, err e)
  unfolding again
  again_failed (dir, ok false) more h = cc
  again_failed (dir, ok true) more h = cc
  again_failed (dir, err e') more h = ground arith

  -- Some round of the loop wrote the file, and the loop left the directory as that round did.
  pub record IsCommitted (around : ℕ → Attempt) (dir : Dir) : Type 0 where
    pub round : ℕ
    pub in_time : round < attempts
    pub start : Dir
    pub commit : IsRound y file m (around round) start dir

  module _ (proper : IsProper file) (around : ℕ → Attempt) where
    attempt_loop-IsCommitted :
        (left i : ℕ) (dir : Dir)
        → i + left ≤ attempts
        → (attempt_loop y file m around i left dir).1 ≡ ok tt
        → IsCommitted around (attempt_loop y file m around i left dir).0
    unfolding attempt_loop
    attempt_loop-IsCommitted zero i dir fits h = cc
    attempt_loop-IsCommitted (suc left) i dir fits h =
        let more = attempt_loop y file m around (suc i) left in
        let p = mutate_once y file m (around i) dir in
        elim (Round-cases p.1) [
          | inl e ↦ rw (again_done p more e) (record {
            round = i;
            in_time = omega arith;
            start = dir;
            commit = mutate_once-IsRound y file proper m (around i) dir e;
          })
          | inr (inl e) ↦ rw (again_retry p more e) (
              attempt_loop-IsCommitted left (suc i) p.0 (omega arith)
                (rw (again_retry p more e) at h))
          | inr (inr (e, q)) ↦ cc (rw (again_failed p more q) at h)
        ]

  module _ (proper : IsProper file) (around : ℕ → Attempt) where
    attempt_loop_failed :
        (left i : ℕ) (dir : Dir) {e : Error}
        → ((round : ℕ) → LeavesAlone file (around round))
        → (attempt_loop y file m around i left dir).1 ≡ err e
        → (get (attempt_loop y file m around i left dir).0 file ≡ get dir file)
    unfolding attempt_loop
    attempt_loop_failed zero i dir alone h = refl
    attempt_loop_failed (suc left) i dir alone h =
        let more = attempt_loop y file m around (suc i) left in
        let p = mutate_once y file m (around i) dir in
        elim (Round-cases p.1) [
          | inl e ↦ cc (rw (again_done p more e) at h)
          | inr (inl e) ↦
              let (same_dir, changed) = mutate_once_retry y file proper m (around i) dir e in
              absurd (changed ((alone i).meanwhile_keeps dir))
          | inr (inr (e, q)) ↦
              rw (again_failed p more q)
                (mutate_once_failed y file proper m (around i) dir (alone i) q)
        ]

  module _ (proper : IsProper file) (c : Circumstances) (dir : Dir) where
    -- If `mutate` succeeds, whatever other processes do around it, one of its rounds below the limit
    -- committed: it read a text, made a checked rewrite of it, found that text still in the file at
    -- its last look, kept it as the backup and put the rewrite in its place, and changed no file but
    -- these and temporary ones after that look (`IsCommitted`).
    pub mutate-IsCommitted :
        (mutate y file m c dir).1 ≡ ok tt → IsCommitted c.around (mutate y file m c dir).0
    unfolding mutate
    mutate-IsCommitted h = elim (Bool-cases c.lock_fails) [
      | inl e ↦ cc (rw e at h)
      | inr e ↦ elim (Bool-cases c.flock_fails) [
        | inl e' ↦ cc (rw (e, e') at h)
        | inr e' ↦
            rw (e, e')
              (attempt_loop-IsCommitted proper c.around attempts 0 _ (omega arith)
                (rw (e, e') at h))
      ]
    ]

    pub prepared : get (sweep_stale_temps (touch dir lock_name)) file ≡ get dir file
    prepared =
        get-sweep_stale_temps (touch dir lock_name) file
        ∙ (elim (Bool-cases (has_prefix file temp_prefix)) [
          | inl e ↦
              let (suffix, q) = has_prefix_sound file temp_prefix e in
              absurd (proper.not_temp suffix q)
          | inr e ↦
              rw e (get-touch_ne dir lock_name file (same-eq-false (λ q. proper.not_lock (sym q))))
        ])

    -- If `mutate` fails, wherever it does, and no other process writes the users file meanwhile, the
    -- users file is what it was.
    pub mutate_failed :
        {e : Error}
        → ((round : ℕ) → LeavesAlone file (c.around round))
        → (mutate y file m c dir).1 ≡ err e
        → get (mutate y file m c dir).0 file ≡ get dir file
    unfolding mutate
    mutate_failed alone h = elim (Bool-cases c.lock_fails) [
      | inl e ↦ rw e
      | inr e ↦ elim (Bool-cases c.flock_fails) [
        | inl e' ↦
            rw (e, e')
              (get-touch_ne dir lock_name file (same-eq-false (λ q. proper.not_lock (sym q))))
        | inr e' ↦
            rw (e, e')
              (attempt_loop_failed proper c.around attempts 0 _ alone (rw (e, e') at h) ∙ prepared)
      ]
    ]
