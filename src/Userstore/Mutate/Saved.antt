-- ===== src/Userstore/Mutate/Saved.antt =====
-- The backup that a successful `mutate` of internal/userstore/userstore.go leaves, when no other
-- process writes.
use vps_user_portal.Userstore.Mutate.Loop.{Round-cases, again_done, prepared, again_failed}
use vps_user_portal.Text.Maps.{get}
use vps_user_portal.Userstore.Mutate.Safety.{LeavesAlone, mutate_once-IsRound, mutate_once_retry}
use vps_user_portal.Userstore.Disk.{Attempt, Dir, backup_name}
use vps_user_portal.Base.{ℕ, ◌≡◌, ok, suc, Bool-cases, inl, inr, ◌∙◌, sym, zero}
use vps_user_portal.Userstore.Mutate.Publish.{IsProper}
use vps_user_portal.Userstore.Mutate.{
  Mutation, attempt_loop, mutate, Circumstances, mutate_once, attempts,
}
use vps_user_portal.Text.{Text}
use vps_user_portal.Yaml.{Yaml}

module _ (y : Yaml) (file : Text) (m : Mutation) (proper : IsProper file) where
  attempt_loop_saved :
      (around : ℕ → Attempt) (left i : ℕ) (dir : Dir)
      → ((round : ℕ) → LeavesAlone file (around round))
      → (attempt_loop y file m around i left dir).1 ≡ ok tt
      → get (attempt_loop y file m around i left dir).0 (backup_name file) ≡ get dir file
  unfolding attempt_loop
  attempt_loop_saved around zero i dir alone h = cc
  attempt_loop_saved around (suc left) i dir alone h =
      let more = attempt_loop y file m around (suc i) left in
      let p = mutate_once y file m (around i) dir in
      elim (Round-cases p.1) [
        | inl e ↦
            let round = mutate_once-IsRound y file proper m (around i) dir e in
            rw (again_done y file m p more e) (round.published.saved ∙ sym round.first_read)
        | inr (inl e) ↦
            let (same_dir, changed) = mutate_once_retry y file proper m (around i) dir e in
            absurd (changed ((alone i).meanwhile_keeps dir))
        | inr (inr (e, q)) ↦ cc (rw (again_failed y file m p more q) at h)
      ]

  -- If `mutate` succeeds, and no other process writes the users file meanwhile, the backup is the file
  -- that it was given.
  pub mutate_saved :
      (c : Circumstances) (dir : Dir)
      → ((round : ℕ) → LeavesAlone file (c.around round))
      → (mutate y file m c dir).1 ≡ ok tt
      → get (mutate y file m c dir).0 (backup_name file) ≡ get dir file
  unfolding mutate
  mutate_saved c dir alone h = elim (Bool-cases c.lock_fails) [
    | inl e ↦ cc (rw e at h)
    | inr e ↦ elim (Bool-cases c.flock_fails) [
      | inl e' ↦ cc (rw (e, e') at h)
      | inr e' ↦
          rw (e, e')
            (attempt_loop_saved c.around attempts 0 _ alone (rw (e, e') at h)
              ∙ prepared y file m proper c dir)
    ]
  ]
