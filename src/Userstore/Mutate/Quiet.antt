-- ===== src/Userstore/Mutate/Quiet.antt =====
-- `mutate` of internal/userstore/userstore.go when nothing fails and no other process writes the users
-- file: it does exactly what its pure part says.
use vps_user_portal.Userstore.Disk.Laws.{read_file-eq-get}
use vps_user_portal.Userstore.Mutate.Loop.{again_failed, again_done, prepared}
use vps_user_portal.Userstore.Mutate.Publish.{IsProper}
use vps_user_portal.Text.Maps.{get}
use vps_user_portal.Userstore.Types.{Result, read_failed}
use vps_user_portal.Base.{
  ok, ◌>>=◌, or_fail, err, ◌≡◌, Option, false, some, none, Bool, ◌∙◌, refl, ap,
}
use vps_user_portal.Userstore.Disk.{Attempt, Dir, completes, sweep_stale_temps, touch, lock_name}
use vps_user_portal.Yaml.{Yaml}
use vps_user_portal.Text.{Text, same_refl}
use vps_user_portal.Userstore.Mutate.{
  finish_temp, write_temp, write_backup, replace_if_unchanged, publish, edit_original, mutate_once,
  attempt_loop, mutate, Circumstances, Mutation, rewrite, again,
}

-- A round in which every system call succeeds and nobody else writes the file.
pub record IsQuiet (file : Text) (a : Attempt) : Type 0 where
  pub reads : a.read_fails ≡ false
  pub rereads : a.reread_fails ≡ false
  pub meanwhile_keeps : (d : Dir) → get (a.meanwhile d) file ≡ get d file
  pub backs_up : a.backup_tears ≡ none
  pub suffix : Text
  pub makes_temp : a.temp_suffix ≡ some suffix
  pub finishes : a.finish ≡ completes

-- The lock is taken, and the first round is quiet.
pub record IsCalm (file : Text) (c : Circumstances) : Type 0 where
  pub locks : c.lock_fails ≡ false
  pub flocks : c.flock_fails ≡ false
  pub first : IsQuiet file (c.around 0)

module _ (file original : Text) (a : Attempt) (calm : IsQuiet file a) where
  write_backup-quiet :
      (out : Text) (dir : Dir) → (write_backup file original out a.backup_tears a dir).1 ≡ ok false
  unfolding write_backup write_temp finish_temp
  write_backup-quiet out dir = rw (calm.backs_up, calm.makes_temp, calm.finishes)

  replace-quiet :
      (out : Text) (dir : Dir)
      → (replace_if_unchanged file original out (some original) a dir).1 ≡ ok false
  unfolding replace_if_unchanged
  replace-quiet out dir = rw (same_refl original) (write_backup-quiet out (a.late dir))

  publish-quiet :
      (r : Result Text) (dir : Dir)
      → get dir file ≡ some original
      → (publish file original r a dir).1 ≡ (r >>= λ out. ok false)
  unfolding publish
  publish-quiet (err e) dir h = refl
  publish-quiet (ok out) dir h =
      rw (read_file-eq-get a.reread_fails dir file calm.rereads, h) (replace-quiet out dir)

module _ (y : Yaml) (file : Text) (m : Mutation) where
  -- The pure part: read, rewrite.
  abbrev pub verdict : Option Text → Result (Unit {0})
  verdict content =
      or_fail content read_failed >>= λ original. rewrite y m original >>= λ out. ok tt

  abbrev round_verdict : Option Text → Result Bool
  round_verdict content =
      or_fail content read_failed >>= λ original. rewrite y m original >>= λ out. ok false

  edit_original-quiet :
      (o : Option Text) (a : Attempt) (dir : Dir)
      → IsQuiet file a
      → get dir file ≡ o
      → (edit_original y file m o a dir).1 ≡ round_verdict o
  unfolding edit_original
  edit_original-quiet none a dir calm h = refl
  edit_original-quiet (some original) a dir calm h =
      publish-quiet file original a calm (rewrite y m original) (a.meanwhile dir)
        (calm.meanwhile_keeps dir ∙ h)

  mutate_once-quiet :
      (a : Attempt) (dir : Dir)
      → IsQuiet file a
      → (mutate_once y file m a dir).1 ≡ round_verdict (get dir file)
  unfolding mutate_once
  mutate_once-quiet a dir calm =
      rw (read_file-eq-get a.read_fails dir file calm.reads)
        (edit_original-quiet (get dir file) a dir calm refl)

  again-rewrite :
      (r : Result Text) (p : Dir × Result Bool) (more : Dir → Dir × Result (Unit {0}))
      → p.1 ≡ (r >>= λ out. ok false)
      → (again y file m p more).1 ≡ (r >>= λ out. ok tt)
  again-rewrite (ok out) p more h = rw (again_done y file m p more h)
  again-rewrite (err e) p more h = rw (again_failed y file m p more h)

  again-verdict :
      (o : Option Text) (p : Dir × Result Bool) (more : Dir → Dir × Result (Unit {0}))
      → p.1 ≡ round_verdict o
      → (again y file m p more).1 ≡ verdict o
  again-verdict none p more h = rw (again_failed y file m p more h)
  again-verdict (some original) p more h = again-rewrite (rewrite y m original) p more h

  -- If the lock is taken and no system call of the first round fails nor another process writes the
  -- file in it, `mutate` returns in that round: its result is that of the pure part, an error exactly
  -- if the file cannot be read or `rewrite` refuses its text.
  pub mutate-eq-verdict :
      (c : Circumstances) (dir : Dir)
      → IsProper file
      → IsCalm file c
      → (mutate y file m c dir).1 ≡ verdict (get dir file)
  unfolding mutate attempt_loop
  mutate-eq-verdict c dir proper calm =
      let ready = sweep_stale_temps (touch dir lock_name) in
      rw (calm.locks, calm.flocks)
        (again-verdict (get dir file) (mutate_once y file m (c.around 0) ready)
          (attempt_loop y file m c.around 1 3)
          (mutate_once-quiet (c.around 0) ready calm.first
            ∙ ap round_verdict (prepared y file m proper c dir)))
