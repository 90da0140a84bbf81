-- ===== src/Userstore/Mutate/Safety.antt =====
-- What `mutate` of internal/userstore/userstore.go guarantees on every way out.
use vps_user_portal.Userstore.Mutate.Rewrite.{IsRewrite, rewrite-IsRewrite}
use vps_user_portal.Text.Maps.{get}
use vps_user_portal.Userstore.Types.{Result, Error}
use vps_user_portal.Base.{
  ok, err, Option, ◌≡◌, Bool, some, false, Bool-cases, true, ◌≢◌, inl, ap, refl, inr, ◌∙◌, none,
  arith,
}
use vps_user_portal.Userstore.Mutate.Publish.{
  IsProper, IsPublished, write_backup-IsPublished, write_backup_failed, write_backup-ne-retry,
}
use vps_user_portal.Userstore.Disk.{Attempt, Dir, read_file}
use vps_user_portal.Yaml.{Yaml}
use vps_user_portal.Text.{Text, same, same_iff}
use vps_user_portal.Userstore.Mutate.{
  replace_if_unchanged, publish, Mutation, edit_original, mutate_once, rewrite,
}

-- What the environment does leaves the users file as it is.
pub record LeavesAlone (file : Text) (a : Attempt) : Type 0 where
  pub meanwhile_keeps : (d : Dir) → get (a.meanwhile d) file ≡ get d file
  pub late_keeps : (d : Dir) → get (a.late d) file ≡ get d file

read_file-eq-some :
    (file : Text) (fails : Bool) (dir : Dir) {bytes : Text}
    → read_file fails dir file ≡ some bytes
    → get dir file ≡ some bytes
unfolding read_file
read_file-eq-some file true dir h = cc
read_file-eq-some file false dir h = h

module _ (file : Text) (proper : IsProper file) (original : Text) where
  replace-IsPublished :
      (out : Text) (current : Option Text) (a : Attempt) (dir : Dir)
      → (replace_if_unchanged file original out current a dir).1 ≡ ok false
      → (current ≡ some original)
        × IsPublished file original out
            (a.late dir)
            (replace_if_unchanged file original out current a dir).0
  unfolding replace_if_unchanged
  replace-IsPublished out none a dir h = cc
  replace-IsPublished out (some current) a dir h = elim (Bool-cases (same current original)) [
    | inl e ↦ (
      ap some ((same_iff current original).0 e),
      rw e (
          write_backup-IsPublished file proper original out a.backup_tears a (a.late dir)
            (rw e at h)),
    )
    | inr e ↦ cc (rw e at h)
  ]

  replace_failed :
      (out : Text) (current : Option Text) (a : Attempt) (dir : Dir) {e : Error}
      → LeavesAlone file a
      → (replace_if_unchanged file original out current a dir).1 ≡ err e
      → get (replace_if_unchanged file original out current a dir).0 file ≡ get dir file
  unfolding replace_if_unchanged
  replace_failed out none a dir alone h = refl
  replace_failed out (some current) a dir alone h = elim (Bool-cases (same current original)) [
    | inl e ↦ rw e (
        write_backup_failed file proper original out a.backup_tears a (a.late dir) (rw e at h)
        ∙ alone.late_keeps dir)
    | inr e ↦ cc (rw e at h)
  ]

  replace_retry :
      (out : Text) (current : Option Text) (a : Attempt) (dir : Dir)
      → (replace_if_unchanged file original out current a dir).1 ≡ ok true
      → (current ≢ some original) × ((replace_if_unchanged file original out current a dir).0 ≡ dir)
  unfolding replace_if_unchanged
  replace_retry out none a dir h = cc
  replace_retry out (some current) a dir h = elim (Bool-cases (same current original)) [
    | inl e ↦
        absurd
          (write_backup-ne-retry file proper original out a.backup_tears a (a.late dir) (rw e at h))
    | inr e ↦ (λ p. cc ((same_iff current original).1 (ground arith), e), rw e)
  ]

  retry_changed :
      (out : Text) (fails : Bool) (a : Attempt) (dir : Dir)
      → (replace_if_unchanged file original out (read_file fails dir file) a dir).1 ≡ ok true
      → read_file fails dir file ≢ some original
      → get dir file ≢ some original
  unfolding read_file replace_if_unchanged
  retry_changed out true a dir h changed = cc
  retry_changed out false a dir h changed = changed

  publish-IsPublished :
      (r : Result Text) (a : Attempt) (dir : Dir)
      → (publish file original r a dir).1 ≡ ok false
      → (out : Text) × (r ≡ ok out)
        × (get dir file ≡ some original)
        × IsPublished file original out (a.late dir) (publish file original r a dir).0
  unfolding publish
  publish-IsPublished (err e) a dir h = cc
  publish-IsPublished (ok out) a dir h =
      let (there, done) = replace-IsPublished out (read_file a.reread_fails dir file) a dir h in
      (out, refl, read_file-eq-some file a.reread_fails dir there, done)

  publish_failed :
      (r : Result Text) (a : Attempt) (dir : Dir) {e : Error}
      → LeavesAlone file a
      → (publish file original r a dir).1 ≡ err e
      → get (publish file original r a dir).0 file ≡ get dir file
  unfolding publish
  publish_failed (err e') a dir alone h = refl
  publish_failed (ok out) a dir alone h =
      replace_failed out (read_file a.reread_fails dir file) a dir alone h

  publish_retry :
      (r : Result Text) (a : Attempt) (dir : Dir)
      → (publish file original r a dir).1 ≡ ok true
      → ((publish file original r a dir).0 ≡ dir) × (get dir file ≢ some original)
  unfolding publish
  publish_retry (err e) a dir h = cc
  publish_retry (ok out) a dir h =
      let (changed, same_dir) = replace_retry out (read_file a.reread_fails dir file) a dir h in
      (same_dir, retry_changed out a.reread_fails a dir h changed)

module _ (y : Yaml) (file : Text) (m : Mutation) where
  -- A round that wrote the file: what it read was still there at the last look, the new text is a
  -- checked rewrite of it, and the directory is the one of that look with the two files written.
  pub record IsRound (a : Attempt) (start dir : Dir) : Type 0 where
    pub original : Text
    pub out : Text
    pub first_read : get start file ≡ some original
    pub last_read : get (a.meanwhile start) file ≡ some original
    pub rewritten : IsRewrite y m original out
    pub published : IsPublished file original out (a.late (a.meanwhile start)) dir

module _ (y : Yaml) (file : Text) (proper : IsProper file) (m : Mutation) where
  edit_original-IsRound :
      (o : Option Text) (a : Attempt) (start : Dir)
      → ((bytes : Text) → o ≡ some bytes → get start file ≡ some bytes)
      → (edit_original y file m o a start).1 ≡ ok false
      → IsRound y file m a start (edit_original y file m o a start).0
  unfolding edit_original
  edit_original-IsRound none a start there h = cc
  edit_original-IsRound (some original) a start there h =
      let (out, made, last, published) =
        publish-IsPublished file proper original (rewrite y m original) a (a.meanwhile start) h in
      record {
        original = original;
        out = out;
        first_read = there original refl;
        last_read = last;
        rewritten = rewrite-IsRewrite y m made;
        published = published;
      }

  edit_original_failed :
      (o : Option Text) (a : Attempt) (start : Dir) {e : Error}
      → LeavesAlone file a
      → (edit_original y file m o a start).1 ≡ err e
      → get (edit_original y file m o a start).0 file ≡ get start file
  unfolding edit_original
  edit_original_failed none a start alone h = refl
  edit_original_failed (some original) a start alone h =
      publish_failed file proper original (rewrite y m original) a (a.meanwhile start) alone h
      ∙ alone.meanwhile_keeps start

  edit_original_retry :
      (o : Option Text) (a : Attempt) (start : Dir)
      → ((bytes : Text) → o ≡ some bytes → get start file ≡ some bytes)
      → (edit_original y file m o a start).1 ≡ ok true
      → ((edit_original y file m o a start).0 ≡ a.meanwhile start)
        × (get (a.meanwhile start) file ≢ get start file)
  unfolding edit_original
  edit_original_retry none a start there h = cc
  edit_original_retry (some original) a start there h =
      let (same_dir, changed) =
        publish_retry file proper original (rewrite y m original) a (a.meanwhile start) h in
      (same_dir, λ e. changed (e ∙ there original refl))

  pub mutate_once-IsRound :
      (a : Attempt) (start : Dir)
      → (mutate_once y file m a start).1 ≡ ok false
      → IsRound y file m a start (mutate_once y file m a start).0
  unfolding mutate_once
  mutate_once-IsRound a start h =
      edit_original-IsRound (read_file a.read_fails start file) a start
        (λ bytes e. read_file-eq-some file a.read_fails start e) h

  pub mutate_once_failed :
      (a : Attempt) (start : Dir) {e : Error}
      → LeavesAlone file a
      → (mutate_once y file m a start).1 ≡ err e
      → get (mutate_once y file m a start).0 file ≡ get start file
  unfolding mutate_once
  mutate_once_failed a start alone h =
      edit_original_failed (read_file a.read_fails start file) a start alone h

  -- Another round is asked for only if the file is no longer what was read.
  pub mutate_once_retry :
      (a : Attempt) (start : Dir)
      → (mutate_once y file m a start).1 ≡ ok true
      → ((mutate_once y file m a start).0 ≡ a.meanwhile start)
        × (get (a.meanwhile start) file ≢ get start file)
  unfolding mutate_once
  mutate_once_retry a start h =
      edit_original_retry (read_file a.read_fails start file) a start
        (λ bytes e. read_file-eq-some file a.read_fails start e) h
