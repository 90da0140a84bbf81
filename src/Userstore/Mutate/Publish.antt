-- ===== src/Userstore/Mutate/Publish.antt =====
-- What the disk holds after one attempt of `mutateOnce`.
use vps_user_portal.Userstore.Types.{Error}
use vps_user_portal.Text.Maps.{get, put, get-remove, get-put}
use vps_user_portal.Base.{
  ok, err, [], ◌++◌, ◌≡◌, ◌∷◌, false, some, arith, Bool-cases, inl, inr, sym, none, Option, true,
}
use vps_user_portal.Userstore.Disk.{
  backup_name, Dir, Finish, temp_prefix, lock_name, write_tears, completes, sync_fails, close_fails,
  rename_fails, Attempt,
}
use vps_user_portal.Text.{Text, lit, same, same_iff, same_refl}
use vps_user_portal.Userstore.Mutate.{finish_temp, ◌≢◌, write_temp, write_backup}

-- A name that the portal does not use for a file of its own.
pub record IsProper (file : Text) : Type 0 where
  pub not_temp : (suffix : Text) → file ≢ temp_prefix ++ suffix
  pub backup_not_temp : (suffix : Text) → backup_name file ≢ temp_prefix ++ suffix
  pub not_lock : file ≢ lock_name

append-ne_self : (s t : Text) → t ≢ [] → s ++ t ≢ s
append-ne_self [] t h e = h e
append-ne_self (c ∷ s) t h e = append-ne_self s t h (ground arith)

pub backup_name-ne : (file : Text) → backup_name file ≢ file
backup_name-ne file = append-ne_self file (lit ".bak") (cc)

pub same-eq-false : {s t : Text} → s ≢ t → same s t ≡ false
same-eq-false {s} {t} h = elim (Bool-cases (same s t)) [
  | inl e ↦ absurd (h ((same_iff s t).0 e))
  | inr e ↦ e
]

-- On success the new text stands under the name and the old one under the backup's; of the other
-- files only temporary ones can differ from what was there.
pub record IsPublished (file original out : Text) (seen dir : Dir) : Type 0 where
  pub written : get dir file ≡ some out
  pub saved : get dir (backup_name file) ≡ some original
  pub others :
      (name : Text)
      → name ≢ file
      → name ≢ backup_name file
      → ((suffix : Text) → name ≢ temp_prefix ++ suffix)
      → get dir name ≡ get seen name

module _ (file original out tmp : Text) (seen : Dir) where
  abbrev with_temp : Dir
  with_temp = put (put seen (backup_name file) original) tmp []

  finish_temp-IsPublished :
      (finish : Finish)
      → same tmp file ≡ false
      → same tmp (backup_name file) ≡ false
      → ((name : Text) → ((suffix : Text) → name ≢ temp_prefix ++ suffix) → same tmp name ≡ false)
      → (finish_temp file tmp out finish with_temp).1 ≡ ok false
      → IsPublished file original out seen (finish_temp file tmp out finish with_temp).0
  unfolding finish_temp
  finish_temp-IsPublished completes not_file not_backup not_name h = record {
    written = simp (get-remove, get-put, not_file, same_refl);
    saved = simp (
      get-remove,
      get-put,
      not_backup,
      same-eq-false (λ e. backup_name-ne file (sym e)),
      same_refl,
    );
    others = λ name nf nb nt. simp (
      get-remove,
      get-put,
      not_name name nt,
      same-eq-false (λ e. nf (sym e)),
      same-eq-false (λ e. nb (sym e)),
    );
  }
  finish_temp-IsPublished (write_tears bytes) _ _ _ h = cc
  finish_temp-IsPublished sync_fails _ _ _ h = cc
  finish_temp-IsPublished close_fails _ _ _ h = cc
  finish_temp-IsPublished rename_fails _ _ _ h = cc

  -- On every other way out, neither the users file nor the new backup is touched.
  finish_temp_failed :
      (finish : Finish) {e : Error}
      → same tmp file ≡ false
      → (finish_temp file tmp out finish with_temp).1 ≡ err e
      → get (finish_temp file tmp out finish with_temp).0 file ≡ get seen file
  unfolding finish_temp
  finish_temp_failed completes not_file h = cc
  finish_temp_failed (write_tears bytes) not_file h =
      simp (get-remove, get-put, not_file, same-eq-false (backup_name-ne file))
  finish_temp_failed sync_fails not_file h =
      simp (get-remove, get-put, not_file, same-eq-false (backup_name-ne file))
  finish_temp_failed close_fails not_file h =
      simp (get-remove, get-put, not_file, same-eq-false (backup_name-ne file))
  finish_temp_failed rename_fails not_file h =
      simp (get-remove, get-put, not_file, same-eq-false (backup_name-ne file))

  -- No way out leaves the temporary file behind.
  finish_temp_removed :
      (finish : Finish) → get (finish_temp file tmp out finish with_temp).0 tmp ≡ none
  unfolding finish_temp
  finish_temp_removed completes = simp (get-remove, same_refl)
  finish_temp_removed (write_tears bytes) = simp (get-remove, same_refl)
  finish_temp_removed sync_fails = simp (get-remove, same_refl)
  finish_temp_removed close_fails = simp (get-remove, same_refl)
  finish_temp_removed rename_fails = simp (get-remove, same_refl)

module _ (file : Text) (proper : IsProper file) (original out : Text) where
  temp-ne-file : (suffix : Text) → same (temp_prefix ++ suffix) file ≡ false
  temp-ne-file suffix = same-eq-false (λ e. proper.not_temp suffix (sym e))

  write_temp-IsPublished :
      (suffix : Option Text) (finish : Finish) (seen : Dir)
      → (write_temp file out suffix finish (put seen (backup_name file) original)).1 ≡ ok false
      → IsPublished file original out seen
          (write_temp file out suffix finish (put seen (backup_name file) original)).0
  unfolding write_temp
  write_temp-IsPublished none finish seen h = cc
  write_temp-IsPublished (some suffix) finish seen h =
      finish_temp-IsPublished file original out (temp_prefix ++ suffix) seen finish
        (temp-ne-file suffix) (same-eq-false (λ e. proper.backup_not_temp suffix (sym e)))
        (λ name nt. same-eq-false (λ e. nt suffix (sym e))) h

  write_temp_failed :
      (suffix : Option Text) (finish : Finish) (seen : Dir) {e : Error}
      → (write_temp file out suffix finish (put seen (backup_name file) original)).1 ≡ err e
      → get (write_temp file out suffix finish (put seen (backup_name file) original)).0 file
        ≡ get seen file
  unfolding write_temp
  write_temp_failed none finish seen h = simp (get-put, same-eq-false (backup_name-ne file))
  write_temp_failed (some suffix) finish seen h =
      finish_temp_failed file original out (temp_prefix ++ suffix) seen finish (temp-ne-file suffix)
        h

  pub write_backup-IsPublished :
      (torn : Option Text) (a : Attempt) (seen : Dir)
      → (write_backup file original out torn a seen).1 ≡ ok false
      → IsPublished file original out seen (write_backup file original out torn a seen).0
  unfolding write_backup
  write_backup-IsPublished none a seen h = write_temp-IsPublished a.temp_suffix a.finish seen h
  write_backup-IsPublished (some torn) a seen h = cc

  pub write_backup_failed :
      (torn : Option Text) (a : Attempt) (seen : Dir) {e : Error}
      → (write_backup file original out torn a seen).1 ≡ err e
      → get (write_backup file original out torn a seen).0 file ≡ get seen file
  unfolding write_backup
  write_backup_failed none a seen h = write_temp_failed a.temp_suffix a.finish seen h
  write_backup_failed (some torn) a seen h = simp (get-put, same-eq-false (backup_name-ne file))

  pub write_backup-ne-retry :
      (torn : Option Text) (a : Attempt) (seen : Dir)
      → (write_backup file original out torn a seen).1 ≢ ok true
  unfolding write_backup write_temp finish_temp
  write_backup-ne-retry torn a seen h = ground arith
