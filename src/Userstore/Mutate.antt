-- ===== src/Userstore/Mutate.antt =====
-- `mutate` and `mutateOnce` of internal/userstore/userstore.go. A directory is passed on through
-- every step; `true` as the result of an attempt asks for another one.
pub mod Rewrite
pub mod Publish
pub mod Safety
pub mod Loop
pub mod Quiet
pub mod Saved
pub mod Ends
use vps_user_portal.Base.{
  ok, err, ◌>>=◌, ◌>>◌, wrap, or_fail, ℕ, zero, suc, ◌+◌, ◌-◌, ◌*◌, ◌/◌, ◌%◌, ◌^◌, ◌≤◌, ◌<◌, ◌≡◌,
  ◌≢◌, refl, sym, ap, ap₂, ◌∙◌, subst, ◌≡⟨◌⟩◌, ◌∎, ◌↔◌, ◌⊎◌, inl, inr, Bool, true, false, not, ◌&&◌,
  ◌||◌, Option, none, some, List, [], ◌∷◌, ◌++◌, map, append-nil, append_assoc, arith, ◌==◌, ==_iff,
  ltb, leb, if◌then◌else◌, Bool-cases, Option-cases, and-eq-true, length, is_empty, all, any, keep,
  All, Any, length-append, all-keep, all-keep_self, all-append, All-append, All-keep,
}
use vps_user_portal.Text.{Text, lit, same}
use vps_user_portal.Text.Maps.{get, put, remove}
use vps_user_portal.Yaml.{Node, Yaml}
use vps_user_portal.Userstore.Types.{
  Error, lock_failed, flock_failed, read_failed, reread_failed, encode_failed, output_unparsable,
  output_undecodable, refused, backup_failed, temp_failed, write_failed, sync_failed, close_failed,
  rename_failed, exhausted, Result,
}
use vps_user_portal.Userstore.Nodes.{parse_bytes, users_map, with_users}
use vps_user_portal.Userstore.Snapshot.{Snapshot, snapshot}
use vps_user_portal.Userstore.Disk.{
  Dir, Finish, completes, write_tears, sync_fails, close_fails, rename_fails, Attempt, temp_prefix,
  lock_name, backup_name, read_file, sweep_stale_temps, touch,
}

-- The two function arguments of `mutate`.
pub record Mutation : Type 0 where
  pub edit : Node → Result Node
  pub verify : Snapshot → Snapshot → Result (Unit {0})

module _ (y : Yaml) where
  -- The print is parsed again, and the two snapshots are compared.
  check_output : Mutation → Snapshot → Text → Result Text
  unfolding parse_bytes snapshot
  check_output m before out = do
    reparsed ← wrap output_unparsable (parse_bytes y out)
    after ← wrap output_undecodable (snapshot y reparsed)
    wrap refused (m.verify before after)
    ok out

  edit_root : Mutation → Node → Result Text
  unfolding users_map with_users
  edit_root m root = do
    users ← users_map root
    edited ← m.edit users
    or_fail (y.encode (with_users root edited)) encode_failed

  -- From the bytes that were read to the bytes to write: parse, edit, print, and check the print.
  unfoldable pub rewrite : Mutation → Text → Result Text
  unfolding parse_bytes snapshot check_output edit_root
  rewrite m original = do
    root ← parse_bytes y original
    before ← snapshot y root
    out ← edit_root m root
    check_output m before out

-- The temporary file is there and empty. The deferred removal runs on every way out.
finish_temp : Text → Text → Text → Finish → Dir → Dir × Result Bool
unfolding put remove
finish_temp file tmp out completes dir =
    (remove (put (remove (put dir tmp out) tmp) file out) tmp, ok false)
finish_temp file tmp out (write_tears bytes) dir =
    (remove (put dir tmp bytes) tmp, err write_failed)
finish_temp file tmp out sync_fails dir = (remove (put dir tmp out) tmp, err sync_failed)
finish_temp file tmp out close_fails dir = (remove (put dir tmp out) tmp, err close_failed)
finish_temp file tmp out rename_fails dir = (remove (put dir tmp out) tmp, err rename_failed)

write_temp : Text → Text → Option Text → Finish → Dir → Dir × Result Bool
unfolding finish_temp
write_temp file out none finish dir = (dir, err temp_failed)
write_temp file out (some suffix) finish dir =
    finish_temp file (temp_prefix ++ suffix) out finish (put dir (temp_prefix ++ suffix) [])

pub write_backup : Text → Text → Text → Option Text → Attempt → Dir → Dir × Result Bool
unfolding write_temp
write_backup file original out (some torn) a dir =
    (put dir (backup_name file) torn, err backup_failed)
write_backup file original out none a dir =
    write_temp file out a.temp_suffix a.finish (put dir (backup_name file) original)

-- The read before the rename, and all that follows it.
replace_if_unchanged : Text → Text → Text → Option Text → Attempt → Dir → Dir × Result Bool
unfolding write_backup same
replace_if_unchanged file original out none a dir = (dir, err reread_failed)
replace_if_unchanged file original out (some current) a dir =
    if same current original
    then write_backup file original out a.backup_tears a (a.late dir)
    else (dir, ok true)

unfoldable pub publish : Text → Text → Result Text → Attempt → Dir → Dir × Result Bool
unfolding replace_if_unchanged read_file
publish file original (err e) a dir = (dir, err e)
publish file original (ok out) a dir =
    replace_if_unchanged file original out (read_file a.reread_fails dir file) a dir

module _ (y : Yaml) (file : Text) (m : Mutation) where
  edit_original : Option Text → Attempt → Dir → Dir × Result Bool
  unfolding publish rewrite
  edit_original none a dir = (dir, err read_failed)
  edit_original (some original) a dir =
      publish file original (rewrite y m original) a (a.meanwhile dir)

  unfoldable pub mutate_once : Attempt → Dir → Dir × Result Bool
  unfolding edit_original read_file
  mutate_once a dir = edit_original (read_file a.read_fails dir file) a dir

  pub again : Dir × Result Bool → (Dir → Dir × Result (Unit {0})) → Dir × Result (Unit {0})
  again (dir, err e) more = (dir, err e)
  again (dir, ok false) more = (dir, ok tt)
  again (dir, ok true) more = more dir

  -- The `for` loop, by the rounds that are left; `i` is the variable `attempt`.
  unfoldable pub attempt_loop : (ℕ → Attempt) → ℕ → ℕ → Dir → Dir × Result (Unit {0})
  unfolding mutate_once again
  attempt_loop around i zero dir = (dir, err exhausted)
  attempt_loop around i (suc left) dir =
      again (mutate_once (around i) dir) (attempt_loop around (suc i) left)

abbrev pub attempts : ℕ
attempts = 4

-- What happens around the lock, and around each attempt.
pub record Circumstances : Type 0 where
  pub lock_fails : Bool
  pub flock_fails : Bool
  pub around : ℕ → Attempt

module _ (y : Yaml) (file : Text) where
  unfoldable pub mutate : Mutation → Circumstances → Dir → Dir × Result (Unit {0})
  unfolding attempt_loop sweep_stale_temps touch
  mutate m c dir =
      if c.lock_fails
      then (dir, err lock_failed)
      else if c.flock_fails
      then (touch dir lock_name, err flock_failed)
      else attempt_loop y file m c.around 0 attempts (sweep_stale_temps (touch dir lock_name))
