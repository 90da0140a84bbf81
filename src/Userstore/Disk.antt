-- ===== src/Userstore/Disk.antt =====
-- The directory of the users file, and what may happen around one attempt of `mutateOnce` in
-- internal/userstore/userstore.go: failing system calls and writes by other processes.
pub mod Laws
use vps_user_portal.Base.{Bool, false, Option, none, some, [], ◌∷◌, ◌++◌, if◌then◌else◌}
use vps_user_portal.Text.{Text, lit}
use vps_user_portal.Text.Maps.{Dict, get, put}
use vps_user_portal.Text.Parts.{has_prefix}

-- File names in the directory, with their contents.
abbrev pub Dir : Type 0
Dir = Dict Text

-- What becomes of the temporary file; a torn write leaves some other content.
pub data Finish : Type 0 where
  completes : Finish
  write_tears : Text → Finish
  sync_fails close_fails rename_fails : Finish

-- What the environment does during one attempt.
pub record Attempt : Type 0 where
  pub read_fails : Bool
  -- what other processes do between the first read and the read before the rename
  pub meanwhile : Dir → Dir
  pub reread_fails : Bool
  -- what they do between that read and the rename
  pub late : Dir → Dir
  -- what a backup that cannot be written leaves behind
  pub backup_tears : Option Text
  -- the random part of the name that `os.CreateTemp` settles on, if it can make the file
  pub temp_suffix : Option Text
  pub finish : Finish

-- Nothing fails, and no other process writes.
abbrev pub quiet : Attempt
quiet = record {
  read_fails = false;
  meanwhile = λ d. d;
  reread_fails = false;
  late = λ d. d;
  backup_tears = none;
  temp_suffix = some (lit "1");
  finish = completes;
}

abbrev pub temp_prefix : Text
temp_prefix = lit ".users_database.yml.tmp"

abbrev pub lock_name : Text
lock_name = lit ".portal.lock"

abbrev pub backup_name : Text → Text
backup_name file = file ++ lit ".bak"

-- `os.ReadFile`
unfoldable pub read_file : Bool → Dir → Text → Option Text
unfolding get
read_file fails dir file = if fails then none else get dir file

sweep : Text → Dir → Dir
unfolding has_prefix
sweep prefix [] = []
sweep prefix ((name, bytes) ∷ dir) =
    let rest = sweep prefix dir in if has_prefix name prefix then rest else (name, bytes) ∷ rest

-- `sweepStaleTemps`
unfoldable pub sweep_stale_temps : Dir → Dir
unfolding sweep
sweep_stale_temps dir = sweep temp_prefix dir

touch_found : Option Text → Dir → Text → Dir
unfolding put
touch_found none dir name = put dir name []
touch_found (some bytes) dir name = dir

-- `os.OpenFile` with `O_CREATE`: an empty file, if there is none
unfoldable pub touch : Dir → Text → Dir
unfolding get touch_found
touch dir name = touch_found (get dir name) dir name
