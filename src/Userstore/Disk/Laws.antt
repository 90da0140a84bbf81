-- ===== src/Userstore/Disk/Laws.antt =====
-- Preparing the directory, `sweepStaleTemps` and the lock file of internal/userstore/userstore.go,
-- leaves the users file alone.
use vps_user_portal.Text.Parts.{has_prefix}
use vps_user_portal.Base.{
  ◌≡◌, [], ◌∙◌, arith, if◌then◌else◌, Option, false, some, none, refl, ◌∷◌, Bool, true,
}
use vps_user_portal.Text.{Text, same_iff, same}
use vps_user_portal.Text.Maps.{get, get-put}
use vps_user_portal.Userstore.Disk.{
  sweep_stale_temps, touch, Dir, touch_found, temp_prefix, sweep, read_file,
}

get-sweep :
    (prefix : Text) (dir : Dir) (name : Text)
    → get (sweep prefix dir) name ≡ (if has_prefix name prefix then none else get dir name)
unfolding sweep get
get-sweep prefix [] name = ground arith
get-sweep prefix ((n, bytes) ∷ dir) name =
    ground (arith, get-sweep prefix dir name, same_iff n name)

-- The sweep removes the files with the temporary prefix and no others.
pub get-sweep_stale_temps :
    (dir : Dir) (name : Text)
    → get (sweep_stale_temps dir) name
      ≡ (if has_prefix name temp_prefix then none else get dir name)
unfolding sweep_stale_temps
get-sweep_stale_temps dir name = get-sweep temp_prefix dir name

pub read_file-eq-get :
    (fails : Bool) (dir : Dir) (file : Text)
    → fails ≡ false
    → read_file fails dir file ≡ get dir file
unfolding read_file
read_file-eq-get true dir file h = cc
read_file-eq-get false dir file h = refl

get-touch_found :
    (o : Option Text) (dir : Dir) (lock name : Text)
    → same lock name ≡ false
    → get (touch_found o dir lock) name ≡ get dir name
unfolding touch_found
get-touch_found none dir lock name h = get-put dir lock name [] ∙ rw h
get-touch_found (some bytes) dir lock name h = refl

pub get-touch_ne :
    (dir : Dir) (lock name : Text)
    → same lock name ≡ false
    → get (touch dir lock) name ≡ get dir name
unfolding touch
get-touch_ne dir lock name h = get-touch_found (get dir lock) dir lock name h
