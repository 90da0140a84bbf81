-- ===== src/Userstore/Mutate/Ends.antt =====
-- How the loop of `mutate` in internal/userstore/userstore.go ends.
use vps_user_portal.Userstore.Mutate.Safety.{mutate_once_retry}
use vps_user_portal.Userstore.Mutate.Loop.{Round-cases, again_done, again_retry, again_failed}
use vps_user_portal.Userstore.Types.{Result, exhausted, Error}
use vps_user_portal.Text.Maps.{get}
use vps_user_portal.Userstore.Disk.{Attempt, Dir, sweep_stale_temps, touch, lock_name}
use vps_user_portal.Userstore.Mutate.Publish.{IsProper}
use vps_user_portal.Base.{
  refl, ℕ, inr, ◌≡◌, ◌≢◌, Bool, err, ◌<◌, suc, false, ok, zero, ◌⊎◌, inl, arith,
}
use vps_user_portal.Userstore.Mutate.{
  Mutation, mutate, attempt_loop, Circumstances, mutate_once, attempts,
}
use vps_user_portal.Text.{Text}
use vps_user_portal.Yaml.{Yaml}

module _ (y : Yaml) (file : Text) (m : Mutation) (around : ℕ → Attempt) where
  -- A round changed nothing itself, and found the file changed by another process since it was read.
  abbrev pub IsContended : ℕ → Dir → Type 0
  IsContended i d = get ((around i).meanwhile d) file ≢ get d file

  -- The loop ends as a round does: done, or with the error of the round.
  abbrev pub IsFinal : Dir × Result Bool → Dir × Result (Unit {0}) → Type 0
  IsFinal round result =
      (result.0 ≡ round.0)
      × (((round.1 ≡ ok false) × (result.1 ≡ ok tt))
          ⊎ ((e : Error) × (round.1 ≡ err e) × (result.1 ≡ err e)))

  -- After so many contended rounds, the next one ends the loop.
  abbrev pub EndsAfter : ℕ → ℕ → Dir → Dir × Result (Unit {0}) → Type 0
  EndsAfter i zero d result = IsFinal (mutate_once y file m (around i) d) result
  EndsAfter i (suc n) d result =
      IsContended i d × EndsAfter (suc i) n ((around i).meanwhile d) result

  -- So many contended rounds exhaust the loop.
  abbrev pub IsExhausted : ℕ → ℕ → Dir → Dir × Result (Unit {0}) → Type 0
  IsExhausted i zero d result = result ≡ (d, err exhausted)
  IsExhausted i (suc n) d result =
      IsContended i d × IsExhausted (suc i) n ((around i).meanwhile d) result

  abbrev pub IsEnded : ℕ → ℕ → Dir → Dir × Result (Unit {0}) → Type 0
  IsEnded i left d result =
      ((n : ℕ) × (n < left) × EndsAfter i n d result) ⊎ IsExhausted i left d result

  IsEnded-suc :
      (i left : ℕ) (d : Dir) (result : Dir × Result (Unit {0}))
      → IsContended i d
      → IsEnded (suc i) left ((around i).meanwhile d) result
      → IsEnded i (suc left) d result
  IsEnded-suc i left d result contended (inl (n, below, ends)) =
      inl (suc n, omega arith, (contended, ends))
  IsEnded-suc i left d result contended (inr exhaust) = inr (contended, exhaust)

  attempt_loop-IsEnded :
      (proper : IsProper file) (left i : ℕ) (d : Dir)
      → IsEnded i left d (attempt_loop y file m around i left d)
  unfolding attempt_loop
  attempt_loop-IsEnded proper zero i d = inr refl
  attempt_loop-IsEnded proper (suc left) i d =
      let more = attempt_loop y file m around (suc i) left in
      let p = mutate_once y file m (around i) d in
      elim (Round-cases p.1) [
        | inl e ↦ rw (again_done y file m p more e) (inl (0, omega arith, (refl, inl (e, refl))))
        | inr (inl e) ↦
            let (same_dir, changed) = mutate_once_retry y file proper m (around i) d e in
            rw (again_retry y file m p more e, same_dir)
              (IsEnded-suc i left d (more ((around i).meanwhile d)) changed
                (attempt_loop-IsEnded proper left (suc i) ((around i).meanwhile d)))
        | inr (inr (e, q)) ↦
            rw (again_failed y file m p more q) (inl (0, omega arith, (refl, inr (e, q, refl))))
      ]

module _ (y : Yaml) (file : Text) (m : Mutation) (proper : IsProper file) where
  -- Where the lock is taken, `mutate` ends with the first of its four rounds that does not find the
  -- file changed by another process since it was read, as that round does; or it fails as
  -- exhausted, and then each of the four found that.
  pub mutate-IsEnded :
      (c : Circumstances) (dir : Dir)
      → c.lock_fails ≡ false
      → c.flock_fails ≡ false
      → IsEnded y file m c.around 0 attempts
          (sweep_stale_temps (touch dir lock_name))
          (mutate y file m c dir)
  unfolding mutate
  mutate-IsEnded c dir locks flocks =
      rw (locks, flocks)
        (attempt_loop-IsEnded y file m c.around proper attempts 0
          (sweep_stale_temps (touch dir lock_name)))
