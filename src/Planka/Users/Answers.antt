-- ===== src/Planka/Users/Answers.antt =====
-- What a success of an operation of internal/provision/planka/planka.go says of the statements that it
-- ran.
use vps_user_portal.Provision.{AppStatus}
use vps_user_portal.Text.Maps.{Dict}
use vps_user_portal.Base.{
  ℕ, Option, List, ◌≡◌, some, ok, Bool, ◌+◌, suc, false, none, zero, ap, [], refl, true, ap₂, ◌++◌,
  ◌∷◌, Bool-cases, inl, inr,
}
use vps_user_portal.Text.{Text}
use vps_user_portal.Planka.Users.{Error, or_error, reported, inserted, checked, collect}
use vps_user_portal.Planka.Database.{
  Fate, done, refused, lost, settle, run, Around, Database, Statement, Row, insert, has_email,
}

settle_answered :
    {A : Type 0} (f : Fate) (n : ℕ) (before : List Row) (out : List Row × A) {after : Database}
    {a : A}
    → settle f n before out ≡ (after, some a)
    → (after ≡ record { rows = out.0; count = n + 1 }) × (out.1 ≡ a)
unfolding settle
settle_answered done n before (rows, b) h = (cc, cc)
settle_answered refused n before (rows, b) h = cc
settle_answered lost n before (rows, b) h = cc

pub run_answered :
    (around : Around) {A : Type 0} (s : Statement A) (d : Database) {after : Database} {a : A}
    → run around s d ≡ (after, some a)
    → (after ≡ record {
      rows = (s (around.now d.count) (around.others d.count d.rows)).0;
      count = d.count + 1;
    })
      × ((s (around.now d.count) (around.others d.count d.rows)).1 ≡ a)
unfolding run
run_answered around s d h =
    settle_answered (around.fate d.count) d.count (around.others d.count d.rows) _ h

pub or_error_ok :
    (e : Error) (out : Database × Option (Unit {0})) {after : Database}
    → or_error e out ≡ (after, ok tt)
    → out ≡ (after, some tt)
unfolding or_error
or_error_ok e (d, none) h = cc
or_error_ok e (d, some u) h = cc

pub reported_ok :
    (out : Database × Option (List (Text × Text × Bool))) {after : Database} {m : Dict AppStatus}
    → reported out ≡ (after, ok m)
    → (rs : List (Text × Text × Bool)) × (out ≡ (after, some rs)) × (m ≡ collect rs [])
unfolding reported
reported_ok (d, none) h = cc
reported_ok (d, some rs) h = (rs, cc, cc)

inserted_ok :
    (email : Text) (made : Option ℕ) {u : Unit {0}}
    → inserted email made ≡ ok u
    → (n : ℕ) × (made ≡ some (suc n))
unfolding inserted
inserted_ok email none h = cc
inserted_ok email (some zero) h = cc
inserted_ok email (some (suc n)) h = (n, refl)

pub checked_ok :
    (around : Around) (email : Text) (make : ℕ → Row) (out : Database × Option Bool)
    {after : Database}
    → checked around email make out ≡ (after, ok tt)
    → (n : ℕ) × (out.1 ≡ some false) × (run around (insert make) out.0 ≡ (after, some (suc n)))
unfolding checked
checked_ok around email make (d, none) h = cc
checked_ok around email make (d, some true) h = cc
checked_ok around email make (d, some false) h =
    let (n, made) = inserted_ok email (run around (insert make) d).1 (ap (λ q. q.1) h) in
    (n, refl, ap₂ (λ x y. (x, y)) (ap (λ q. q.0) h) made)

pub insert_new :
    (make : ℕ → Row) (now : ℕ) (rows : List Row) {n : ℕ}
    → (insert make now rows).1 ≡ suc n
    → (has_email (make now).email rows ≡ false) × ((insert make now rows).0 ≡ rows ++ make now ∷ [])
unfolding insert
insert_new make now rows h = elim (Bool-cases (has_email (make now).email rows)) [
  | inl taken ↦ cc (rw taken at h)
  | inr new ↦ (new, rw new refl)
]
