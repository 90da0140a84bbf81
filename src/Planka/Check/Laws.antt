-- ===== src/Planka/Check/Laws.antt =====
-- What a `Check` of internal/provision/planka/planka.go that passes says of the schema and of the
-- role of the connection.
use vps_user_portal.Text.{same, Text, lit, contains}
use vps_user_portal.Base.{
  List, Option, ◌≡◌, ◌&&◌, some, is_empty, arith, ok, true, false, Bool, not, none, ◌++◌, ◌+◌, All,
  ◌⊎◌, Any, bind-eq-ok, ◌∷◌, ap, inr, require, [], ok_injective, ◌==◌, refl, ◌∙◌, require-eq-ok,
  inl, and-eq-true, Bool-cases, sym,
}
use vps_user_portal.Planka.Check.{
  Column, see, read_column, read_columns, Privileges, check_grants, judge, check, is_required,
  Shape, is_some, start, insert_columns, is_superuser, rows_failed, no_table, unmet_columns,
  id_without_default, lacking,
}

-- An INSERT of `insertColumns` gives the column, or the table does not ask for it.
abbrev IsMet : Column → Type 0
IsMet c = (is_required c && not (contains insert_columns c.name)) ≡ false

-- A row that scanned, with the property.
abbrev Scanned : (Column → Type 0) → Option Column → Type 0
Scanned P none = ⊥
Scanned P (some c) = P c

abbrev IsIdWithDefault : Column → Type 0
IsIdWithDefault c = (same c.name (lit "id") ≡ true) × (is_some c.default ≡ true)

abbrev IsNullablePassword : Column → Type 0
IsNullablePassword c = (same c.name (lit "password") ≡ true) × (same c.nullable (lit "YES") ≡ true)

is_empty-append : (xs : List Text) (x : Text) → is_empty (xs ++ x ∷ []) ≡ false
is_empty-append [] x = refl
is_empty-append (y ∷ xs) x = refl

see-unmet : (c : Column) (s : Shape) → (see c s).unmet ≡ s.unmet
unfolding see
see-unmet c s = ground arith

read_column-unmet :
    (c : Column) (s : Shape)
    → is_empty (read_column c s).unmet ≡ true
    → IsMet c × (is_empty s.unmet ≡ true)
unfolding read_column
read_column-unmet c s h =
    elim (Bool-cases (is_required c && not (contains insert_columns c.name))) [
      | inl new ↦ cc (is_empty-append s.unmet c.name, rw new at h)
      | inr old ↦ (old, ap is_empty (sym (see-unmet c _)) ∙ (rw old at h))
    ]

read_columns-unmet :
    (cs : List (Option Column)) (s : Shape) {t : Shape}
    → read_columns cs s ≡ ok t
    → is_empty t.unmet ≡ true
    → All (Scanned IsMet) cs × (is_empty s.unmet ≡ true)
unfolding read_columns
read_columns-unmet [] s h met = (tt, ap (λ x. is_empty x.unmet) (ok_injective h) ∙ met)
read_columns-unmet (none ∷ cs) s h met = cc
read_columns-unmet (some c ∷ cs) s h met =
    let (later, now) = read_columns-unmet cs (read_column c s) h met in
    let (this, before) = read_column-unmet c s now in ((this, later), before)

see-id :
    (c : Column) (s : Shape)
    → (see c s).id_has_default ≡ true
    → IsIdWithDefault c ⊎ (s.id_has_default ≡ true)
unfolding see
see-id c s h = ground arith

see-password :
    (c : Column) (s : Shape)
    → (see c s).password_null ≡ true
    → IsNullablePassword c ⊎ (s.password_null ≡ true)
unfolding see
see-password c s h = ground arith

counted : Shape → Shape
counted s = record s { found = s.found + 1 }

read_column-see :
    (c : Column) (s : Shape)
    → ((read_column c s).id_has_default ≡ (see c (counted s)).id_has_default)
      × ((read_column c s).password_null ≡ (see c (counted s)).password_null)
unfolding read_column counted
read_column-see c s = elim (Bool-cases (is_required c && not (contains insert_columns c.name))) [
  | inl new ↦ rw new (refl, refl)
  | inr old ↦ rw old (refl, refl)
]

read_column-id :
    (c : Column) (s : Shape)
    → (read_column c s).id_has_default ≡ true
    → IsIdWithDefault c ⊎ (s.id_has_default ≡ true)
unfolding counted
read_column-id c s h = see-id c (counted s) (sym (read_column-see c s).0 ∙ h)

read_columns-id :
    (cs : List (Option Column)) (s : Shape) {t : Shape}
    → read_columns cs s ≡ ok t
    → t.id_has_default ≡ true
    → Any (Scanned IsIdWithDefault) cs ⊎ (s.id_has_default ≡ true)
unfolding read_columns
read_columns-id [] s h holds = inr (ap (λ x. x.id_has_default) (ok_injective h) ∙ holds)
read_columns-id (none ∷ cs) s h holds = cc
read_columns-id (some c ∷ cs) s h holds = elim (read_columns-id cs (read_column c s) h holds) [
  | inl later ↦ inl (inr later)
  | inr now ↦ elim (read_column-id c s now) [ inl this ↦ inl (inl this) | inr before ↦ inr before ]
]

read_column-password :
    (c : Column) (s : Shape)
    → (read_column c s).password_null ≡ true
    → IsNullablePassword c ⊎ (s.password_null ≡ true)
unfolding counted
read_column-password c s h = see-password c (counted s) (sym (read_column-see c s).1 ∙ h)

read_columns-password :
    (cs : List (Option Column)) (s : Shape) {t : Shape}
    → read_columns cs s ≡ ok t
    → t.password_null ≡ true
    → Any (Scanned IsNullablePassword) cs ⊎ (s.password_null ≡ true)
unfolding read_columns
read_columns-password [] s h holds = inr (ap (λ x. x.password_null) (ok_injective h) ∙ holds)
read_columns-password (none ∷ cs) s h holds = cc
read_columns-password (some c ∷ cs) s h holds =
    elim (read_columns-password cs (read_column c s) h holds) [
      | inl later ↦ inl (inr later)
      | inr now ↦ elim (read_column-password c s now) [
        | inl this ↦ inl (inl this)
        | inr before ↦ inr before
      ]
    ]

-- The probe found a role that is no superuser, has each privilege on the table, and passes the
-- probe of the sequence `next_id_seq`, which it also does where there is no such sequence.
abbrev IsNarrow : Privileges → Type 0
IsNarrow v =
    (v.is_super ≡ false)
    × (v.select_email ≡ true)
    × (v.select_role ≡ true)
    × (v.select_deactivated ≡ true)
    × (v.can_insert ≡ true)
    × (v.update_deactivated ≡ true)
    × (v.update_role ≡ true)
    × (v.sequence_ok ≡ true)

missing_lem : (v : Privileges) → is_empty (lacking v) ≡ true → v.is_super ≡ false → IsNarrow v
unfolding lacking
missing_lem v h plain = ground arith

check_grants_lem :
    (probe : Option Privileges) {u : Unit {0}}
    → check_grants probe ≡ ok u
    → (v : Privileges) × (probe ≡ some v) × IsNarrow v
unfolding check_grants
check_grants_lem none h = cc
check_grants_lem (some v) h =
    let (w, plain, rest) = bind-eq-ok (require (not v.is_super) is_superuser) _ h in
    (
      v,
      refl,
      missing_lem v (require-eq-ok _ _ rest)
          (ground (arith, require-eq-ok (not v.is_super) _ plain)),
    )

judge_lem :
    (s : Shape) {u : Unit {0}}
    → judge s ≡ ok u
    → (is_empty s.unmet ≡ true) × (s.id_has_default ≡ true) × (s.password_null ≡ true)
unfolding judge
judge_lem s h =
    let (a, there, rest) = bind-eq-ok (require (not (s.found == 0)) no_table) _ h in
    let (b, met, rest') = bind-eq-ok (require (is_empty s.unmet) (unmet_columns s.unmet)) _ rest in
    let (c, id, rest'') = bind-eq-ok (require s.id_has_default id_without_default) _ rest' in
    (
      require-eq-ok _ _ met,
      require-eq-ok _ _ id,
      (and-eq-true s.password_exists s.password_null (require-eq-ok _ _ rest'')).1,
    )

-- The answers that a provisioner can work with.
abbrev pub IsReady : Option (List (Option Column) × Bool) → Option Privileges → Type 0
IsReady answer probe =
    (columns : List (Option Column)) × (v : Privileges) × (answer ≡ some (columns, false))
    × (probe ≡ some v)
    × All (Scanned IsMet) columns
    × Any (Scanned IsIdWithDefault) columns
    × Any (Scanned IsNullablePassword) columns
    × IsNarrow v

-- If `Check` passes, then both queries were answered in full; every column of the table that is NOT
-- NULL and has no default is one that `Provision` writes; there is a column `id` with a default and
-- a nullable column `password`; and, as the probe tells, the role of the connection is no superuser,
-- holds each of the privileges on the table that the provisioner uses, and may use the sequence
-- `next_id_seq`, if there is one. Privileges that it holds beyond these are not looked at.
pub check_sound :
    (answer : Option (List (Option Column) × Bool)) (probe : Option Privileges)
    → check answer probe ≡ ok tt
    → IsReady answer probe
unfolding check
check_sound none probe h = cc
check_sound (some (columns, failed)) probe h =
    let (shape, read, rest) = bind-eq-ok (read_columns columns start) _ h in
    let (u, whole, rest') = bind-eq-ok (require (not failed) rows_failed) _ rest in
    let (u', judged, granted) = bind-eq-ok (judge shape) _ rest' in
    let (v, probed, narrow) = check_grants_lem probe granted in
    let (met, id, password) = judge_lem shape judged in
    (
      columns,
      v,
      ground (arith, require-eq-ok (not failed) _ whole),
      probed,
      (read_columns-unmet columns start read met).0,
      elim (read_columns-id columns start read id) [ inl there ↦ there | inr e ↦ cc ],
      elim (read_columns-password columns start read password) [ inl there ↦ there | inr e ↦ cc ],
      narrow,
    )
