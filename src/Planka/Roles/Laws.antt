-- ===== src/Planka/Roles/Laws.antt =====
-- What the role mapping gives: `roleFor` of internal/provision/planka/planka.go, over the rules that
-- `newFromConfig` lets through.
use vps_user_portal.Text.{Text, contains, same}
use vps_user_portal.Yaml.{Nodes, cons, nil, value, is_mapping, kind, content, Node}
use vps_user_portal.Planka.Roles.{
  Provisioner, read_rules, new_from_config, valid_planka_role, first_role, role_for, RoleRule,
  RawConfig, has_content, empty_rule, invalid_role, read_rule,
}
use vps_user_portal.Base.{
  List, All, ◌≡◌, Bool, is_empty, any, false, ok, Option, true, not, ◌∷◌, ◌++◌, subst, [], arith,
  ap, ok_injective, some, refl, ◌⊎◌, ◌∙◌, inl, bind-eq-ok, require, ◌||◌, require-eq-ok, ◌&&◌, none,
  ◌>>=◌,
}

-- Every rule has a group and a role of Planka.
abbrev IsValid : RoleRule → Type 0
IsValid r = (is_empty r.group ≡ false) × (valid_planka_role r.role ≡ true)

abbrev AreValid : List RoleRule → Type 0
AreValid = All IsValid

read_rule-IsValid : (k v : Node) {r : RoleRule} → read_rule k v ≡ ok r → IsValid r
unfolding read_rule
read_rule-IsValid k v h =
    let (u, filled, rest) =
      bind-eq-ok (require (not (is_empty (value k) || is_empty (value v))) empty_rule) _ h in
    let (u', known, whole) =
      bind-eq-ok (require (valid_planka_role (value v)) (invalid_role (value v))) _ rest in
    subst IsValid (ok_injective whole) (
      ground (arith, require-eq-ok (not (is_empty (value k) || is_empty (value v))) _ filled),
      require-eq-ok _ _ known,
    )

read_rules-AreValid :
    (ns : Nodes) {rules : List RoleRule} → read_rules ns ≡ ok rules → AreValid rules
unfolding read_rules
read_rules-AreValid nil h = subst AreValid (ok_injective h) tt
read_rules-AreValid (cons k nil) h = subst AreValid (ok_injective h) tt
read_rules-AreValid (cons k (cons v ns)) h =
    let (r, first, rest) =
      bind-eq-ok (read_rule k v) (λ r. read_rules ns >>= λ rules. ok (r ∷ rules)) h in
    let (rules, others, whole) = bind-eq-ok (read_rules ns) _ rest in
    subst AreValid (ok_injective whole) (read_rule-IsValid k v first, read_rules-AreValid ns others)

new_from_config_rules :
    (getenv : Text → Text) (connects : Text → Bool) (name : Text) (raw : Option RawConfig)
    {p : Provisioner}
    → new_from_config getenv connects name raw ≡ ok p
    → AreValid p.roles
unfolding new_from_config
new_from_config_rules getenv connects name none h = cc
new_from_config_rules getenv connects name (some raw) h =
    let (u, named, secret) = bind-eq-ok (require (not (is_empty raw.dsn_env)) _) _ h in
    let (v, set, mapped) = bind-eq-ok (require (not (is_empty (getenv raw.dsn_env))) _) _ secret in
    let (w, shaped, reads) =
      bind-eq-ok (require (is_mapping (kind raw.roles) && has_content (content raw.roles)) _) _
        mapped in
    let (rules, read, pooled) = bind-eq-ok (read_rules (content raw.roles)) _ reads in
    let (x, connected, whole) = bind-eq-ok (require (connects (getenv raw.dsn_env)) _) _ pooled in
    subst (λ q. AreValid q.roles) (ok_injective whole)
      (read_rules-AreValid (content raw.roles) read)

abbrev pub applies : List Text → RoleRule → Bool
applies groups r = contains groups r.group

valid-is_empty : (role : Text) → valid_planka_role role ≡ true → is_empty role ≡ false
unfolding valid_planka_role contains same
valid-is_empty [] h = cc
valid-is_empty (c ∷ role) h = refl

first_role_lem :
    (groups : List Text) (rules : List RoleRule)
    → AreValid rules
    → (is_empty (first_role groups rules) ≡ not (any (applies groups) rules))
      × ((first_role groups rules ≡ []) ⊎ (valid_planka_role (first_role groups rules) ≡ true))
unfolding first_role
first_role_lem groups [] h = (refl, inl refl)
first_role_lem groups (r ∷ rules) h =
    ground (arith, valid-is_empty r.role h.0.1, first_role_lem groups rules h.1)

-- A provisioner that `newFromConfig` makes gives a user a role exactly if one of the user's groups is
-- in the mapping, and the role is then one that Planka knows.
pub role_for_lem :
    (getenv : Text → Text) (connects : Text → Bool) (name : Text) (raw : Option RawConfig)
    {p : Provisioner}
    → new_from_config getenv connects name raw ≡ ok p
    → (groups : List Text)
    → (is_empty (role_for p groups) ≡ not (any (applies groups) p.roles))
      × ((role_for p groups ≡ []) ⊎ (valid_planka_role (role_for p groups) ≡ true))
unfolding role_for
role_for_lem getenv connects name raw {p} h groups =
    first_role_lem groups p.roles (new_from_config_rules getenv connects name raw h)

first_role_same :
    (groups others : List Text)
    → ((g : Text) → contains groups g ≡ contains others g)
    → (rules : List RoleRule) → first_role groups rules ≡ first_role others rules
unfolding first_role
first_role_same groups others same_set [] = refl
first_role_same groups others same_set (r ∷ rules) =
    ground (arith, same_set r.group, first_role_same groups others same_set rules)

first_role_after :
    (groups : List Text) (before : List RoleRule) (r : RoleRule) (after : List RoleRule)
    → any (applies groups) before ≡ false
    → applies groups r ≡ true
    → first_role groups (before ++ r ∷ after) ≡ r.role
unfolding first_role
first_role_after groups [] r after none_before here = ground arith
first_role_after groups (s ∷ before) r after none_before here =
    ground (arith, first_role_after groups before r after)

-- The privilege order is that of the mapping: the rule that gives the role is preceded only by rules
-- whose groups the user is not in.
pub role_for_first :
    (p : Provisioner) (groups : List Text) (before : List RoleRule) (r : RoleRule)
    (after : List RoleRule)
    → p.roles ≡ before ++ r ∷ after
    → any (applies groups) before ≡ false
    → applies groups r ≡ true
    → role_for p groups ≡ r.role
unfolding role_for
role_for_first p groups before r after split none_before here =
    ap (first_role groups) split ∙ first_role_after groups before r after none_before here
