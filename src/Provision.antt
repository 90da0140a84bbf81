-- ===== src/Provision.antt =====
-- internal/provision/provision.go: the interface of an app provisioner, and the loop of `Load` that
-- makes the configured ones. `S` is the state of the downstream apps, `E` the type of their errors.
pub mod Unique
use vps_user_portal.Text.Maps.{Dict}
use vps_user_portal.Base.{
  Bool, ℕ, Option, List, Outcome, if◌then◌else◌, ok, [], none, or_fail, require, not, ◌>>◌,
  is_empty, err, ◌∷◌, some, ◌>>=◌, ◌+◌, ◌⊎◌, inl, inr,
}
use vps_user_portal.Text.{Text, contains}

pub record User : Type 0 where
  pub username : Text
  pub display_name : Text
  pub email : Text
  pub groups : List Text

pub record AppStatus : Type 0 where
  pub present : Bool
  pub role : Text
  pub deactivated : Bool

pub record AppInfo : Type 0 where
  pub name : Text
  pub display_name : Text
  pub url : Text

-- An operation returns the state that it leaves, also where it fails.
pub record Provisioner (S E : Type 0) : Type 0 where
  pub name : Text
  pub info : AppInfo
  pub check : S → S × Outcome E (Unit {0})
  pub provision : User → S → S × Outcome E (Unit {0})
  pub sync : User → S → S × Outcome E (Unit {0})
  pub deprovision : User → S → S × Outcome E (Unit {0})
  pub status : List Text → S → S × Outcome E (Dict AppStatus)

-- What `node.Decode(&head)` gives.
pub record Head : Type 0 where
  pub kind : Text
  pub name : Text

pub data LoadError (E : Type 0) : Type 0 where
  undecodable : ℕ → LoadError E
  unknown_type : ℕ → Text → LoadError E
  duplicate_name : Text → LoadError E
  factory_failed : Text → E → LoadError E

-- An entry of the file: its head, if it decodes, and the whole node for the factory.
abbrev pub Entry : Type 0 → Type 0
Entry N = Option Head × N

abbrev pub as_error {ℓ} : {E F : Type 0} {A : Type ℓ} → (E → F) → Outcome E A → Outcome F A
as_error f r = elim r [ ok a ↦ ok a | err e ↦ err (f e) ]

module _ {N P E : Type 0} (factories : Text → Option (Text → N → Outcome E P)) where
  -- `if head.Name == "" { head.Name = head.Type }`
  pub name_of : Head → Text
  name_of h = if is_empty h.name then h.kind else h.name

  make : Text → N → (Text → N → Outcome E P) → Outcome (LoadError E) P
  make name n f = elim (f name n) [ ok p ↦ ok p | err e ↦ err (factory_failed name e) ]

  -- One round of the loop; `seen` holds the names so far.
  load_one : ℕ → List Text → Entry N → Outcome (LoadError E) (Text × P)
  unfolding name_of make contains
  load_one i seen (none, n) = err (undecodable i)
  load_one i seen (some h, n) = do
    f ← or_fail (factories h.kind) (unknown_type i h.kind)
    require (not (contains seen (name_of h))) (duplicate_name (name_of h))
    p ← make (name_of h) n f
    ok (name_of h, p)

  load_from : ℕ → List Text → List (Entry N) → Outcome (LoadError E) (List (Text × P))
  unfolding load_one
  load_from i seen [] = ok []
  load_from i seen (e ∷ es) = load_one i seen e >>= λ made.
      load_from (i + 1) (made.0 ∷ seen) es >>= λ rest. ok (made ∷ rest)

  -- The provisioners of the file, each with its name.
  unfoldable pub load_entries : List (Entry N) → Outcome (LoadError E) (List (Text × P))
  unfolding load_from
  load_entries es = load_from 0 [] es

  -- `Load`: `read` is `os.ReadFile`, `expand` is `os.ExpandEnv`, and `parse` gives the entries under
  -- `provisioners`. No path means no provisioners.
  unfoldable pub load :
      {F : Type 0}
      → (Text → Outcome F Text)
      → (Text → Text)
      → (Text → Outcome F (List (Entry N)))
      → Text
      → Outcome (F ⊎ LoadError E) (List (Text × P))
  unfolding load_entries
  load read expand parse path =
      if is_empty path
      then ok []
      else (as_error inl (read path) >>= λ b.
          as_error inl (parse (expand b)) >>= λ es. as_error inr (load_entries es))
