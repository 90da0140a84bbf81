-- ===== src/Userstore/Hash.antt =====
-- internal/userstore/hash.go: the digest of a random password that nobody knows. Random bytes and the
-- Argon2 of golang.org/x/crypto are parameters.
pub mod Laws
use vps_user_portal.Text.Base64.{encode64, std}
use vps_user_portal.Text.{Text, lit}
use vps_user_portal.Text.Decimal.{print}
use vps_user_portal.Base.{ℕ, ◌*◌, Option, List, Outcome, ◌++◌, err, ◌∷◌, some, ok, none}

-- The parameters of `argon2.IDKey`.
pub record Cost : Type 0 where
  pub time : ℕ
  pub memory : ℕ
  pub threads : ℕ
  pub key_length : ℕ

abbrev pub argon_cost : Cost
argon_cost = record { time = 3; memory = 64 * 1024; threads = 4; key_length = 32 }

pub record Argon2 : Type 0 where
  pub version : ℕ
  pub id_key : List ℕ → List ℕ → Cost → List ℕ

pub data HashError : Type 0 where
  no_password no_salt : HashError

-- `m=%d,t=%d,p=%d`
unfoldable pub print_cost : Cost → Text
unfolding print
print_cost c =
    lit "m=" ++ (print c.memory ++ (lit ",t=" ++ (print c.time ++ (lit ",p=" ++ print c.threads))))

-- `$argon2id$v=%d$m=%d,t=%d,p=%d$%s$%s`
unfoldable pub phc : Argon2 → Cost → List ℕ → List ℕ → Text
phc argon2 cost salt key =
    b'$'
    ∷ (lit "argon2id"
        ++ b'$'
          ∷ ((lit "v=" ++ print argon2.version)
              ++ b'$' ∷ (print_cost cost ++ b'$' ∷ (encode64 std salt ++ b'$' ∷ encode64 std key))))

-- The arguments are what the two calls of `rand.Read` fill in.
unfoldable pub throwaway_hash : Argon2 → Option (List ℕ) → Option (List ℕ) → Outcome HashError Text
unfolding phc
throwaway_hash argon2 none salt = err no_password
throwaway_hash argon2 (some password) none = err no_salt
throwaway_hash argon2 (some password) (some salt) =
    ok (phc argon2 argon_cost salt (argon2.id_key password salt argon_cost))
