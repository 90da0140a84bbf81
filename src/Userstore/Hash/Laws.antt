-- ===== src/Userstore/Hash/Laws.antt =====
-- What stands in the digest of internal/userstore/hash.go, for a reader that cuts it at its dollar
-- signs.
use vps_user_portal.Text.Decimal.Laws.{print-is_digit}
use vps_user_portal.Text.Base64.Laws.{IsSextet, IsByte, split_bytes-IsSextet, decode64-encode64}
use vps_user_portal.Text.Parts.{split}
use vps_user_portal.Server.Tokens.Laws.{Misses-digits}
use vps_user_portal.Text.Decimal.{print}
use vps_user_portal.Text.Split.{Misses, split-append, split_whole, Misses-of, Misses-append}
use vps_user_portal.Userstore.Hash.{Argon2, phc, throwaway_hash, argon_cost, print_cost}
use vps_user_portal.Text.Base64.{letter, Alphabet, encode64, split_bytes, std, decode64, url}
use vps_user_portal.Base.{
  ℕ, ◌<◌, List, ◌==◌, All, some, arith, ◌≡◌, false, map, [], ok, ◌∷◌, subst, ok_injective, ◌++◌,
  refl, ◌∙◌, sym, ap,
}
use vps_user_portal.Text.{Text, lit}

-- The text between two dollar signs can be read back.
abbrev Plain : Text → Type 0
Plain = Misses b'$'

print-Plain : (n : ℕ) → Plain (print n)
print-Plain n = Misses-digits b'$' (print n) (omega arith) (print-is_digit n)

letter-Plain : (alphabet : Alphabet) (v : ℕ) → v < 64 → (letter alphabet v == b'$') ≡ false
unfolding letter
letter-Plain url v h = ground arith
letter-Plain std v h = ground arith

letters-Plain :
    (alphabet : Alphabet) (vs : List ℕ) → All IsSextet vs → Plain (map (letter alphabet) vs)
letters-Plain alphabet [] h = tt
letters-Plain alphabet (v ∷ vs) h = (letter-Plain alphabet v h.0, letters-Plain alphabet vs h.1)

encode64-Plain : (alphabet : Alphabet) (bs : List ℕ) → All IsByte bs → Plain (encode64 alphabet bs)
unfolding encode64
encode64-Plain alphabet bs h = letters-Plain alphabet (split_bytes bs) (split_bytes-IsSextet bs h)

-- A digest with the standard parameters, of which the salt and the key can be read back.
pub record IsDigest (argon2 : Argon2) (salt key : List ℕ) (hash : Text) : Type 0 where
  pub salt64 : Text
  pub key64 : Text
  pub fields :
      split hash b'$'
      ≡ []
        ∷ lit "argon2id"
        ∷ (lit "v=" ++ print argon2.version)
        ∷ lit "m=65536,t=3,p=4"
        ∷ salt64
        ∷ key64
        ∷ []
  pub salt_back : decode64 std salt64 ≡ some salt
  pub key_back : decode64 std key64 ≡ some key

split_fields :
    (a v c s k : Text)
    → Plain a
    → Plain v
    → Plain c
    → Plain s
    → Plain k
    → split (b'$' ∷ (a ++ b'$' ∷ (v ++ b'$' ∷ (c ++ b'$' ∷ (s ++ b'$' ∷ k))))) b'$'
      ≡ [] ∷ a ∷ v ∷ c ∷ s ∷ k ∷ []
split_fields a v c s k ha hv hc hs hk =
    split-append [] (a ++ b'$' ∷ (v ++ b'$' ∷ (c ++ b'$' ∷ (s ++ b'$' ∷ k)))) b'$' tt
    ∙ ap (λ x. [] ∷ x)
        (split-append a (v ++ b'$' ∷ (c ++ b'$' ∷ (s ++ b'$' ∷ k))) b'$' ha
          ∙ ap (λ x. a ∷ x)
              (split-append v (c ++ b'$' ∷ (s ++ b'$' ∷ k)) b'$' hv
                ∙ ap (λ x. v ∷ x)
                    (split-append c (s ++ b'$' ∷ k) b'$' hc
                      ∙ ap (λ x. c ∷ x)
                          (split-append s k b'$' hs ∙ ap (λ x. s ∷ x) (split_whole k b'$' hk)))))

print-argon_cost : print_cost argon_cost ≡ lit "m=65536,t=3,p=4"
unfolding print_cost print
print-argon_cost = refl

phc-IsDigest :
    (argon2 : Argon2) (salt key : List ℕ)
    → All IsByte salt
    → All IsByte key
    → IsDigest argon2 salt key (phc argon2 argon_cost salt key)
unfolding phc
phc-IsDigest argon2 salt key salt_bytes key_bytes = record {
  salt64 = encode64 std salt;
  key64 = encode64 std key;
  fields =
      split_fields (lit "argon2id") (lit "v=" ++ print argon2.version) (print_cost argon_cost)
        (encode64 std salt) (encode64 std key) (Misses-of b'$' (lit "argon2id") refl)
        (Misses-append b'$' (lit "v=") (print argon2.version) (Misses-of b'$' (lit "v=") refl)
          (print-Plain argon2.version))
        (subst Plain (sym print-argon_cost) (Misses-of b'$' (lit "m=65536,t=3,p=4") refl))
        (encode64-Plain std salt salt_bytes) (encode64-Plain std key key_bytes)
      ∙ ap
          (λ x.
            []
            ∷ lit "argon2id"
            ∷ (lit "v=" ++ print argon2.version)
            ∷ x
            ∷ encode64 std salt
            ∷ encode64 std key
            ∷ [])
          print-argon_cost;
  salt_back = decode64-encode64 std salt salt_bytes;
  key_back = decode64-encode64 std key key_bytes;
}

-- Where the digest can be made, it is one of the salt and of the key that Argon2 makes of the
-- password, with the time, memory and threads of the configuration, and both are read back from the
-- fields between its dollar signs.
pub throwaway_hash-IsDigest :
    (argon2 : Argon2) (password salt : List ℕ) {hash : Text}
    → throwaway_hash argon2 (some password) (some salt) ≡ ok hash
    → All IsByte salt
    → All IsByte (argon2.id_key password salt argon_cost)
    → IsDigest argon2 salt (argon2.id_key password salt argon_cost) hash
unfolding throwaway_hash
throwaway_hash-IsDigest argon2 password salt h salt_bytes key_bytes =
    let key = argon2.id_key password salt argon_cost in
    subst (IsDigest argon2 salt key) (ok_injective h)
      (phc-IsDigest argon2 salt key salt_bytes key_bytes)
