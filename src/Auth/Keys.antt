-- ===== src/Auth/Keys.antt =====
-- The keys of a server (FromSecret of internal/auth/auth.go, internal/auth/secret.go).
use bouncer.Base.{
  ℕ, ◌+◌, ◌*◌, ◌-◌, ◌&&◌, Option, none, some, List, [], ◌∷◌, leb, ◌==◌, if◌then◌else◌, length, Str,
  Outcome, ok, err, ◌>>=◌, ◌>>◌, guard, map_err,
}
use bouncer.Auth.Records.{
  ServerKeys, hkdf_salt, hkdf_info_sign, hkdf_info_encrypt_access, hkdf_info_encrypt_refresh,
}
use bouncer.Auth.Library.{Library}

pub data KeyError : Type 0 where
  hkdf_expand : Str → Str → KeyError
  odd_length : KeyError
  invalid_byte : ℕ → KeyError
  wrong_size : ℕ → KeyError

module _ (l : Library) where
  unfoldable pub hkdf_derive : Str → Str → ℕ → Outcome KeyError Str
  hkdf_derive ikm info size = map_err (hkdf_expand info) (l.hkdf ikm hkdf_salt info size)

  unfoldable pub from_secret : Str → Outcome KeyError ServerKeys
  unfolding hkdf_derive
  from_secret secret = do
    sign_seed ← hkdf_derive secret hkdf_info_sign 32
    encrypt_access ← hkdf_derive secret hkdf_info_encrypt_access 32
    encrypt_refresh ← hkdf_derive secret hkdf_info_encrypt_refresh 32
    ok (record {
      signing = l.key_from_seed sign_seed;
      verifying = l.public_key (l.key_from_seed sign_seed);
      encrypt_access = encrypt_access;
      encrypt_refresh = encrypt_refresh;
    })

-- The value of a hexadecimal digit
unfoldable pub hex_value : ℕ → Option ℕ
hex_value c =
    if leb b'0' c && leb c b'9'
    then some (c - b'0')
    else if leb b'a' c && leb c b'f'
    then some (c - b'a' + 10)
    else if leb b'A' c && leb c b'F'
    then some (c - b'A' + 10)
    else none

abbrev hex_digit : ℕ → Outcome KeyError ℕ
hex_digit c = elim (hex_value c) [ none ↦ err (invalid_byte c) | some v ↦ ok v ]

-- hex.DecodeString, which reads the whole pairs before it refuses an odd length
unfoldable pub hex_decode : Str → Outcome KeyError (List ℕ)
hex_decode [] = ok []
hex_decode (c ∷ []) = hex_digit c >>= λ _. err odd_length
hex_decode (c ∷ d ∷ text) = do
  high ← hex_digit c
  low ← hex_digit d
  rest ← hex_decode text
  ok ((high * 16 + low) ∷ rest)

unfoldable pub secret_from_hex : Str → Outcome KeyError (List ℕ)
secret_from_hex text = do
  raw ← hex_decode text
  guard (length raw == 32) (wrong_size (length raw))
  ok raw
