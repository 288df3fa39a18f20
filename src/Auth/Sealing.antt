-- ===== src/Auth/Sealing.antt =====
-- The encryption of payloads (encryptCreds and decryptCreds of internal/auth/auth.go). The nonce that
-- rand.Read gives, or its error, is an argument.
use bouncer.Base.{
  ◌++◌, ltb, not, length, take, drop, Str, Outcome, ok, ◌>>=◌, ◌>>◌, guard, map_err, to_outcome,
}
use bouncer.Z85.{DecodeError}
use bouncer.Auth.Library.{Library, Codec}

pub data AuthError : Type 0 where
  marshal_creds aead_init rand_nonce sign_jwt parse_jwt aead_decrypt unmarshal_creds :
      Str → AuthError
  decode_enc : DecodeError → AuthError
  wrong_typ : Str → Str → AuthError
  token_invalid missing_enc too_short missing_token_url : AuthError

module _ (l : Library) where
  unfoldable pub encrypt_creds :
      {A : Type 0} → Codec A → Str → Outcome Str Str → A → Outcome AuthError Str
  encrypt_creds c key nonce creds = do
    text ← map_err marshal_creds (c.marshal creds)
    _ ← map_err aead_init (to_outcome (l.new_aead key) (tt {0}))
    n ← map_err rand_nonce nonce
    ok (n ++ l.seal key n text)

  unfoldable pub decrypt_creds : {A : Type 0} → Codec A → Str → Str → Outcome AuthError A
  decrypt_creds c key blob = do
    _ ← map_err aead_init (to_outcome (l.new_aead key) (tt {0}))
    guard (not (ltb (length blob) l.nonce_size)) too_short
    let nonce = take l.nonce_size blob
    let sealed = drop l.nonce_size blob
    text ← map_err aead_decrypt (l.unseal key nonce sealed)
    map_err unmarshal_creds (c.unmarshal text)
