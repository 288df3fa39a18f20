-- ===== src/Proxy/Outbound.antt =====
-- What becomes of each header that a client sends (internal/server/proxy.go).
use bouncer.Base.{
  ◌≡◌, ◌⊎◌, inl, inr, refl, sym, ap, ◌∙◌, Bool, true, ◌||◌, List, [], ◌∷◌, if◌then◌else◌, arith,
  Among, Str, bytes, str_eq_iff, to_lower, Bool-cases, true-ne-false,
}
use bouncer.Auth.Records.{AccessCreds}
use bouncer.Proxy.Headers.{
  Fields, values, is_one_of, should_strip_forwarded, connection_named_headers, copy_fields,
  forwarded_fields, apply_credentials,
}
use bouncer.Proxy.Credentials.{
  LacksName, credential_headers, apply_credentials-eq, values-set_headers,
}
use bouncer.Proxy.Connection.{
  ConnectionNames, is_one_of-Among, Among-is_one_of, connection-names, names-connection,
}

-- What a client's credentials, cookies and claims on its own origin go by, and what is about one
-- connection only, in lower case.
abbrev pub withheld_names : List Str
withheld_names =
    bytes "host"
    ∷ bytes "authorization"
    ∷ bytes "content-length"
    ∷ bytes "connection"
    ∷ bytes "keep-alive"
    ∷ bytes "cookie"
    ∷ bytes "set-cookie"
    ∷ bytes "proxy-authenticate"
    ∷ bytes "proxy-authorization"
    ∷ bytes "te"
    ∷ bytes "trailer"
    ∷ bytes "transfer-encoding"
    ∷ bytes "upgrade"
    ∷ bytes "forwarded"
    ∷ bytes "x-forwarded-for"
    ∷ bytes "x-forwarded-host"
    ∷ bytes "x-forwarded-proto"
    ∷ bytes "x-real-ip"
    ∷ []

abbrev pub IsWithheld : Fields → Str → Type 0
IsWithheld client name = Among (to_lower name) withheld_names ⊎ ConnectionNames client name

values-copy :
    (name : Str) (named : List Str) (fields : Fields)
    → values name (copy_fields named fields)
      ≡ (if should_strip_forwarded name || is_one_of name named then [] else values name fields)
unfolding values copy_fields
values-copy name named [] = ground arith
values-copy name named ((n, v) ∷ fields) =
    ground (arith, values-copy name named fields, str_eq_iff n name)

strip-withheld :
    (name : Str) → should_strip_forwarded name ≡ true → Among (to_lower name) withheld_names
unfolding should_strip_forwarded
strip-withheld name h = is_one_of-Among (to_lower name) withheld_names h

withheld-strip :
    (name : Str) → Among (to_lower name) withheld_names → should_strip_forwarded name ≡ true
unfolding should_strip_forwarded
withheld-strip name h = Among-is_one_of (to_lower name) withheld_names h

outbound-copied :
    (creds : AccessCreds) (client : Fields) (name : Str)
    → LacksName name (credential_headers creds)
    → values name (apply_credentials creds (forwarded_fields client)) ≡ (
        if should_strip_forwarded name || is_one_of name (connection_named_headers client)
        then []
        else values name client)
unfolding forwarded_fields
outbound-copied creds client name lacks =
    ap (values name) (apply_credentials-eq creds (forwarded_fields client))
    ∙ values-set_headers name (credential_headers creds) (forwarded_fields client) lacks
    ∙ values-copy name (connection_named_headers client) client

or_cases : (a b : Bool) → (a || b) ≡ true → (a ≡ true) ⊎ (b ≡ true)
or_cases a b h = ground arith

or_left : (a b : Bool) → a ≡ true → (a || b) ≡ true
or_left a b h = ground arith

or_right : (a b : Bool) → b ≡ true → (a || b) ≡ true
or_right a b h = ground arith

-- Of a header that the credentials do not set, the request to the upstream has no value, if its name
-- is one of those listed, whatever the case of its letters, or the client's `Connection` field names
-- it; and otherwise it has the values that the client sent, in their order.
pub outbound-values :
    (creds : AccessCreds) (client : Fields) (name : Str)
    → LacksName name (credential_headers creds)
    → (IsWithheld client name
        × (values name (apply_credentials creds (forwarded_fields client)) ≡ []))
      ⊎ (¬ IsWithheld client name
          × (values name (apply_credentials creds (forwarded_fields client)) ≡ values name client))
outbound-values creds client name lacks =
    let copied = outbound-copied creds client name lacks in
    let strip = should_strip_forwarded name in
    let named = is_one_of name (connection_named_headers client) in
    elim (Bool-cases (strip || named)) [
      | inl h ↦
          let withheld : IsWithheld client name = elim (or_cases strip named h) [
            | inl a ↦ inl (strip-withheld name a)
            | inr b ↦ inr (connection-names client name b)
          ] in
          inl (withheld, copied ∙ rw h refl)
      | inr h ↦
          let passes : ¬ IsWithheld client name = λ w. elim w [
            | inl a ↦ true-ne-false (sym (or_left strip named (withheld-strip name a)) ∙ h)
            | inr b ↦
                true-ne-false (sym (or_right strip named (names-connection client name b)) ∙ h)
          ] in
          inr (passes, copied ∙ rw h refl)
    ]
