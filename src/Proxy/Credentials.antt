-- ===== src/Proxy/Credentials.antt =====
-- The credentials of a token reach the upstream, whatever the client sent (internal/server/proxy.go).
use bouncer.Base.{
  ◌≡◌, inl, inr, refl, ap, ◌∙◌, false, List, [], ◌∷◌, ◌++◌, append-nil, if◌then◌else◌, arith, All,
  Str, bytes, str_eq, str_eq_iff, str_eq_refl, Bool-cases,
}
use bouncer.Auth.Records.{AccessCreds, Header}
use bouncer.Proxy.Headers.{
  Fields, canonical_key, values, without_field, set_field, set_headers, apply_credentials,
  forwarded_fields,
}

values-append :
    (name : Str) (xs ys : Fields) → values name (xs ++ ys) ≡ values name xs ++ values name ys
unfolding values
values-append name [] ys = refl
values-append name ((n, v) ∷ xs) ys = ground (arith, values-append name xs ys)

values-without :
    (name other : Str) (fields : Fields)
    → values name (without_field other fields)
      ≡ (if str_eq other name then [] else values name fields)
unfolding values without_field
values-without name other [] = ground arith
values-without name other ((n, v) ∷ fields) = ground (
  arith,
  values-without name other fields,
  str_eq_iff n other,
  str_eq_iff n name,
  str_eq_iff other name,
)

values-set :
    (name other v : Str) (fields : Fields)
    → values name (set_field other v fields)
      ≡ (if str_eq (canonical_key other) name then v ∷ [] else values name fields)
unfolding set_field values
values-set name other v fields =
    let key = canonical_key other in
    let step =
      values-append name (without_field key fields) ((key, v) ∷ [])
      ∙ ap (λ l. l ++ values name ((key, v) ∷ [])) (values-without name key fields) in
    elim (Bool-cases (str_eq key name)) [
      | inl h ↦ step ∙ rw h refl
      | inr h ↦ step ∙ rw h (append-nil (values name fields))
    ]

-- No header of the list has the name in canonical form.
abbrev pub LacksName : Str → List Header → Type 0
LacksName name hs = All (λ (h : Header). str_eq (canonical_key h.name) name ≡ false) hs

pub values-set_headers :
    (name : Str) (hs : List Header) (fields : Fields)
    → LacksName name hs
    → values name (set_headers hs fields) ≡ values name fields
unfolding set_headers
values-set_headers name [] fields h = refl
values-set_headers name (x ∷ hs) fields (n, h) =
    values-set_headers name hs (set_field x.name x.value fields) h
    ∙ values-set name x.name x.value fields
    ∙ rw n refl

values-last :
    (before : List Header) (h : Header) (after : List Header) (fields : Fields)
    → LacksName (canonical_key h.name) after
    → values (canonical_key h.name) (set_headers (before ++ (h ∷ after)) fields) ≡ h.value ∷ []
unfolding set_headers
values-last [] h after fields l =
    values-set_headers (canonical_key h.name) after (set_field h.name h.value fields) l
    ∙ values-set (canonical_key h.name) h.name h.value fields
    ∙ rw (str_eq_refl (canonical_key h.name)) refl
values-last (x ∷ before) h after fields l =
    values-last before h after (set_field x.name x.value fields) l

-- The headers that the credentials set, in their order.
abbrev pub credential_headers : AccessCreds → List Header
credential_headers creds =
    let bearer : Header = record {
      name = bytes "Authorization";
      value = bytes "Bearer " ++ creds.access_token;
    } in
    if str_eq creds.access_token [] then creds.headers else bearer ∷ creds.headers

pub apply_credentials-eq :
    (creds : AccessCreds) (fields : Fields)
    → apply_credentials creds fields ≡ set_headers (credential_headers creds) fields
unfolding apply_credentials set_headers
apply_credentials-eq creds fields = elim (Bool-cases (str_eq creds.access_token [])) [
  | inl h ↦ rw h refl
  | inr h ↦ rw h refl
]

-- Whatever the client sent, each header of the credentials (the bearer, if there is an access token,
-- and then those of the token) has exactly the one value in the request to the upstream, unless a
-- later one of the credentials has the same name.
pub apply_credentials-values :
    (creds : AccessCreds) (client : Fields) (before : List Header) (h : Header)
    (after : List Header)
    → credential_headers creds ≡ before ++ (h ∷ after)
    → LacksName (canonical_key h.name) after
    → values (canonical_key h.name) (apply_credentials creds (forwarded_fields client))
      ≡ h.value ∷ []
apply_credentials-values creds client before h after e l =
    ap (values (canonical_key h.name)) (apply_credentials-eq creds (forwarded_fields client))
    ∙ ap (λ hs. values (canonical_key h.name) (set_headers hs (forwarded_fields client))) e
    ∙ values-last before h after (forwarded_fields client) l
