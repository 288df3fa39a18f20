-- ===== src/Proxy/Authenticate.antt =====
-- Whose requests are served (authenticate and authenticateOrAnonymous of internal/server/proxy.go).
use bouncer.Base.{
  ◌≡◌, inl, inr, sym, ap, ◌∙◌, Bool, true, false, not, ◌&&◌, Option, none, some, [], arith, drop,
  Str, bytes, str_eq, str_eq_iff, has_prefix, ok, guard, map_err, >>=-eq-ok, map_err-eq-ok,
  guard-eq-ok, not-eq-true, ok-injective, err-ne-ok, subst, Bool-cases, Option-cases, true-ne-false,
}
use bouncer.Base.Int.{ℤ}
use bouncer.Auth.Records.{AccessCreds, AccessToken, ServerKeys}
use bouncer.Auth.Library.{Library, Codec}
use bouncer.Auth.Verify.{verify_access_token}
use bouncer.Routing.{is_empty}
use bouncer.Evaluate.Programs.{Cel}
use bouncer.Proxy.Headers.{Fields, get_field}
use bouncer.Proxy.Body.{Decoders}
use bouncer.Proxy.Records.{ServedApi, Server, Plane, missing_bearer, no_credential, rejected}
use bouncer.Proxy.Handler.{authenticate, api_named, auth_optional_for, authenticate_or_anonymous}

second_true : (a b : Bool) → (a && b) ≡ true → b ≡ true
second_true a b h = ground arith

module _ (cel : Cel) (l : Library) (codec : Codec AccessCreds) where
  -- Nobody, where the request has no Authorization field and the matched API admits that; or the holder
  -- of a bearer that verifies and carries a credential.
  abbrev pub IsAuthentic : Server cel → Fields → Str → ℤ → Option AccessToken → Type 0
  IsAuthentic s fields matched now none =
      (get_field (bytes "Authorization") fields ≡ [])
      × ((api : ServedApi cel) × (api_named cel s.apis matched ≡ some api)
          × (api.auth_optional ≡ true))
  IsAuthentic s fields matched now (some tok) =
      (has_prefix (get_field (bytes "Authorization") fields) (bytes "Bearer ") ≡ true)
      × (verify_access_token l codec s.keys (drop 7 (get_field (bytes "Authorization") fields)) now
          ≡ ok tok)
      × ((str_eq tok.creds.access_token [] && is_empty tok.creds.headers) ≡ false)

  authenticate-inv :
      (keys : ServerKeys) (fields : Fields) (now : ℤ) (tok : AccessToken)
      → authenticate l codec keys fields now ≡ ok tok
      → (has_prefix (get_field (bytes "Authorization") fields) (bytes "Bearer ") ≡ true)
        × (verify_access_token l codec keys (drop 7 (get_field (bytes "Authorization") fields)) now
            ≡ ok tok)
        × ((str_eq tok.creds.access_token [] && is_empty tok.creds.headers) ≡ false)
  unfolding authenticate
  authenticate-inv keys fields now tok h =
      let hv = get_field (bytes "Authorization") fields in
      let (u, p, r0) = >>=-eq-ok (guard (has_prefix hv (bytes "Bearer ")) missing_bearer) _ h in
      let (t, v, r1) =
        >>=-eq-ok (map_err rejected (verify_access_token l codec keys (drop 7 hv) now)) _ r0 in
      let (w, c, r2) =
        >>=-eq-ok
          (guard (not (str_eq t.creds.access_token [] && is_empty t.creds.headers)) no_credential) _
          r1 in
      let same = ok-injective r2 in
      (
        guard-eq-ok (has_prefix hv (bytes "Bearer ")) missing_bearer p,
        map_err-eq-ok rejected _ v ∙ ap ok same,
        subst
            (λ (x : AccessToken).
              (str_eq x.creds.access_token [] && is_empty x.creds.headers) ≡ false)
            same (not-eq-true (guard-eq-ok _ no_credential c)),
      )

  auth_optional_for-inv :
      (apis : Server cel) (name : Str)
      → auth_optional_for cel apis.apis name ≡ true
      → (api : ServedApi cel) × (api_named cel apis.apis name ≡ some api)
        × (api.auth_optional ≡ true)
  unfolding auth_optional_for
  auth_optional_for-inv s name h = elim (Option-cases (api_named cel s.apis name)) [
    | inl n ↦ absurd (true-ne-false (sym (rw (n, auth_optional_for) at h)))
    | inr (api, e) ↦ (api, e, rw (e, auth_optional_for) at h)
  ]

  module _ (d : Decoders (cel.Body)) (plane : Plane cel) where
    pub authenticate_or_anonymous-IsAuthentic :
        (s : Server cel) (fields : Fields) (matched : Str) (now : ℤ) (tok : Option AccessToken)
        → authenticate_or_anonymous cel l codec d plane s fields matched now ≡ ok tok
        → IsAuthentic s fields matched now tok
    unfolding authenticate_or_anonymous
    authenticate_or_anonymous-IsAuthentic s fields matched now tok h =
        elim (Bool-cases (str_eq (get_field (bytes "Authorization") fields) [])) [
          | inl e ↦
              elim (Bool-cases (not (str_eq matched []) && auth_optional_for cel s.apis matched)) [
                | inl t ↦
                    subst (IsAuthentic s fields matched now)
                      (ok-injective (rw (e, t, authenticate_or_anonymous) at h))
                      (
                        (str_eq_iff (get_field (bytes "Authorization") fields) []).0 e,
                        auth_optional_for-inv s matched (second_true _ _ t),
                      )
                | inr t ↦ absurd (err-ne-ok (rw (e, t, authenticate_or_anonymous) at h))
              ]
          | inr e ↦
              let (t, a, r) =
                >>=-eq-ok (authenticate l codec s.keys fields now) _
                  (rw (e, authenticate_or_anonymous) at h) in
              subst (IsAuthentic s fields matched now) (ok-injective r)
                (authenticate-inv s.keys fields now t a)
        ]
