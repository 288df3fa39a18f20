-- ===== src/Proxy/Forwarding.antt =====
-- Lemmas on the steps by which a request reaches an upstream (handle of internal/server/proxy.go).
use bouncer.Base.{
  ◌≡◌, ◌≢◌, inl, inr, refl, sym, ap, ◌∙◌, true, not, Option, none, some, List, [], ◌∷◌, ◌++◌, arith,
  All, Str, bytes, str_eq, str_eq_iff, has_prefix, ok, guard, >>=-eq-ok, ok-injective,
  some-injective, err-ne-ok, subst, Bool-cases, Option-cases, Outcome-cases,
}
use bouncer.Base.Int.{ℤ}
use bouncer.Auth.Records.{AccessCreds, AccessToken}
use bouncer.Auth.Library.{Library, Codec}
use bouncer.Messages.{Request}
use bouncer.Models.{PolicyResult, permit, deny, unset, unknown}
use bouncer.UrlPath.{path_unescape, split_escaped_path}
use bouncer.Routing.{route_request}
use bouncer.Evaluate.Programs.{Cel, EvalError}
use bouncer.Evaluate.{Run, evaluate}
use bouncer.Proxy.Headers.{get_field, forwarded_fields, apply_credentials}
use bouncer.Proxy.Target.{
  Target, join_path, protocol_relative, scheme_in_path, whitespace, cut_at, contains, has_blank,
  trim_slash, with_slash,
}
use bouncer.Proxy.Body.{Decoders, build_policy_request}
use bouncer.Proxy.Records.{
  ServedApi, Server, Inbound, BodyRead, read_body, too_large, read_failed, Outbound, Plane,
}
use bouncer.Proxy.Handler.{
  is_permit, api_named, Evaluated, unclaimed, unregistered, evaluated, runtime_evaluate,
  authenticate_or_anonymous, creds_of, build_principal, forward, serve_evaluated, serve_body,
  serve_routed, handle,
}

-- Joining a path leaves the site as it is.
join_path-site :
    (base : Target) (path : Str) (t : Target) → join_path base path ≡ ok t → t.site ≡ base.site
unfolding join_path
join_path-site base path t h =
    let (u, _, r0) =
      >>=-eq-ok (guard (not (has_prefix path (bytes "//"))) (protocol_relative path)) _ h in
    let (v, _, r1) =
      >>=-eq-ok (guard (not (contains (cut_at b'?' path).0 (bytes "://"))) (scheme_in_path path)) _
        r0 in
    let (w, _, r2) = >>=-eq-ok (guard (not (has_blank path)) (whitespace path)) _ r1 in
    let joined = with_slash base.path ++ (cut_at b'?' (cut_at b'#' (trim_slash path)).0).0 in
    elim (Option-cases (path_unescape joined)) [
      | inl n ↦ absurd (err-ne-ok (rw n at r2))
      | inr (x, e) ↦ sym (ap (λ (y : Target). y.site) (ok-injective (rw e at r2)))
    ]

is_permit-inv : (r : PolicyResult) → is_permit r ≡ true → r ≡ permit
is_permit-inv permit h = refl
is_permit-inv deny h = cc
is_permit-inv unset h = cc
is_permit-inv (unknown x) h = cc

nothing_sent {ℓ} : {A : Type ℓ} {x : A} {xs : List A} → ◌≢◌ {A = List A} [] (x ∷ xs)
nothing_sent h = cc

module _ (cel : Cel) where
  pub api_named-name :
      (apis : List (ServedApi cel)) (name : Str) (api : ServedApi cel)
      → api_named cel apis name ≡ some api
      → api.name ≡ name
  unfolding api_named
  api_named-name [] name api h = cc
  api_named-name (a ∷ apis) name api h = elim (Bool-cases (str_eq a.name name)) [
    | inl e ↦
        ap (λ (x : ServedApi cel). x.name) (sym (some-injective (rw (e, api_named) at h)))
        ∙ (str_eq_iff a.name name).0 e
    | inr e ↦ api_named-name apis name api (rw (e, api_named) at h)
  ]

  pub api_named-All :
      (P : ServedApi cel → Type 0) (apis : List (ServedApi cel)) (name : Str) (api : ServedApi cel)
      → All P apis
      → api_named cel apis name ≡ some api
      → P api
  unfolding api_named
  api_named-All P [] name api ps h = cc
  api_named-All P (a ∷ apis) name api (p, ps) h = elim (Bool-cases (str_eq a.name name)) [
    | inl e ↦ subst P (some-injective (rw (e, api_named) at h)) p
    | inr e ↦ api_named-All P apis name api ps (rw (e, api_named) at h)
  ]

  abbrev Answered : Type 0
  Answered = PolicyResult × Option EvalError

  unclaimed-ne :
      {api : ServedApi cel} {x : Answered} {run : Run (cel.Value) (cel.World)}
      → ◌≢◌ {A = Evaluated cel} unclaimed (evaluated api x run)
  unclaimed-ne h = cc

  unregistered-ne :
      {api : ServedApi cel} {x : Answered} {run : Run (cel.Value) (cel.World)}
      → ◌≢◌ {A = Evaluated cel} unregistered (evaluated api x run)
  unregistered-ne h = cc

  evaluated-injective :
      {a b : ServedApi cel} {x y : Answered} {p q : Run (cel.Value) (cel.World)}
      → ◌≡◌ {A = Evaluated cel} (evaluated a x p) (evaluated b y q)
      → (a ≡ b) × (x ≡ y) × (p ≡ q)
  evaluated-injective h = (cc, cc, cc)

  -- The routed API and its evaluation.
  pub runtime_evaluate-inv :
      (s : Server cel) (req : Request (cel.Body)) (who : cel.Principal) (time : cel.Time)
      (w : cel.World) (api : ServedApi cel) (answer : PolicyResult × Option EvalError)
      (run : Run (cel.Value) (cel.World))
      → runtime_evaluate cel s req who time w ≡ evaluated api answer run
      → (api_named cel s.apis (route_request s.routes req.path_segments) ≡ some api)
        × (evaluate cel api.metas api.actions api.store req (some who) time w ≡ (answer, run))
  unfolding runtime_evaluate
  runtime_evaluate-inv s req who time w api answer run h =
      let name = route_request s.routes req.path_segments in
      elim (Bool-cases (str_eq name [])) [
        | inl e ↦ absurd (unclaimed-ne (rw (e, runtime_evaluate) at h))
        | inr e ↦ elim (Option-cases (api_named cel s.apis name)) [
          | inl n ↦ absurd (unregistered-ne (rw (e, n, runtime_evaluate) at h))
          | inr (found, n) ↦
              let (a, x, p) = evaluated-injective (rw (e, n, runtime_evaluate) at h) in
              (
                n ∙ ap some a,
                ap
                      (λ (y : ServedApi cel).
                        evaluate cel y.metas y.actions y.store req (some who) time w)
                      (sym a)
                    ∙ (λ i. (x i, p i)),
              )
        ]
      ]

  module _ (l : Library) (codec : Codec AccessCreds) (d : Decoders (cel.Body))
      (plane : Plane cel) where
    -- What `forward` sends.
    pub forward-sent :
        (r : Inbound) (body : Str) (creds : AccessCreds) (base : Target) (out : Outbound)
        (more : List Outbound)
        → (forward cel l codec d plane r body creds base).1 ≡ out ∷ more
        → (more ≡ [])
          × (out.fields ≡ apply_credentials creds (forwarded_fields r.fields))
          × (out.target.site ≡ base.site)
          × (out.body ≡ body)
          × (out.method ≡ r.method)
          × (out.target.raw_query ≡ r.raw_query)
    unfolding forward
    forward-sent r body creds base out more h =
        elim (Outcome-cases (join_path base r.escaped_path)) [
          | inr (e, j) ↦ absurd (ground arith)
          | inl (t, j) ↦
              elim (Option-cases
                (plane.new_request_error r.method (record t { raw_query = r.raw_query }))) [
                  | inr (e, n) ↦ absurd (ground arith)
                  | inl n ↦
                      let made : Outbound = record {
                        method = r.method;
                        target = record t { raw_query = r.raw_query };
                        body = body;
                        fields = apply_credentials creds (forwarded_fields r.fields);
                      } in
                      let shown : (made ∷ []) ≡ (out ∷ more) = rw (j, n, forward) at h in
                      let same : out ≡ made = cc in
                      (
                        cc,
                        ap (λ (x : Outbound). x.fields) same,
                        ap (λ (x : Outbound). x.target.site) same
                            ∙ join_path-site base r.escaped_path t j,
                        ap (λ (x : Outbound). x.body) same,
                        ap (λ (x : Outbound). x.method) same,
                        ap (λ (x : Outbound). x.target.raw_query) same,
                      )
                ]
        ]

    -- After the evaluation, something is sent only on a permit.
    pub serve_evaluated-sent :
        (s : Server cel) (r : Inbound) (body : Str) (creds : AccessCreds) (e : Evaluated cel)
        (out : Outbound) (more : List Outbound)
        → (serve_evaluated cel l codec d plane s r body creds e).1 ≡ out ∷ more
        → (api : ServedApi cel) × (run : Run (cel.Value) (cel.World)) × (found : ServedApi cel) × (e
            ≡ evaluated api (permit, none) run)
          × (api_named cel s.apis api.name ≡ some found)
          × ((forward cel l codec d plane r body creds found.base_url).1 ≡ out ∷ more)
    unfolding serve_evaluated
    serve_evaluated-sent s r body creds unclaimed out more h = absurd (nothing_sent h)
    serve_evaluated-sent s r body creds unregistered out more h = absurd (nothing_sent h)
    serve_evaluated-sent s r body creds (evaluated api (result, some e) run) out more h =
        absurd (nothing_sent h)
    serve_evaluated-sent s r body creds (evaluated api (result, none) run) out more h =
        elim (Bool-cases (is_permit result)) [
          | inr p ↦ absurd (nothing_sent (rw (p, serve_evaluated) at h))
          | inl p ↦ elim (Option-cases (api_named cel s.apis api.name)) [
            | inl n ↦ absurd (nothing_sent (rw (p, n, serve_evaluated) at h))
            | inr (found, n) ↦ (
              api,
              run,
              found,
              ap (λ x. evaluated api (x, none) run) (is_permit-inv result p),
              n,
              rw (p, n, serve_evaluated) at h,
            )
          ]
        ]

    pub serve_body-sent :
        (s : Server cel) (r : Inbound) (segs : List Str) (tok : Option AccessToken)
        (time : cel.Time) (read : BodyRead) (out : Outbound) (more : List Outbound)
        → (serve_body cel l codec d plane s r segs tok time read).1 ≡ out ∷ more
        → (body : Str) × (req : Request (cel.Body)) × (read ≡ read_body body)
          × (build_policy_request d r.method segs r.query
                (get_field (bytes "Content-Type") r.fields)
                body
              ≡ ok req)
          × ((serve_evaluated cel l codec d plane s r body (creds_of tok) (
                runtime_evaluate cel s req
                  (build_principal cel l codec d plane tok)
                  time
                  (plane.world_of (creds_of tok)))).1
              ≡ out ∷ more)
    unfolding serve_body
    serve_body-sent s r segs tok time too_large out more h = absurd (nothing_sent h)
    serve_body-sent s r segs tok time (read_failed e) out more h = absurd (nothing_sent h)
    serve_body-sent s r segs tok time (read_body body) out more h =
        elim (Outcome-cases (
          build_policy_request d r.method segs r.query (get_field (bytes "Content-Type") r.fields)
            body)) [
              | inr (e, b) ↦ absurd (nothing_sent (rw (b, serve_body) at h))
              | inl (req, b) ↦ (body, req, refl, b, rw (b, serve_body) at h)
            ]

    pub handle-routed :
        (s : Server cel) (r : Inbound) (now : ℤ) (time : cel.Time) (out : Outbound)
        (more : List Outbound)
        → (handle cel l codec d plane s r now time).1 ≡ out ∷ more
        → (segs : List Str) × (tok : Option AccessToken) × (split_escaped_path r.escaped_path
            ≡ some segs)
          × (authenticate_or_anonymous cel l codec d plane s r.fields
                (route_request s.routes segs)
                now
              ≡ ok tok)
          × ((serve_body cel l codec d plane s r segs tok time r.body).1 ≡ out ∷ more)
    unfolding handle serve_routed
    handle-routed s r now time out more h =
        elim (Option-cases (split_escaped_path r.escaped_path)) [
          | inl n ↦ absurd (nothing_sent (rw (n, handle) at h))
          | inr (segs, e) ↦
              let routed : (serve_routed cel l codec d plane s r segs now time).1 ≡ out ∷ more =
                rw (e, handle) at h in
              elim (Outcome-cases (
                authenticate_or_anonymous cel l codec d plane s r.fields
                  (route_request s.routes segs) now)) [
                    | inr (x, a) ↦ absurd (nothing_sent (rw (a, serve_routed) at routed))
                    | inl (tok, a) ↦ (segs, tok, e, a, rw (a, serve_routed) at routed)
                  ]
        ]
