-- ===== src/Proxy/Handler.antt =====
-- The handler of proxied requests (handle and its helpers in internal/server/proxy.go, Evaluate in
-- internal/runtime/runtime.go). Its result is the reply, with the requests forwarded to
-- upstreams. What a condition fetches upstream during the evaluation is in the world, not among them.
use bouncer.Base.{
  ℕ, Bool, true, false, not, ◌&&◌, Option, none, some, List, [], ◌∷◌, if◌then◌else◌, drop, ◌==◌,
  Str, bytes, str_eq, has_prefix, Outcome, ok, err, ◌>>=◌, ◌>>◌, guard, map_err,
}
use bouncer.Base.Int.{ℤ}
use bouncer.Auth.Records.{ServerKeys, AccessCreds, AccessToken}
use bouncer.Auth.Library.{Library, Codec}
use bouncer.Auth.Verify.{verify_access_token}
use bouncer.Messages.{Request}
use bouncer.Models.{PolicyResult, permit}
use bouncer.UrlPath.{split_escaped_path}
use bouncer.Routing.{route_request, is_empty}
use bouncer.Evaluate.Programs.{Cel, EvalError}
use bouncer.Evaluate.{Run, evaluate}
use bouncer.Proxy.Headers.{Fields, get_field, forwarded_fields, apply_credentials}
use bouncer.Proxy.Target.{Target, join_path}
use bouncer.Proxy.Body.{Decoders, build_policy_request}
use bouncer.Proxy.Records.{
  ServedApi, Server, Inbound, BodyRead, read_body, too_large, read_failed, Outbound, Answer, Reply,
  failed, denied, relayed, panicked, AuthFailure, missing_bearer, no_credential, rejected, Plane,
}

abbrev pub Served : Type 0
Served = Reply × List Outbound

abbrev pub is_permit : PolicyResult → Bool
is_permit permit = true
is_permit _ = false

module _ (l : Library) (codec : Codec AccessCreds) where
  unfoldable pub authenticate : ServerKeys → Fields → ℤ → Outcome AuthFailure AccessToken
  authenticate keys fields now = do
    let hv = get_field (bytes "Authorization") fields
    guard (has_prefix hv (bytes "Bearer ")) missing_bearer
    tok ← map_err rejected (verify_access_token l codec keys (drop 7 hv) now)
    guard (not (str_eq tok.creds.access_token [] && is_empty tok.creds.headers)) no_credential
    ok tok

-- The credentials of an anonymous request are empty.
abbrev pub creds_of : Option AccessToken → AccessCreds
creds_of none = record { access_token = []; headers = [] }
creds_of (some tok) = tok.creds

module _ (cel : Cel) where
  -- `s.runtime.API(name)`
  unfoldable pub api_named : List (ServedApi cel) → Str → Option (ServedApi cel)
  api_named [] name = none
  api_named (a ∷ apis) name =
      let rest = api_named apis name in if str_eq a.name name then some a else rest

  unfoldable pub denied_status_for : List (ServedApi cel) → Str → ℕ → ℕ
  denied_status_for apis name status =
      if str_eq name [] then status else elim (api_named apis name) [
        | none ↦ status
        | some api ↦ if api.access_denied_status == 0 then status else api.access_denied_status
      ]

  unfoldable pub auth_optional_for : List (ServedApi cel) → Str → Bool
  auth_optional_for apis name = elim (api_named apis name) [
    | none ↦ false
    | some api ↦ api.auth_optional
  ]

  -- The routed API, if a route claims the path, and what its evaluation gave.
  pub data Evaluated : Type 0 where
    unclaimed : Evaluated
    unregistered : Evaluated
    evaluated :
        ServedApi cel → PolicyResult × Option EvalError → Run (cel.Value) (cel.World) → Evaluated

  -- `Runtime.Evaluate`, on a principal that is not nil
  unfoldable pub runtime_evaluate :
      Server cel → Request (cel.Body) → cel.Principal → cel.Time → cel.World → Evaluated
  runtime_evaluate s req who time w =
      let name = route_request s.routes req.path_segments in
      if str_eq name [] then unclaimed else elim (api_named s.apis name) [
        | none ↦ unregistered
        | some api ↦
            let (answer, run) =
              evaluate cel api.metas api.actions api.store req (some who) time w in
            evaluated api answer run
      ]

  module _ (l : Library) (codec : Codec AccessCreds) (d : Decoders (cel.Body))
      (plane : Plane cel) where
    -- The token, or none for an anonymous request.
    unfoldable pub authenticate_or_anonymous :
        Server cel → Fields → Str → ℤ → Outcome AuthFailure (Option AccessToken)
    authenticate_or_anonymous s fields matched now =
        if str_eq (get_field (bytes "Authorization") fields) []
        then if not (str_eq matched []) && auth_optional_for s.apis matched
          then ok none
          else err missing_bearer
        else authenticate l codec s.keys fields now >>= λ tok. ok (some tok)

    -- `buildPrincipal`
    unfoldable pub build_principal : Option AccessToken → cel.Principal
    build_principal none = plane.principal_of [] (bytes "anonymous")
    build_principal (some tok) = plane.principal_of tok.subject (bytes "agent")

    unfoldable pub classify_eval_error : EvalError → ℕ
    classify_eval_error e = elim (plane.upstream_status e) [
      | none ↦ 403
      | some status ↦
          if status == 401
          then 401
          else if status == 403
          then 403
          else if status == 404
          then 404
          else 502
    ]

    unfoldable pub reply_of : Outcome Str Answer → Reply
    reply_of (err e) = failed 502 (bytes "bad gateway")
    reply_of (ok answer) = relayed (record answer { fields = forwarded_fields answer.fields })

    unfoldable pub forward : Inbound → Str → AccessCreds → Target → Served
    forward r body creds base = elim (join_path base r.escaped_path) [
      | err e ↦ (failed 502 (bytes "bad gateway"), [])
      | ok joined ↦
          let target : Target = record joined { raw_query = r.raw_query } in
          elim (plane.new_request_error r.method target) [
            | some e ↦ (failed 502 (bytes "bad gateway"), [])
            | none ↦
                let out : Outbound = record {
                  method = r.method;
                  target = target;
                  body = body;
                  fields = apply_credentials creds (forwarded_fields r.fields);
                } in
                (reply_of (plane.send out), out ∷ [])
          ]
    ]

    -- From the evaluation on.
    unfoldable pub serve_evaluated : Server cel → Inbound → Str → AccessCreds → Evaluated → Served
    serve_evaluated s r body creds unclaimed = (denied 404 404, [])
    serve_evaluated s r body creds unregistered = (panicked, [])
    serve_evaluated s r body creds (evaluated api (result, some e) run) =
        let status = classify_eval_error e in
        (denied (denied_status_for s.apis api.name status) status, [])
    serve_evaluated s r body creds (evaluated api (result, none) run) =
        if is_permit result
        then elim (api_named s.apis api.name) [
          | none ↦ (failed 500 (bytes "server error"), [])
          | some found ↦ forward r body creds found.base_url
        ]
        else (denied (denied_status_for s.apis api.name 403) 403, [])

    -- From the body on, with the token.
    unfoldable pub serve_body :
        Server cel → Inbound → List Str → Option AccessToken → cel.Time → BodyRead → Served
    serve_body s r segs tok time too_large = (failed 413 (bytes "request body too large"), [])
    serve_body s r segs tok time (read_failed e) = (failed 500 (bytes "read body"), [])
    serve_body s r segs tok time (read_body body) =
        elim (build_policy_request d r.method segs r.query
          (get_field (bytes "Content-Type") r.fields) body) [
            | err e ↦ (failed 400 (bytes "bad request"), [])
            | ok req ↦
                serve_evaluated s r body (creds_of tok) (
                  runtime_evaluate s req (build_principal tok) time (plane.world_of (creds_of tok)))
          ]

    -- From the route on.
    unfoldable pub serve_routed : Server cel → Inbound → List Str → ℤ → cel.Time → Served
    serve_routed s r segs now time =
        let matched = route_request s.routes segs in
        elim (authenticate_or_anonymous s r.fields matched now) [
          | err e ↦ (denied (denied_status_for s.apis matched 401) 401, [])
          | ok tok ↦ serve_body s r segs tok time r.body
        ]

    unfoldable pub handle : Server cel → Inbound → ℤ → cel.Time → Served
    handle s r now time = elim (split_escaped_path r.escaped_path) [
      | none ↦ (failed 400 (bytes "bad request"), [])
      | some segs ↦ serve_routed s r segs now time
    ]
