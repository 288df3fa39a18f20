-- ===== src/Proxy/Records.antt =====
-- The state and the messages of the data plane (internal/server/proxy.go): the APIs of the runtime
-- with their routes, what arrives and what is sent. The clients and clocks are parameters.
use bouncer.Base.{ℕ, Bool, Option, List, Str, Outcome}
use bouncer.Base.Dict.{Dict}
use bouncer.Auth.Records.{ServerKeys, AccessCreds}
use bouncer.Auth.Sealing.{AuthError}
use bouncer.Routing.{PrefixRoute}
use bouncer.PolicyStore.{PolicyStore}
use bouncer.Evaluate.Programs.{Cel, EvalError}
use bouncer.Evaluate.{Action}
use bouncer.Proxy.Headers.{Fields}
use bouncer.Proxy.Target.{Target}

-- What the data plane reads of an `APIRuntime`. An override of 0 is none.
pub record ServedApi (cel : Cel) : Type 0 where
  pub name : Str
  pub metas : Dict (cel.Meta)
  pub actions : List (Action (cel.Program))
  pub store : PolicyStore (cel.Program)
  pub access_denied_status : ℕ
  pub auth_optional : Bool
  pub base_url : Target

-- What the data plane reads of a `Server`: its keys and its runtime.
pub record Server (cel : Cel) : Type 0 where
  pub keys : ServerKeys
  pub routes : List PrefixRoute
  pub apis : List (ServedApi cel)

-- What reading a body gives, under the limit of `MaxBytesReader`.
pub data BodyRead : Type 0 where
  read_body : Str → BodyRead
  too_large : BodyRead
  read_failed : Str → BodyRead

-- A request to the proxy; `query` has the values by their keys.
pub record Inbound : Type 0 where
  pub method : Str
  pub escaped_path : Str
  pub raw_query : Str
  pub query : List (Str × List Str)
  pub fields : Fields
  pub body : BodyRead

-- A request forwarded to an upstream.
pub record Outbound : Type 0 where
  pub method : Str
  pub target : Target
  pub body : Str
  pub fields : Fields

pub record Answer : Type 0 where
  pub status : ℕ
  pub fields : Fields

-- What the client is told: a plain error, a denial with the status on the wire and the one it stands
-- for, or the upstream's answer. `panicked` is the use of a nil runtime.
pub data Reply : Type 0 where
  failed : ℕ → Str → Reply
  denied : ℕ → ℕ → Reply
  relayed : Answer → Reply
  panicked : Reply

pub data AuthFailure : Type 0 where
  missing_bearer no_credential : AuthFailure
  rejected : AuthError → AuthFailure

-- The principal message, the upstream world of a request's credentials, the status of an upstream
-- error within an evaluation's, and the HTTP client.
pub record Plane (cel : Cel) : Type 0 where
  pub principal_of : Str → Str → cel.Principal
  pub world_of : AccessCreds → cel.World
  pub upstream_status : EvalError → Option ℕ
  pub new_request_error : Str → Target → Option Str
  pub send : Outbound → Outcome Str Answer
