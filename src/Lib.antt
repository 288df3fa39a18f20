-- ===== src/Lib.antt =====
-- Verification of Bouncer, a proxy that stands between agents and HTTP APIs and lets a request pass
-- only if the operator's policies permit it.
--
-- A request's path is split into segments (internal/runtime/compiled/path.go) and routed to the API
-- whose declared prefix claims it (internal/runtime/runtime.go). The API's runtime
-- (internal/runtime/api.go) matches the request against its actions, each a path template and a CEL
-- filter, and walks its policies, deny policies first, until one's condition holds; by default it
-- denies. The proxy (internal/server/proxy.go) does so for each request of an agent and forwards those
-- that are permitted, with the upstream's credentials in place of the agent's. Policies are kept in a
-- store per API, which the control plane edits and which is filled at boot from a durable store; agents
-- draft policies as proposals (internal/control/proposals), which go live when a reviewer approves
-- them. Agents present access tokens that carry the upstream's credentials encrypted (internal/auth),
-- and renew them at POST
-- /token (internal/server/oauth).
--
-- Files:
--   Base        shared types and lemmas: native lists, byte strings, maps with string keys, results
--   Messages    the request message of proto/core.proto
--   UrlPath     `SplitPath`, `SplitEscapedPath` and `JoinSegments` of compiled/path.go
--   Template    `ParsePathTemplate` and `PathTemplate.Match` of compiled/path.go
--   Z85         internal/auth/z85/z85.go: `Encode` and `Decode`
--   Routing     `buildPrefixRoutes`, `hasSegmentPrefix` and `routeRequest` of runtime.go
--   Models      the policy of internal/runtime/models/types.go
--   PolicyStore `policyStore` of api.go, whose mutex makes each method one step on two lists
--   Evaluate    `Action.Match` and `EvalBinds` (compiled/action.go), the `Eval` methods
--               (compiled/compiled.go), `Policy` (compiled/policy.go), `APIRuntime.Evaluate` (api.go)
--   Proposals   `Service` of internal/control/proposals/proposals.go
--   PolicyRuntime  `NewPolicy` (compiled/policy.go) and the policy methods of api.go and runtime.go
--   PolicyService  `Service` of internal/control/policies/policies.go, and `LayeredStore` of
--               layered_store.go
--   Traffic     the in-memory store of internal/control/traffic, without the pages of `List`
--   Auth        internal/auth/auth.go, secret.go and caller.go: the keys, `IssueAccessToken`,
--               `IssueRefreshToken`, `VerifyAccessToken` and `VerifyRefreshToken`
--   Oauth       internal/server/oauth/oauth.go: `ServeHTTP`, `exchange`, `issueResponse`
--   Proxy       internal/server/proxy.go: `handle` with what it calls; `JoinPath` and `DropJSONNulls`
--               of internal/apiclient/http.go; `Runtime.Evaluate` of runtime.go
--   Examples    runs on concrete inputs
--
-- A function keeps its name, in snake case. A Go string or byte slice is a list of native numbers. An
-- error is a value of the component's own type, which carries what the message names. The loops are
-- structural recursion, so that no fuel is needed; words of 32 bits are taken modulo 2 ^ 32.
--
-- CEL programs are a parameter (`Cel`): a program is evaluated on the variables that the code sets,
-- and a condition may change a world, which holds what is fetched upstream. The observers of an
-- evaluation are its record of calls. The meta requests that a fetch sends are not listed anywhere: they
-- belong to the world. The store of proposals and the policy service are a parameter
-- (`Backend`) with laws (`StoreLaws`), and so are the durable store of policies (`Durable`, with
-- `TableLaws` where its list matters) and the compilation of a CEL source. Upper-casing a method is
-- that of ASCII, and `url.PathUnescape` is written out as its documentation describes it.
--
-- What internal/auth calls (HKDF, Ed25519, ChaCha20-Poly1305, JSON, golang-jwt) is a parameter
-- (`Library`) with laws (`Laws`, `CodecLaws`). JSON changes strings that are not valid UTF-8, which
-- `to_text` stands for; it keeps ASCII. The law that one key does not open what another sealed
-- holds of the real cipher up to computing power. Times and durations are integers of nanoseconds:
-- `int64` products wrap, and differences of times saturate. Each reading of the clock, each nonce
-- and the HTTP client are arguments.
--
-- The proxy's decoders of bodies (`Decoders`) and its HTTP client (`Plane`) are parameters with no laws.
-- A header is the list of its fields in the order of arrival, under names in canonical form; what
-- `TrimSpace` drops is white space in ASCII. A response's body is not modelled.
--
-- Not modelled: the compilation of CEL sources, persistence in files and SQL, the HTTP servers and
-- clients, certificates, the command line, logging and metrics, which are I/O or glue over libraries.
pub mod Base
pub mod Auth
pub mod Oauth
pub mod Messages
pub mod UrlPath
pub mod Template
pub mod Z85
pub mod Routing
pub mod Models
pub mod PolicyStore
pub mod Evaluate
pub mod Proposals
pub mod Traffic
pub mod PolicyRuntime
pub mod PolicyService
pub mod Proxy
pub mod Examples
