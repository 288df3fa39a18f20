-- ===== src/Messages.antt =====
-- The request message of proto/core.proto (internal/pb) that policies see.
use bouncer.Base.{List, Str}

-- `B` is the decoded JSON body, a `google.protobuf.Value`.
pub record Request (B : Type 0) : Type 0 where
  pub method : Str
  pub path : Str
  pub path_segments : List Str
  pub query : List (Str × Str)
  pub body : B
