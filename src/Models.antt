-- ===== src/Models.antt =====
-- The policy schema (internal/runtime/models/types.go).
use bouncer.Base.{Str, Outcome, ok, err}

-- The string type `PolicyResult`: its two constants, the empty string, and any other string.
pub data PolicyResult : Type 0 where
  permit deny unset : PolicyResult
  unknown : Str → PolicyResult

pub data ResultError : Type 0 where
  result_required : ResultError
  result_unknown : Str → ResultError

-- `PolicyResult.Validate`
unfoldable pub validate_result : PolicyResult → Outcome ResultError (Unit {0})
validate_result permit = ok tt
validate_result deny = ok tt
validate_result unset = err result_required
validate_result (unknown r) = err (result_unknown r)

pub record Policy : Type 0 where
  pub api : Str
  pub name : Str
  pub description : Str
  pub principal : Str
  pub action : Str
  pub condition : Str
  pub result : PolicyResult
