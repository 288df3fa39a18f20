-- ===== src/Evaluate/Records.antt =====
-- The data of an evaluation: actions (internal/runtime/compiled/action.go), what a request matched, and
-- what the observers are told (internal/runtime/api.go).
use bouncer.Base.{Bool, Option, List, Str}
use bouncer.Base.Dict.{Dict}
use bouncer.Models.{PolicyResult}
use bouncer.Template.{PathTemplate}
use bouncer.Evaluate.Programs.{EvalError}

pub record BoundVariable (P : Type 0) : Type 0 where
  pub meta_name : Str
  pub bind : P

pub record Action (P : Type 0) : Type 0 where
  pub name : Str
  pub template : Option PathTemplate
  pub filter : Option P
  pub binds : List (BoundVariable P)

pub record MatchedAction (V : Type 0) : Type 0 where
  pub name : Str
  pub captures : Dict Str
  pub binds : List (Str × V)

-- What the condition-evaluation observer is told.
pub record CondEval : Type 0 where
  pub action : Str
  pub policy : Str
  pub result : PolicyResult
  pub fired : Bool
  pub error : Option EvalError

-- What the firing observer is told.
pub record Firing (V : Type 0) : Type 0 where
  pub action : Str
  pub policy : Str
  pub binds : List (Str × V)

-- The state that an evaluation changes: the world of upstream fetches, and what the observers saw.
pub record Run (V W : Type 0) : Type 0 where
  pub world : W
  pub evals : List CondEval
  pub firing : Option (Firing V)

-- Whether the loops go on, or `Evaluate` returns a result and an error.
pub data Verdict : Type 0 where
  undecided : Verdict
  decided : PolicyResult → Option EvalError → Verdict
