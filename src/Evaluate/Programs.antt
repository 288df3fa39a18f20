-- ===== src/Evaluate/Programs.antt =====
-- What the program uses of cel-go, as a parameter, and how the `Eval` methods of
-- internal/runtime/compiled/compiled.go unwrap its results.
use bouncer.Base.{Bool, Option, none, [], Str, Outcome, ok, err}
use bouncer.Base.Dict.{Dict}
use bouncer.Messages.{Request}

-- The result of `cel.Program.Eval`: a Go error, or a value, which may be an error value, a
-- boolean or a `*messages.Value`.
pub data CelResult (V : Type 0) : Type 0 where
  failed error_value : Str → CelResult V
  bool : Bool → CelResult V
  value : V → CelResult V
  other : CelResult V

-- The variables that an `Eval` method sets.
pub record Activation (B V Pr T : Type 0) : Type 0 where
  pub action : Option Str
  pub request : Option (Request B)
  pub captures : Option (Dict Str)
  pub principal : Option Pr
  pub now : Option T
  pub binds : Dict V

abbrev pub empty_activation : {B V Pr T : Type 0} → Activation B V Pr T
empty_activation = record {
  action = none;
  request = none;
  captures = none;
  principal = none;
  now = none;
  binds = [];
}

-- `eval` runs a program whose environment has no meta, so that it fetches nothing. A condition may
-- read output fields of metas, which fetches them upstream: it changes the world, which holds the
-- values' memoised fetches too. `set_completer` wires a value to its meta's upstream.
pub record Cel : Type 1 where
  pub Program : Type 0
  pub Value : Type 0
  pub Principal : Type 0
  pub Body : Type 0
  pub Time : Type 0
  pub World : Type 0
  pub Meta : Type 0
  pub eval : Program → Activation Body Value Principal Time → CelResult Value
  pub eval_condition :
      Program → Activation Body Value Principal Time → World → CelResult Value × World
  pub set_completer : Meta → Value → World → World

pub data EvalError : Type 0 where
  eval_failed unknown_meta : Str → EvalError
  not_bool not_value principal_required no_template_or_filter : EvalError

unfoldable pub unwrap_bool : {V : Type 0} → CelResult V → Outcome EvalError Bool
unwrap_bool (failed e) = err (eval_failed e)
unwrap_bool (error_value e) = err (eval_failed e)
unwrap_bool (bool b) = ok b
unwrap_bool _ = err not_bool

unfoldable pub unwrap_value : {V : Type 0} → CelResult V → Outcome EvalError V
unwrap_value (failed e) = err (eval_failed e)
unwrap_value (error_value e) = err (eval_failed e)
unwrap_value (value v) = ok v
unwrap_value _ = err not_value
