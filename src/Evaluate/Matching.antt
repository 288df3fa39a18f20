-- ===== src/Evaluate/Matching.antt =====
-- Matching a request against actions: `Action.Match` and `EvalBinds`
-- (internal/runtime/compiled/action.go), and `matchActions` (internal/runtime/api.go).
use bouncer.Base.{
  Bool, true, false, Option, none, some, List, [], ◌∷◌, ◌++◌, Str, Outcome, ok, err, ◌>>=◌,
}
use bouncer.Base.Dict.{Dict}
use bouncer.Messages.{Request}
use bouncer.Template
use bouncer.Template.{PathTemplate}
use bouncer.Evaluate.Programs.{
  Cel, empty_activation, EvalError, no_template_or_filter, unwrap_bool, unwrap_value,
}
use bouncer.Evaluate.Records.{BoundVariable, Action, MatchedAction}

module _ (cel : Cel) where
  open cel use {Program, Value, Body, eval}

  -- `CompiledFilter.Eval`, `CompiledBind.Eval`
  eval_filter : Program → Request Body → Dict Str → Outcome EvalError Bool
  unfolding unwrap_bool
  eval_filter p req captures =
      unwrap_bool
        (eval p (record empty_activation { request = some req; captures = some captures }))

  eval_bind : Program → Request Body → Dict Str → Outcome EvalError Value
  unfolding unwrap_value
  eval_bind p req captures =
      unwrap_value
        (eval p (record empty_activation { request = some req; captures = some captures }))

  -- The filter's part of `Action.Match`.
  pass_filter : Option Program → Request Body → Dict Str → Outcome EvalError (Option (Dict Str))
  unfolding eval_filter
  pass_filter none req captures = ok (some captures)
  pass_filter (some f) req captures =
      eval_filter f req captures >>= elim [ true ↦ ok (some captures) | false ↦ ok none ]

  -- `Action.Match`; `none` is "does not fire".
  unfoldable pub match_action :
      Action Program → Request Body → Outcome EvalError (Option (Dict Str))
  unfolding pass_filter
  match_action a req = elim a.template [
    | some t ↦ elim (Template.match t req) [
      | none ↦ ok none
      | some captures ↦ pass_filter a.filter req captures
    ]
    | none ↦ elim a.filter [
      | none ↦ err no_template_or_filter
      | some f ↦ pass_filter (some f) req []
    ]
  ]

  unfoldable pub eval_binds :
      List (BoundVariable Program)
      → Request Body
      → Dict Str
      → Outcome EvalError (List (Str × Value))
  unfolding eval_bind
  eval_binds [] req captures = ok []
  eval_binds (b ∷ bs) req captures = do
    v ← eval_bind b.bind req captures
    vs ← eval_binds bs req captures
    ok ((b.meta_name, v) ∷ vs)

  -- One round of the loop of `matchActions`.
  matched_action :
      Action Program
      → Request Body
      → Option (Dict Str)
      → Outcome EvalError (List (MatchedAction Value))
  unfolding eval_binds
  matched_action a req none = ok []
  matched_action a req (some captures) = do
    binds ← eval_binds a.binds req captures
    ok (record { name = a.name; captures = captures; binds = binds } ∷ [])

  unfoldable pub match_actions :
      List (Action Program) → Request Body → Outcome EvalError (List (MatchedAction Value))
  unfolding match_action matched_action
  match_actions [] req = ok []
  match_actions (a ∷ actions) req = do
    captures ← match_action a req
    here ← matched_action a req captures
    rest ← match_actions actions req
    ok (here ++ rest)
