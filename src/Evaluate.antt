-- ===== src/Evaluate.antt =====
-- Policy evaluation: `Action.Match` and `EvalBinds` (internal/runtime/compiled/action.go), the `Eval`
-- methods of internal/runtime/compiled/compiled.go, `Policy` (internal/runtime/compiled/policy.go)
-- and `APIRuntime.Evaluate` (internal/runtime/api.go). CEL programs are a parameter.
pub mod Programs
pub mod Records
pub mod Matching
pub mod Walk
pub mod Policies
pub mod Outcomes
pub mod DenyWins
use bouncer.Base.{
  Bool, true, false, Option, none, some, List, [], ◌∷◌, ◌++◌, map, Str, Outcome, ok, err, ◌>>=◌,
}
use bouncer.Base.Dict.{Dict, lookup, insert}
use bouncer.Messages.{Request}
use bouncer.Models.{PolicyResult, deny}
use bouncer.Template
use bouncer.Template.{PathTemplate}
use bouncer.PolicyStore.{CompiledPolicy, PolicyStore, all}
use bouncer.Evaluate.Programs.{
  Cel, CelResult, Activation, empty_activation, EvalError, no_template_or_filter,
  principal_required, unknown_meta, not_value, eval_failed, unwrap_bool, unwrap_value,
}
pub use bouncer.Evaluate.Records.*
unfoldable pub use bouncer.Evaluate.Matching.*

module _ (cel : Cel) where
  open cel use {
    Program, Value, Principal, Body, Time, World, Meta, eval, eval_condition, set_completer,
  }

  -- `Policy.AppliesToPrincipal`, with the nil test of `CompiledPrincipalPredicate.Eval`
  unfoldable pub applies_to_principal :
      CompiledPolicy Program → Request Body → Option Principal → Time → Outcome EvalError Bool
  unfolding unwrap_bool
  applies_to_principal p req none now = err principal_required
  applies_to_principal p req (some who) now = unwrap_bool (
      eval p.principal_pred
        (record empty_activation { request = some req; principal = some who; now = some now }))

  -- `Policy.AppliesTo`, with the nil test of `CompiledActionPredicate.Eval`
  unfoldable pub applies_to :
      CompiledPolicy Program
      → MatchedAction Value
      → Request Body
      → Option Principal
      → Time
      → Outcome EvalError Bool
  unfolding unwrap_bool
  applies_to p m req none now = err principal_required
  applies_to p m req (some who) now = unwrap_bool (
      eval p.predicate (record empty_activation {
        action = some m.name;
        request = some req;
        captures = some m.captures;
        principal = some who;
        now = some now;
      }))

  -- The loop of `Policy.Evaluate` over the binds: each value gets its meta's completer.
  bind_map :
      Dict Meta → List (Str × Value) → Dict Value → World → Outcome EvalError (Dict Value) × World
  bind_map metas [] bound w = (ok bound, w)
  bind_map metas ((name, v) ∷ binds) bound w = elim (lookup name metas) [
    | none ↦ (err (unknown_meta name), w)
    | some meta ↦ bind_map metas binds (insert name v bound) (set_completer meta v w)
  ]

  -- `CompiledCondition.Eval`, on the bind map or the error that building it gave
  run_condition :
      CompiledPolicy Program
      → Str
      → Request Body
      → Option Principal
      → Time
      → Outcome EvalError (Dict Value) × World
      → Outcome EvalError Bool × World
  unfolding unwrap_bool
  run_condition p action req who now (err e, w) = (err e, w)
  run_condition p action req none now (ok bound, w) = (err principal_required, w)
  run_condition p action req (some who) now (ok bound, w) =
      let (out, w') =
        eval_condition p.condition
          (record {
            action = some action;
            request = some req;
            captures = none;
            principal = some who;
            now = some now;
            binds = bound;
          })
          w in
      (unwrap_bool out, w')

  -- `Policy.Evaluate`
  unfoldable pub evaluate_policy :
      Dict Meta
      → CompiledPolicy Program
      → MatchedAction Value
      → Request Body
      → Option Principal
      → Time
      → World
      → Outcome EvalError Bool × World
  unfolding bind_map run_condition
  evaluate_policy metas p m req who now w =
      run_condition p m.name req who now (bind_map metas m.binds [] w)

  -- What the observer is told of an outcome of `Policy.Evaluate`.
  abbrev pub cond_eval :
      CompiledPolicy Program → MatchedAction Value → Outcome EvalError Bool → CondEval
  cond_eval p m (ok fired) = record {
    action = m.name;
    policy = p.name;
    result = p.result;
    fired = fired;
    error = none;
  }
  cond_eval p m (err e) = record {
    action = m.name;
    policy = p.name;
    result = p.result;
    fired = false;
    error = some e;
  }

  abbrev pub firing_of : CompiledPolicy Program → MatchedAction Value → Firing Value
  firing_of p m = record { action = m.name; policy = p.name; binds = m.binds }

  -- The run after one condition: the world has moved on and the observers were called.
  abbrev pub observe :
      CompiledPolicy Program
      → MatchedAction Value
      → Outcome EvalError Bool × World
      → Run Value World
      → Run Value World
  observe p m (ok true, w) s = record {
    world = w;
    evals = s.evals ++ (cond_eval p m (ok true) ∷ []);
    firing = some (firing_of p m);
  }
  observe p m (r, w) s = record s { world = w; evals = s.evals ++ (cond_eval p m r ∷ []) }

  module _ (metas : Dict Meta) (req : Request Body) (who : Option Principal) (now : Time) where
    -- The inner loop of `Evaluate`, over the matched actions.
    unfoldable pub walk_actions :
        CompiledPolicy Program
        → List (MatchedAction Value)
        → Run Value World
        → Verdict × Run Value World
    walk_actions p [] s = (undecided, s)
    walk_actions p (m ∷ ms) s = elim (applies_to p m req who now) [
      | err e ↦ (decided deny (some e), s)
      | ok false ↦ walk_actions p ms s
      | ok true ↦
          let out = evaluate_policy metas p m req who now s.world in
          elim out.0 [
            | err e ↦ (decided deny (some e), observe p m out s)
            | ok true ↦ (decided p.result none, observe p m out s)
            | ok false ↦ walk_actions p ms (observe p m out s)
          ]
    ]

    -- The outer loop, over the policies.
    unfoldable pub walk_policies :
        List (CompiledPolicy Program)
        → List (MatchedAction Value)
        → Run Value World
        → Verdict × Run Value World
    walk_policies [] ms s = (undecided, s)
    walk_policies (p ∷ ps) ms s = elim (applies_to_principal p req who now) [
      | err e ↦ (decided deny (some e), s)
      | ok false ↦ walk_policies ps ms s
      | ok true ↦
          let (v, s') = walk_actions p ms s in
          elim v [ decided r e ↦ (decided r e, s') | undecided ↦ walk_policies ps ms s' ]
    ]

  -- Go's `(PolicyResult, error)`, with a walk that ends undecided as the default deny.
  abbrev pub settle : Verdict → PolicyResult × Option EvalError
  settle undecided = (deny, none)
  settle (decided r e) = (r, e)

  abbrev pub start : World → Run Value World
  start w = record { world = w; evals = []; firing = none }

  -- `Evaluate` from the matched actions on.
  unfoldable pub evaluate_matched :
      Dict Meta
      → PolicyStore Program
      → Request Body
      → Option Principal
      → Time
      → World
      → List (MatchedAction Value)
      → (PolicyResult × Option EvalError) × Run Value World
  evaluate_matched metas store req who now w [] = ((deny, none), start w)
  evaluate_matched metas store req who now w (m ∷ ms) =
      let (v, s) = walk_policies metas req who now (all store) (m ∷ ms) (start w) in (settle v, s)

  -- `APIRuntime.Evaluate`
  unfoldable pub evaluate :
      Dict Meta
      → List (Action Program)
      → PolicyStore Program
      → Request Body
      → Option Principal
      → Time
      → World
      → (PolicyResult × Option EvalError) × Run Value World
  evaluate metas actions store req none now w = ((deny, some principal_required), start w)
  evaluate metas actions store req (some who) now w = elim (match_actions cel actions req) [
    | err e ↦ ((deny, some e), start w)
    | ok ms ↦ evaluate_matched metas store req (some who) now w ms
  ]
