-- ===== src/Examples/Evaluation.antt =====
-- An example evaluation of policies (internal/runtime/api.go).
use bouncer.Base.{
  ℕ, suc, ◌≡◌, inr, refl, Bool, true, false, Option, some, none, [], ◌∷◌, Str, bytes, str_eq,
}
use bouncer.Base.Dict.{Dict, lookup, insert}
use bouncer.Messages.{Request}
use bouncer.Models.{PolicyResult, permit, deny}
use bouncer.Template.{match}
use bouncer.PolicyStore.{CompiledPolicy, PolicyStore}
use bouncer.Evaluate.Programs.{Cel, bool, value, unwrap_bool, unwrap_value}
use bouncer.Evaluate.{
  Action, match_action, eval_binds, match_actions, applies_to_principal, applies_to,
  evaluate_policy, walk_actions, walk_policies, evaluate_matched, evaluate,
}
use bouncer.Evaluate.DenyWins.{IsPermitted, evaluate-permits, evaluate-fails_closed}

-- Programs that are booleans or a value; a condition counts its calls in the world.
abbrev pub constants : Cel
constants = record {
  Program = Option Bool;
  Value = ℕ;
  Principal = Str;
  Body = Unit;
  Time = ℕ;
  World = ℕ;
  Meta = Unit;
  eval = λ p act. elim p [ none ↦ value 7 | some b ↦ bool b ];
  eval_condition = λ p act w. (elim p [ none ↦ value 7 | some b ↦ bool b ], suc w);
  set_completer = λ meta v w. w;
}

abbrev pub read_action : Action (Option Bool)
read_action = record {
  name = bytes "read";
  template =
      some
        (record { method = bytes "GET"; segs = record { literal = []; param = bytes "id" } ∷ [] });
  filter = none;
  binds = record { meta_name = bytes "file"; bind = none } ∷ [];
}

abbrev pub policy_on : Str → PolicyResult → Bool → CompiledPolicy (Option Bool)
policy_on name result condition = record {
  api = bytes "drive";
  name = name;
  result = result;
  principal_pred = some true;
  predicate = some true;
  condition = some condition;
  source = record {
    api = bytes "drive";
    name = name;
    description = [];
    principal = bytes "true";
    action = bytes "true";
    condition = bytes "x";
    result = result;
  };
}

abbrev guarded_store : PolicyStore (Option Bool)
guarded_store = record {
  deny = policy_on (bytes "no") deny false ∷ [];
  permit = policy_on (bytes "yes") permit true ∷ [];
}

abbrev read_request : Request Unit
read_request = record {
  method = bytes "GET";
  path = bytes "/7";
  path_segments = bytes "7" ∷ [];
  query = [];
  body = tt;
}

abbrev file_meta : Dict {0} Unit
file_meta = (bytes "file", tt) ∷ []

read_permitted :
    (evaluate constants file_meta
      (read_action ∷ [])
      guarded_store
      read_request
      (some (bytes "me"))
      0
      0).0.0
    ≡ permit
unfolding evaluate match_actions eval_binds match_action match evaluate_matched walk_policies
    walk_actions applies_to applies_to_principal evaluate_policy insert lookup str_eq unwrap_bool
    unwrap_value
read_permitted = refl

evaluate-permits_example :
    IsPermitted constants file_meta
      (read_action ∷ [])
      guarded_store
      read_request
      (some (bytes "me"))
      0
      (evaluate constants file_meta
        (read_action ∷ [])
        guarded_store
        read_request
        (some (bytes "me"))
        0
        0)
evaluate-permits_example =
    evaluate-permits constants file_meta (read_action ∷ []) guarded_store read_request
      (some (bytes "me")) 0 0 ((refl, tt), (refl, tt)) read_permitted

no_firing :
    (evaluate constants []
      (read_action ∷ [])
      guarded_store
      read_request
      (some (bytes "me"))
      0
      0).1.firing
    ≡ none
unfolding evaluate match_actions eval_binds match_action match evaluate_matched walk_policies
    walk_actions applies_to applies_to_principal evaluate_policy insert lookup str_eq unwrap_bool
    unwrap_value
no_firing = refl

-- The meta of the bind is unknown, so that the conditions fail.
evaluate-fails_closed_example :
    (evaluate constants []
      (read_action ∷ [])
      guarded_store
      read_request
      (some (bytes "me"))
      0
      0).0.0
    ≡ deny
evaluate-fails_closed_example =
    evaluate-fails_closed constants [] (read_action ∷ []) guarded_store read_request
      (some (bytes "me")) 0 0 (inr no_firing)
