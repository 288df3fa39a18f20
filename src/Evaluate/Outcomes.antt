-- ===== src/Evaluate/Outcomes.antt =====
-- What the outcomes of an evaluation (internal/runtime/api.go) say of the CEL programs themselves: the
-- program that was run, on which variables, and the Boolean that it gave.
use bouncer.Base.{
  ◌≡◌, ◌⊎◌, inl, inr, refl, sym, ap, Bool, true, false, Option, none, some, List, [], ◌∷◌, All,
  All-map, Among, Str, Outcome, ok, err, Option-cases, err-ne-ok, ok-injective, subst,
}
use bouncer.Base.Dict.{Dict, lookup, insert}
use bouncer.Messages.{Request}
use bouncer.Evaluate.Programs.{
  Cel, CelResult, failed, error_value, bool, value, other, Activation, empty_activation, EvalError,
  unknown_meta, unwrap_bool,
}
use bouncer.Evaluate.{
  CondEval, applies_to_principal, applies_to, evaluate_policy, cond_eval, bind_map, run_condition,
}
use bouncer.Evaluate.Walk.{Compiled, Matched, IsSilent, HasPassed, Ran}

unwrap_bool-inv : {V : Type 0} (r : CelResult V) (b : Bool) → unwrap_bool r ≡ ok b → r ≡ bool b
unfolding unwrap_bool
unwrap_bool-inv (failed e) b h = cc
unwrap_bool-inv (error_value e) b h = cc
unwrap_bool-inv (bool c) b h = cc
unwrap_bool-inv (value v) b h = cc
unwrap_bool-inv other b h = cc

-- The values of an action under the names of their metas; a later one of a name replaces an earlier.
abbrev pub named_values {ℓ} : {V : Type ℓ} → List (Str × V) → Dict V → Dict V
named_values [] bound = bound
named_values ((name, v) ∷ binds) bound = named_values binds (insert name v bound)

module _ (cel : Cel) (metas : Dict (cel.Meta)) (req : Request (cel.Body))
    (who : Option (cel.Principal)) (now : cel.Time) where
  abbrev Pol : Type 0
  Pol = Compiled cel metas req who now

  abbrev Act : Type 0
  Act = Matched cel metas req who now

  -- The policy's principal program gives the Boolean on the request, the caller and the time.
  abbrev pub PrincipalGives : Pol → Bool → Type 0
  PrincipalGives p b =
      (pr : cel.Principal) × (who ≡ some pr)
      × (cel.eval p.principal_pred
            (record empty_activation { request = some req; principal = some pr; now = some now })
          ≡ bool b)

  -- Its action program gives it, on the action's name and captures besides.
  abbrev pub PredicateGives : Pol → Act → Bool → Type 0
  PredicateGives p m b =
      (pr : cel.Principal) × (who ≡ some pr)
      × (cel.eval p.predicate (record empty_activation {
        action = some m.name;
        request = some req;
        captures = some m.captures;
        principal = some pr;
        now = some now;
      })
          ≡ bool b)

  -- Its condition gives it in some world, on the values that the action binds.
  abbrev pub ConditionGives : Pol → Act → Bool → Type 0
  ConditionGives p m b =
      (pr : cel.Principal) × (w : cel.World) × (w' : cel.World) × (who ≡ some pr)
      × (cel.eval_condition p.condition
            (record {
              action = some m.name;
              request = some req;
              captures = none;
              principal = some pr;
              now = some now;
              binds = named_values m.binds [];
            })
            w
          ≡ (bool b, w'))

  -- The policy does not apply to the action, or it does and its condition gives false there, as the
  -- observers are told.
  abbrev pub IsRejected : Pol → List CondEval → Act → Type 0
  IsRejected p evals m =
      PredicateGives p m false
      ⊎ (PredicateGives p m true
          × ConditionGives p m false
          × Among (cond_eval cel p m (ok false)) evals)

  -- The policy does not apply to the caller, or it does and is so on each action.
  abbrev pub HasNoSay : List Act → List CondEval → Pol → Type 0
  HasNoSay ms evals p =
      PrincipalGives p false ⊎ (PrincipalGives p true × All (IsRejected p evals) ms)

  pub applies_to_principal-inv :
      (p : Pol) (b : Bool) → applies_to_principal cel p req who now ≡ ok b → PrincipalGives p b
  unfolding applies_to_principal
  applies_to_principal-inv p b h = elim (Option-cases who) [
    | inl n ↦ absurd (err-ne-ok (rw (n, applies_to_principal) at h))
    | inr (pr, e) ↦ (pr, e, unwrap_bool-inv _ b (rw (e, applies_to_principal) at h))
  ]

  pub applies_to-inv :
      (p : Pol) (m : Act) (b : Bool) → applies_to cel p m req who now ≡ ok b → PredicateGives p m b
  unfolding applies_to
  applies_to-inv p m b h = elim (Option-cases who) [
    | inl n ↦ absurd (err-ne-ok (rw (n, applies_to) at h))
    | inr (pr, e) ↦ (pr, e, unwrap_bool-inv _ b (rw (e, applies_to) at h))
  ]

  -- If each meta is known, the bind map has the action's values.
  bind_map-inv :
      (binds : List (Str × cel.Value)) (bound : Dict (cel.Value)) (w : cel.World)
      → (bind_map cel metas binds bound w).0 ≡ ok (named_values binds bound)
        ⊎ ((e : EvalError) × ((bind_map cel metas binds bound w).0 ≡ err e))
  unfolding bind_map
  bind_map-inv [] bound w = inl refl
  bind_map-inv ((name, v) ∷ binds) bound w = elim (Option-cases (lookup name metas)) [
    | inl n ↦ inr (unknown_meta name, rw (n, bind_map) refl)
    | inr (meta, e) ↦
        rw (e, bind_map) (bind_map-inv binds (insert name v bound) (cel.set_completer meta v w))
  ]

  run_condition-inv :
      (p : Pol) (m : Act) (b : Bool) (x : Outcome EvalError (Dict (cel.Value)) × cel.World)
      (w' : cel.World)
      → run_condition cel p m.name req who now x ≡ (ok b, w')
      → (x.0 ≡ ok (named_values m.binds [])) ⊎ ((e : EvalError) × (x.0 ≡ err e))
      → ConditionGives p m b
  unfolding run_condition
  run_condition-inv p m b (err e, w) w' h k = absurd (err-ne-ok (ap (λ y. y.0) h))
  run_condition-inv p m b (ok bound, w) w' h (inr (e, k)) = absurd (err-ne-ok (sym k))
  run_condition-inv p m b (ok bound, w) w' h (inl k) = elim (Option-cases who) [
    | inl n ↦ absurd (err-ne-ok (ap (λ y. y.0) (rw (n, run_condition) at h)))
    | inr (pr, e) ↦
        let ran = rw (e, run_condition) at h in
        let act : Dict (cel.Value) → Activation (cel.Body) (cel.Value) (cel.Principal) (cel.Time) =
          λ binds. record {
            action = some m.name;
            request = some req;
            captures = none;
            principal = some pr;
            now = some now;
            binds = binds;
          } in
        let same = ok-injective k in
        let out : CelResult (cel.Value) × cel.World =
          cel.eval_condition p.condition (act bound) w in
        let gave : out ≡ (bool b, w') =
          λ i. (unwrap_bool-inv out.0 b (ap (λ y. y.0) ran) i, ap (λ y. y.1) ran i) in
        (
          pr,
          w,
          w',
          e,
          subst (λ d. cel.eval_condition p.condition (act d) w ≡ (bool b, w')) same gave,
        )
  ]

  pub Ran-inv :
      (p : Pol) (m : Act) (b : Bool)
      → Ran cel metas req who now p m b
      → PredicateGives p m true × ConditionGives p m b
  unfolding evaluate_policy
  Ran-inv p m b (a, (w, w', h)) = (
    applies_to-inv p m true a,
    run_condition-inv p m b (bind_map cel metas m.binds [] w) w' h (bind_map-inv m.binds [] w),
  )

  IsSilent-inv :
      (p : Pol) (evals : List CondEval) (m : Act)
      → IsSilent cel metas req who now p evals m
      → IsRejected p evals m
  IsSilent-inv p evals m (inl a) = inl (applies_to-inv p m false a)
  IsSilent-inv p evals m (inr (r, i)) = let (a, c) = Ran-inv p m false r in inr (a, c, i)

  pub HasPassed-inv :
      (ms : List Act) (evals : List CondEval) (p : Pol)
      → HasPassed cel metas req who now ms evals p
      → HasNoSay ms evals p
  HasPassed-inv ms evals p (inl a) = inl (applies_to_principal-inv p false a)
  HasPassed-inv ms evals p (inr (a, h)) = inr (
    applies_to_principal-inv p true a,
    All-map (IsSilent cel metas req who now p evals) (IsSilent-inv p evals) ms h,
  )
