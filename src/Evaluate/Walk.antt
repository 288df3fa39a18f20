-- ===== src/Evaluate/Walk.antt =====
-- What the inner loop of `APIRuntime.Evaluate` (internal/runtime/api.go) returns, by how it ends.
use bouncer.Base.{
  ◌≡◌, ◌⊎◌, inl, inr, refl, sym, ap, ◌∙◌, Bool, true, false, Option, none, some, List, [], ◌∷◌,
  ◌++◌, append_assoc, append-nil, All, All-map, Among, Outcome, ok, err, Outcome-cases,
}
use bouncer.Base.Dict.{Dict}
use bouncer.Messages.{Request}
use bouncer.Models.{deny}
use bouncer.PolicyStore.{CompiledPolicy}
use bouncer.Evaluate.Programs.{Cel, EvalError}
use bouncer.Evaluate.{
  MatchedAction, CondEval, Run, Verdict, undecided, decided, applies_to_principal, applies_to,
  evaluate_policy, cond_eval, firing_of, observe, walk_actions,
}

-- The condition ran without an error and did not hold.
abbrev pub IsUnfired : CondEval → Type 0
IsUnfired c = (c.fired ≡ false) × (c.error ≡ none)

module _ (cel : Cel) (metas : Dict (cel.Meta)) (req : Request (cel.Body))
    (who : Option (cel.Principal)) (now : cel.Time) where
  abbrev pub Compiled : Type 0
  Compiled = CompiledPolicy (cel.Program)

  abbrev pub Matched : Type 0
  Matched = MatchedAction (cel.Value)

  abbrev pub State : Type 0
  State = Run (cel.Value) (cel.World)

  -- The policy applies to the action, and its condition ran from some world with the result.
  abbrev pub Ran : Compiled → Matched → Bool → Type 0
  Ran p m held =
      (applies_to cel p m req who now ≡ ok true)
      × ((w : cel.World) × (w' : cel.World) × (evaluate_policy cel metas p m req who now w
            ≡ (ok held, w')))

  -- The policy had no say on the action: its predicate rejects the action, or its condition is among
  -- the evaluations as one that did not hold.
  abbrev pub IsSilent : Compiled → List CondEval → Matched → Type 0
  IsSilent p evals m =
      (applies_to cel p m req who now ≡ ok false)
      ⊎ (Ran p m false × Among (cond_eval cel p m (ok false)) evals)

  -- The policy had no say on the request.
  abbrev pub HasPassed : List Matched → List CondEval → Compiled → Type 0
  HasPassed ms evals p =
      (applies_to_principal cel p req who now ≡ ok false)
      ⊎ ((applies_to_principal cel p req who now ≡ ok true) × All (IsSilent p evals) ms)

  -- The five ways of one round of the inner loop.
  data Round (p : Compiled) (m : Matched) (ms : List Matched) (s : State) : Type 0 where
    predicate_error :
        (e : EvalError)
        → walk_actions cel metas req who now p (m ∷ ms) s ≡ (decided deny (some e), s)
        → Round p m ms s
    skipped :
        applies_to cel p m req who now ≡ ok false
        → walk_actions cel metas req who now p (m ∷ ms) s
          ≡ walk_actions cel metas req who now p ms s
        → Round p m ms s
    condition_error :
        (e : EvalError) (w : cel.World)
        → walk_actions cel metas req who now p (m ∷ ms) s
          ≡ (decided deny (some e), observe cel p m (err e, w) s)
        → Round p m ms s
    fired :
        (w : cel.World)
        → Ran p m true
        → walk_actions cel metas req who now p (m ∷ ms) s
          ≡ (decided p.result none, observe cel p m (ok true, w) s)
        → Round p m ms s
    unfired :
        (w : cel.World)
        → Ran p m false
        → walk_actions cel metas req who now p (m ∷ ms) s
          ≡ walk_actions cel metas req who now p ms (observe cel p m (ok false, w) s)
        → Round p m ms s

  ran :
      (p : Compiled) (m : Matched) (ms : List Matched) (s : State)
      (out : Outcome EvalError Bool × cel.World)
      → applies_to cel p m req who now ≡ ok true
      → evaluate_policy cel metas p m req who now s.world ≡ out
      → Round p m ms s
  unfolding walk_actions
  ran p m ms s (err e, w) a c = condition_error e w (
      rw (a, walk_actions)
        (rw (c, walk_actions)
          (ap (λ out. let x : Verdict × State = (decided deny (some e), observe cel p m out s) in x)
            c)))
  ran p m ms s (ok true, w) a c =
      fired w (a, (s.world, w, c))
        (rw (a, walk_actions)
          (rw (c, walk_actions)
            (ap
              (λ out. let x : Verdict × State = (decided p.result none, observe cel p m out s) in x)
              c)))
  ran p m ms s (ok false, w) a c =
      unfired w (a, (s.world, w, c))
        (rw (a, walk_actions)
          (rw (c, walk_actions)
            (ap (λ out. walk_actions cel metas req who now p ms (observe cel p m out s)) c)))

  round : (p : Compiled) (m : Matched) (ms : List Matched) (s : State) → Round p m ms s
  unfolding walk_actions
  round p m ms s = elim (Outcome-cases (applies_to cel p m req who now)) [
    | inr (e, a) ↦ predicate_error e (rw (a, walk_actions) refl)
    | inl (false, a) ↦ skipped a (rw (a, walk_actions) refl)
    | inl (true, a) ↦ ran p m ms s (evaluate_policy cel metas p m req who now s.world) a refl
  ]

  -- How the inner loop ends, from a run `s`.
  abbrev pub ActionsEnd : Compiled → List Matched → State → Verdict × State → Type 0
  ActionsEnd p ms s (undecided, s') =
      (new : List CondEval) × (s'.evals ≡ s.evals ++ new)
      × (s'.firing ≡ s.firing)
      × All IsUnfired new
      × All (IsSilent p new) ms
  ActionsEnd p ms s (decided r (some e), s') = (r ≡ deny) × (s'.firing ≡ s.firing)
  ActionsEnd p ms s (decided r none, s') =
      (new : List CondEval) × (m : Matched) × (s'.evals
        ≡ s.evals ++ (new ++ (cond_eval cel p m (ok true) ∷ [])))
      × (s'.firing ≡ some (firing_of cel p m))
      × All IsUnfired new
      × Among m ms
      × Ran p m true
      × (r ≡ p.result)

  IsSilent-cons :
      (p : Compiled) (c : CondEval) (new : List CondEval) (m : Matched)
      → IsSilent p new m
      → IsSilent p (c ∷ new) m
  IsSilent-cons p c new m (inl e) = inl e
  IsSilent-cons p c new m (inr (e, a)) = inr (e, inr a)

  after_skip :
      (p : Compiled) (m : Matched) (ms : List Matched) (s : State) (x : Verdict × State)
      → applies_to cel p m req who now ≡ ok false
      → ActionsEnd p ms s x
      → ActionsEnd p (m ∷ ms) s x
  after_skip p m ms s (undecided, s') a (new, e, f, u, h) = (new, e, f, u, (inl a, h))
  after_skip p m ms s (decided r (some x), s') a h = h
  after_skip p m ms s (decided r none, s') a (new, k, e, f, u, i, b, q) =
      (new, k, e, f, u, inr i, b, q)

  after_unfired :
      (p : Compiled) (m : Matched) (ms : List Matched) (s : State) (w : cel.World)
      (x : Verdict × State)
      → Ran p m false
      → ActionsEnd p ms (observe cel p m (ok false, w) s) x
      → ActionsEnd p (m ∷ ms) s x
  after_unfired p m ms s w (undecided, s') a (new, e, f, u, h) =
      let c = cond_eval cel p m (ok false) in
      (
        c ∷ new,
        e ∙ append_assoc s.evals (c ∷ []) new,
        f,
        ((refl, refl), u),
        (inr (a, inl refl), All-map (IsSilent p new) (IsSilent-cons p c new) ms h),
      )
  after_unfired p m ms s w (decided r (some x), s') a h = h
  after_unfired p m ms s w (decided r none, s') a (new, k, e, f, u, i, b, q) =
      let c = cond_eval cel p m (ok false) in
      (
        c ∷ new,
        k,
        e ∙ append_assoc s.evals (c ∷ []) (new ++ (cond_eval cel p k (ok true) ∷ [])),
        f,
        ((refl, refl), u),
        inr i,
        b,
        q,
      )

  pub walk_actions-ends :
      (p : Compiled) (ms : List Matched) (s : State)
      → ActionsEnd p ms s (walk_actions cel metas req who now p ms s)
  walk_actions-ends p [] s = unfold walk_actions in ([], sym (append-nil s.evals), refl, tt, tt)
  walk_actions-ends p (m ∷ ms) s = elim (round p m ms s) [
    | predicate_error e r ↦ rw r (refl, refl)
    | condition_error e w r ↦ rw r (refl, refl)
    | fired w a r ↦ rw r ([], m, refl, refl, tt, inl refl, a, refl)
    | skipped a r ↦ rw r (after_skip p m ms s _ a (walk_actions-ends p ms s))
    | unfired w a r ↦
        rw r
          (after_unfired p m ms s w _ a (walk_actions-ends p ms (observe cel p m (ok false, w) s)))
  ]
