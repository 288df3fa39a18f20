-- ===== src/Evaluate/Policies.antt =====
-- What the outer loop of `APIRuntime.Evaluate` (internal/runtime/api.go) returns, by how it ends.
use bouncer.Base.{
  ◌≡◌, inl, inr, refl, sym, ap, subst, ◌∙◌, true, false, Option, none, some, List, [], ◌∷◌, ◌++◌,
  append_assoc, append-nil, All, All-append, All-map, Among, Among-append_left, Among-append_right,
  ok, Outcome-cases,
}
use bouncer.Base.Dict.{Dict}
use bouncer.Messages.{Request}
use bouncer.Models.{deny}
use bouncer.Evaluate.Programs.{Cel, EvalError}
use bouncer.Evaluate.{
  CondEval, Verdict, undecided, decided, applies_to_principal, cond_eval, firing_of, walk_actions,
  walk_policies,
}
use bouncer.Evaluate.Walk.{
  IsUnfired, Compiled, Matched, State, IsSilent, HasPassed, Ran, ActionsEnd, walk_actions-ends,
}

module _ (cel : Cel) (metas : Dict (cel.Meta)) (req : Request (cel.Body))
    (who : Option (cel.Principal)) (now : cel.Time) where
  abbrev Pol : Type 0
  Pol = Compiled cel metas req who now

  abbrev Act : Type 0
  Act = Matched cel metas req who now

  abbrev St : Type 0
  St = State cel metas req who now

  -- The policy whose condition held, the policies before it, and the evaluations in between.
  abbrev pub Decides : List Pol → List Act → List CondEval → Pol → St → Type 0
  Decides before ms old p s' =
      (new : List CondEval) × (m : Act) × (s'.evals
        ≡ old ++ (new ++ (cond_eval cel p m (ok true) ∷ [])))
      × (s'.firing ≡ some (firing_of cel p m))
      × All IsUnfired new
      × All (HasPassed cel metas req who now ms new) before
      × (applies_to_principal cel p req who now ≡ ok true)
      × Ran cel metas req who now p m true
      × Among m ms

  -- How the outer loop ends, from a run `s`.
  abbrev pub PoliciesEnd : List Pol → List Act → St → Verdict × St → Type 0
  PoliciesEnd ps ms s (undecided, s') =
      (new : List CondEval) × (s'.evals ≡ s.evals ++ new)
      × (s'.firing ≡ s.firing)
      × All IsUnfired new
      × All (HasPassed cel metas req who now ms new) ps
  PoliciesEnd ps ms s (decided r (some e), s') = (r ≡ deny) × (s'.firing ≡ s.firing)
  PoliciesEnd ps ms s (decided r none, s') =
      (before : List Pol) × (p : Pol) × (after : List Pol) × (ps ≡ before ++ (p ∷ after))
      × (r ≡ p.result)
      × Decides before ms s.evals p s'

  -- The ways of one round.
  data Round (p : Pol) (ps : List Pol) (ms : List Act) (s : St) : Type 0 where
    principal_error :
        (e : EvalError)
        → walk_policies cel metas req who now (p ∷ ps) ms s ≡ (decided deny (some e), s)
        → Round p ps ms s
    skipped :
        applies_to_principal cel p req who now ≡ ok false
        → walk_policies cel metas req who now (p ∷ ps) ms s
          ≡ walk_policies cel metas req who now ps ms s
        → Round p ps ms s
    walked :
        (v : Verdict) (s' : St)
        → applies_to_principal cel p req who now ≡ ok true
        → walk_actions cel metas req who now p ms s ≡ (v, s')
        → walk_policies cel metas req who now (p ∷ ps) ms s ≡ elim v [
          | decided r e ↦ (decided r e, s')
          | undecided ↦ walk_policies cel metas req who now ps ms s'
        ]
        → Round p ps ms s

  round : (p : Pol) (ps : List Pol) (ms : List Act) (s : St) → Round p ps ms s
  round p ps ms s = elim (Outcome-cases (applies_to_principal cel p req who now)) [
    | inr (e, a) ↦ principal_error e (unfold walk_policies in rw (a, walk_policies) refl)
    | inl (false, a) ↦ skipped a (unfold walk_policies in rw (a, walk_policies) refl)
    | inl (true, a) ↦
        walked (walk_actions cel metas req who now p ms s).0
          (walk_actions cel metas req who now p ms s).1 a refl
          (unfold walk_policies in rw (a, walk_policies) refl)
  ]

  HasPassed-append :
      (ms : List Act) (old new : List CondEval) (p : Pol)
      → HasPassed cel metas req who now ms new p
      → HasPassed cel metas req who now ms (old ++ new) p
  HasPassed-append ms old new p (inl a) = inl a
  HasPassed-append ms old new p (inr (a, h)) =
      inr (a, All-map (IsSilent cel metas req who now p new) (λ m. later m) ms h)
    where
      later :
          (m : Act)
          → IsSilent cel metas req who now p new m
          → IsSilent cel metas req who now p (old ++ new) m
      later m (inl x) = inl x
      later m (inr (x, i)) = inr (x, Among-append_right _ old new i)

  HasPassed-append_left :
      (ms : List Act) (old new : List CondEval) (p : Pol)
      → HasPassed cel metas req who now ms old p
      → HasPassed cel metas req who now ms (old ++ new) p
  HasPassed-append_left ms old new p (inl a) = inl a
  HasPassed-append_left ms old new p (inr (a, h)) =
      inr (a, All-map (IsSilent cel metas req who now p old) (λ m. later m) ms h)
    where
      later :
          (m : Act)
          → IsSilent cel metas req who now p old m
          → IsSilent cel metas req who now p (old ++ new) m
      later m (inl x) = inl x
      later m (inr (x, i)) = inr (x, Among-append_left _ old new i)

  -- A policy that had no say stands before what the rest of the walk decides.
  after_passed :
      (p : Pol) (ps : List Pol) (ms : List Act) (s s₁ : St) (mid : List CondEval) (x : Verdict × St)
      → s₁.evals ≡ s.evals ++ mid
      → s₁.firing ≡ s.firing
      → All IsUnfired mid
      → HasPassed cel metas req who now ms mid p
      → PoliciesEnd ps ms s₁ x
      → PoliciesEnd (p ∷ ps) ms s x
  after_passed p ps ms s s₁ mid (undecided, s') e f u h (new, e', f', u', hs) = (
    mid ++ new,
    e' ∙ ap (λ l. l ++ new) e ∙ append_assoc s.evals mid new,
    f' ∙ f,
    All-append IsUnfired mid new u u',
    (
      HasPassed-append_left ms mid new p h,
      All-map (HasPassed cel metas req who now ms new) (HasPassed-append ms mid new) ps hs,
    ),
  )
  after_passed p ps ms s s₁ mid (decided r (some x), s') e f u h (d, f') = (d, f' ∙ f)
  after_passed p ps ms s s₁ mid (decided r none, s') e f u h
        (before, q, after, split, res, (new, m, e', f', u', hs, a, b, i)) =
      let last = cond_eval cel q m (ok true) ∷ [] in
      (
        p ∷ before,
        q,
        after,
        ap (λ l. p ∷ l) split,
        res,
        (
          mid ++ new,
          m,
          e'
              ∙ ap (λ l. l ++ (new ++ last)) e
              ∙ append_assoc s.evals mid (new ++ last)
              ∙ ap (λ l. s.evals ++ l) (sym (append_assoc mid new last)),
          f',
          All-append IsUnfired mid new u u',
          (
            HasPassed-append_left ms mid new p h,
            All-map (HasPassed cel metas req who now ms new) (HasPassed-append ms mid new) before
                hs,
          ),
          a,
          b,
          i,
        ),
      )

  -- The inner loop ended, and the rest of the policies are walked only if it decided nothing.
  after_walk :
      (p : Pol) (ps : List Pol) (ms : List Act) (s : St) (v : Verdict) (s₁ : St)
      (rest : Verdict × St)
      → applies_to_principal cel p req who now ≡ ok true
      → ActionsEnd cel metas req who now p ms s (v, s₁)
      → PoliciesEnd ps ms s₁ rest
      → PoliciesEnd (p ∷ ps) ms s (elim v [ decided r e ↦ (decided r e, s₁) | undecided ↦ rest ])
  after_walk p ps ms s undecided s₁ rest a (new, e, f, u, h) ends =
      after_passed p ps ms s s₁ new rest e f u (inr (a, h)) ends
  after_walk p ps ms s (decided r (some x)) s₁ rest a h ends = h
  after_walk p ps ms s (decided r none) s₁ rest a (new, m, e, f, u, i, b, q) ends =
      ([], p, ps, refl, q, (new, m, e, f, u, tt, a, b, i))

  pub walk_policies-ends :
      (ps : List Pol) (ms : List Act) (s : St)
      → PoliciesEnd ps ms s (walk_policies cel metas req who now ps ms s)
  walk_policies-ends [] ms s = unfold walk_policies in ([], sym (append-nil s.evals), refl, tt, tt)
  walk_policies-ends (p ∷ ps) ms s = elim (round p ps ms s) [
    | principal_error e r ↦ rw r (refl, refl)
    | skipped a r ↦ rw r (
        after_passed p ps ms s s [] _ (sym (append-nil s.evals)) refl tt (inl a)
          (walk_policies-ends ps ms s))
    | walked v s₁ a w r ↦ rw r (
        after_walk p ps ms s v s₁ _ a
          (subst (ActionsEnd cel metas req who now p ms s) w
            (walk_actions-ends cel metas req who now p ms s))
          (walk_policies-ends ps ms s₁))
  ]
