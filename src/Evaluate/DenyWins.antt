-- ===== src/Evaluate/DenyWins.antt =====
-- The verdict of `APIRuntime.Evaluate` (internal/runtime/api.go): it denies by default and on errors,
-- and a permit stands only where no deny policy has a say.
use bouncer.Base.{
  none-ne-some, true-ne-false, ◌≡◌, ◌≢◌, ◌⊎◌, inl, inr, refl, sym, ap, ◌∙◌, subst, true, Option,
  none, some, List, [], ◌∷◌, ◌++◌, All, All-map, Among, Among-append_right, ok, err, Outcome-cases,
}
use bouncer.Base.Dict.{Dict}
use bouncer.Messages.{Request}
use bouncer.Models.{PolicyResult, permit, deny}
use bouncer.PolicyStore.{CompiledPolicy, PolicyStore, is_deny, all}
use bouncer.PolicyStore.Buckets.{IsDeny, IsNotDeny, HasBuckets}
use bouncer.Evaluate.Programs.{Cel, EvalError}
use bouncer.Evaluate.{
  Action, CondEval, Run, Verdict, undecided, decided, cond_eval, firing_of, MatchedAction,
  match_actions, settle, start, evaluate_matched, evaluate,
}
use bouncer.Evaluate.Walk.{IsUnfired, Compiled, Matched, HasPassed}
use bouncer.Evaluate.Outcomes.{
  PrincipalGives, PredicateGives, ConditionGives, HasNoSay, applies_to_principal-inv, Ran-inv,
  HasPassed-inv,
}
use bouncer.Evaluate.Policies.{Decides, PoliciesEnd, walk_policies-ends}

permit-ne-deny : permit ≢ deny
permit-ne-deny h = cc

module _ {A : Type 0} {a b : A} {xs ys : List A} where
  heads_eq : a ∷ xs ≡ b ∷ ys → a ≡ b
  heads_eq h = cc

  tails_eq : a ∷ xs ≡ b ∷ ys → xs ≡ ys
  tails_eq h = cc

-- A policy of the second bucket comes after the whole of the first.
module _ {P : Type 0} (Q : CompiledPolicy P → Type 0) where
  split_buckets :
      (deny_ps permit_ps before : List (CompiledPolicy P)) (p : CompiledPolicy P)
      (after : List (CompiledPolicy P))
      → All IsDeny deny_ps
      → IsNotDeny p
      → deny_ps ++ permit_ps ≡ before ++ (p ∷ after)
      → All Q before
      → All Q deny_ps × Among p permit_ps
  split_buckets [] ps before p after d n e q =
      (tt, subst (Among p) (sym e) (Among-append_right p before (p ∷ after) (inl refl)))
  split_buckets (x ∷ ds) ps [] p after d n e q =
      elim (true-ne-false (sym d.0 ∙ ap (λ y. is_deny (y.result)) (heads_eq e) ∙ n)) [ ]
  split_buckets (x ∷ ds) ps (y ∷ before) p after d n e q =
      let (h, a) = split_buckets ds ps before p after d.1 n (tails_eq e) q.1 in
      ((subst Q (sym (heads_eq e)) q.0, h), a)

module _ (cel : Cel) where
  -- Go's result, error and what the evaluation did.
  abbrev Answer : Type 0
  Answer = (PolicyResult × Option EvalError) × Run (cel.Value) (cel.World)

  module _ (metas : Dict (cel.Meta)) (actions : List (Action (cel.Program)))
      (store : PolicyStore (cel.Program)) (req : Request (cel.Body)) (who : Option (cel.Principal))
      (now : cel.Time) where
    -- A policy of the store decided: its condition held on a matched action, after the conditions of
    -- the policies before it, if they applied, did not.
    abbrev pub IsDecided : Answer → Type 0
    IsDecided x =
        (ms : List (Matched cel metas req who now)) × (before : List
          (Compiled cel metas req who now))
        × (p : Compiled cel metas req who now) × (after : List (Compiled cel metas req who now))
        × (match_actions cel actions req ≡ ok ms)
        × (all store ≡ before ++ (p ∷ after))
        × (x.0 ≡ (p.result, none))
        × Decides cel metas req who now before ms [] p x.1

    abbrev EvaluateEnd : Answer → Type 0
    EvaluateEnd x = ((x.0.0 ≡ deny) × (x.1.firing ≡ none)) ⊎ IsDecided x

    settled :
        (ms : List (Matched cel metas req who now)) (w : cel.World)
        (x : Verdict × Run (cel.Value) (cel.World))
        → match_actions cel actions req ≡ ok ms
        → PoliciesEnd cel metas req who now (all store) ms (start cel w) x
        → EvaluateEnd (settle cel x.0, x.1)
    settled ms w (undecided, s) a (new, e, f, u, h) = inl (refl, f)
    settled ms w (decided r (some e), s) a (d, f) = inl (d, f)
    settled ms w (decided r none, s) a (before, p, after, split, res, d) =
        inr (ms, before, p, after, a, split, ap (λ x. (x, none)) res, d)

    matched-ends :
        (ms : List (Matched cel metas req who now)) (w : cel.World)
        → match_actions cel actions req ≡ ok ms
        → EvaluateEnd (evaluate_matched cel metas store req who now w ms)
    unfolding evaluate_matched
    matched-ends [] w a = inl (refl, refl)
    matched-ends (m ∷ ms) w a =
        settled (m ∷ ms) w _ a
          (walk_policies-ends cel metas req who now (all store) (m ∷ ms) (start cel w))

  module _ (metas : Dict (cel.Meta)) (actions : List (Action (cel.Program)))
      (store : PolicyStore (cel.Program)) (req : Request (cel.Body)) where
    evaluate_steps :
        (who : cel.Principal) (now : cel.Time) (w : cel.World)
        (ms : List (MatchedAction (cel.Value)))
        → match_actions cel actions req ≡ ok ms
        → evaluate_matched cel metas store req (some who) now w ms
          ≡ evaluate cel metas actions store req (some who) now w
    unfolding evaluate
    evaluate_steps who now w ms a = rw (a, evaluate) refl

    evaluate_errs :
        (who : cel.Principal) (now : cel.Time) (w : cel.World) (e : EvalError)
        → match_actions cel actions req ≡ err e
        → ((deny, some e), start cel w) ≡ evaluate cel metas actions store req (some who) now w
    unfolding evaluate
    evaluate_errs who now w e a = rw (a, evaluate) refl

    evaluate-ends :
        (who : Option (cel.Principal)) (now : cel.Time) (w : cel.World)
        → EvaluateEnd metas actions store req who now
            (evaluate cel metas actions store req who now w)
    evaluate-ends none now w = unfold evaluate in inl (refl, refl)
    evaluate-ends (some who) now w = elim (Outcome-cases (match_actions cel actions req)) [
      | inr (e, a) ↦
          subst (EvaluateEnd metas actions store req (some who) now) (evaluate_errs who now w e a)
            (inl (refl, refl))
      | inl (ms, a) ↦
          subst (EvaluateEnd metas actions store req (some who) now) (evaluate_steps who now w ms a)
            (matched-ends metas actions store req (some who) now ms w a)
    ]

    ends_closed :
        (who : Option (cel.Principal)) (now : cel.Time) (x : Answer)
        → EvaluateEnd metas actions store req who now x
        → (x.0.1 ≢ none) ⊎ (x.1.firing ≡ none)
        → x.0.0 ≡ deny
    ends_closed who now x (inl (d, f)) h = d
    ends_closed who now x (inr (ms, before, p, after, a, split, r, d)) (inl e) =
        elim (e (ap (λ y. y.1) r)) [ ]
    ends_closed who now x (inr (ms, before, p, after, a, split, r, (new, m, e, f, u, hs, b, c, i)))
          (inr g) =
        elim (none-ne-some (sym g ∙ f)) [ ]

    -- Evaluation fails closed: where it returns an error, or where no policy fired, the result is deny.
    pub evaluate-fails_closed :
        (who : Option (cel.Principal)) (now : cel.Time) (w : cel.World)
        → ((evaluate cel metas actions store req who now w).0.1 ≢ none)
          ⊎ ((evaluate cel metas actions store req who now w).1.firing ≡ none)
        → (evaluate cel metas actions store req who now w).0.0 ≡ deny
    evaluate-fails_closed who now w h =
        ends_closed who now (evaluate cel metas actions store req who now w)
          (evaluate-ends who now w) h

    -- How a permit came about: for a policy of the store whose result is permit and a matched action,
    -- the programs of the policy for the principal, for the action and for the condition all gave true,
    -- which the observers were told last; no condition before it held or failed; and each deny policy of
    -- the store had no say: its program for the principal gave false, or on each matched action its
    -- program for the action or its condition did.
    abbrev pub IsPermitted : Option (cel.Principal) → cel.Time → Answer → Type 0
    IsPermitted who now x =
        (ms : List (MatchedAction (cel.Value))) × (p : CompiledPolicy (cel.Program)) × (new : List
          CondEval)
        × (m : MatchedAction (cel.Value)) × (match_actions cel actions req ≡ ok ms)
        × Among p store.permit
        × (p.result ≡ permit)
        × Among m ms
        × PrincipalGives cel metas req who now p true
        × PredicateGives cel metas req who now p m true
        × ConditionGives cel metas req who now p m true
        × (x.1.evals ≡ new ++ (cond_eval cel p m (ok true) ∷ []))
        × (x.1.firing ≡ some (firing_of cel p m))
        × All IsUnfired new
        × All (HasNoSay cel metas req who now ms new) store.deny

    permit_ends :
        (who : Option (cel.Principal)) (now : cel.Time) (x : Answer)
        → HasBuckets store
        → EvaluateEnd metas actions store req who now x
        → x.0.0 ≡ permit
        → IsPermitted who now x
    permit_ends who now x (hd, hp) (inl (d, f)) r = elim (permit-ne-deny (sym r ∙ d)) [ ]
    permit_ends who now x (hd, hp)
          (inr (ms, before, p, after, a, split, res, (new, m, e, f, u, hs, b, c, i))) r =
        let permits : p.result ≡ permit = sym (ap (λ y. y.0) res) ∙ r in
        let (h, among) =
          split_buckets (HasPassed cel metas req who now ms new) store.deny store.permit before p
            after hd (ap is_deny permits) split hs in
        let (applied, held) = Ran-inv cel metas req who now p m true c in
        (
          ms,
          p,
          new,
          m,
          a,
          among,
          permits,
          i,
          applies_to_principal-inv cel metas req who now p true b,
          applied,
          held,
          e,
          f,
          u,
          All-map (HasPassed cel metas req who now ms new)
              (HasPassed-inv cel metas req who now ms new) store.deny h,
        )

    -- Deny wins: where each policy of the store stands in the bucket of its result, and
    -- evaluation permits, the three CEL programs of a permit policy of the store gave true for the
    -- principal and a matched action, with the values that the action binds; each deny policy of the
    -- store has one that gave false for the principal or, on each matched action, for the action or the
    -- condition; and no condition evaluated before held or failed.
    pub evaluate-permits :
        (who : Option (cel.Principal)) (now : cel.Time) (w : cel.World)
        → HasBuckets store
        → (evaluate cel metas actions store req who now w).0.0 ≡ permit
        → IsPermitted who now (evaluate cel metas actions store req who now w)
    evaluate-permits who now w hb r =
        permit_ends who now (evaluate cel metas actions store req who now w) hb
          (evaluate-ends who now w) r
