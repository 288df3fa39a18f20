-- ===== src/Proposals/Applying.antt =====
-- How the switch of `Approve` (internal/control/proposals/proposals.go) ends: what it does to the live
-- policies.
use bouncer.Base.{
  ◌≡◌, ◌⊎◌, inl, inr, refl, sym, ap, ◌∙◌, Bool, true, false, Option, none, some, ok, err,
  Outcome-cases, err-ne-ok, Bool-cases, to_outcome, map_err, map_err-eq-ok, to_outcome-eq-ok,
}
use bouncer.Models.{Policy}
use bouncer.Proposals.Records.{Kind, unset_kind, apply_kind, delete_kind, unknown_kind, Backend}
use bouncer.Proposals.{
  Failure, check_conflict, delete_outcome, apply_to_policies, put_policy, apply_policy,
  policy_conflict, conflict_check,
}

module _ (b : Backend) where
  -- No live policy may be displaced without the word of the reviewer: either the reviewer asked to
  -- overwrite, or the policies have, for certain, none of that name.
  abbrev pub IsFree : b.World → Policy → Bool → Type 0
  IsFree w p overwrite =
      (overwrite ≡ true)
      ⊎ ((e : b.PolicyError) × (b.get_policy w p.api p.name ≡ err e) × (b.is_not_found e ≡ true))

  -- The live policies `w'` come of the one change that the proposal's kind asks for.
  abbrev pub IsApplied : Kind → b.World → Policy → Bool → b.World → Type 0
  IsApplied delete_kind w p overwrite w' = w' ≡ (b.delete w p.api p.name).1
  IsApplied k w p overwrite w' = (w' ≡ (b.replace w p.api p.name p).1) × IsFree w p overwrite

  -- The policies' backend reported that the change was made; a policy that was not there counts as
  -- deleted.
  abbrev pub HasSucceeded : Kind → b.World → Policy → Type 0
  HasSucceeded delete_kind w p =
      ((b.delete w p.api p.name).0 ≡ none)
      ⊎ ((e : b.PolicyError) × ((b.delete w p.api p.name).0 ≡ some e) × (b.is_not_found e ≡ true))
  HasSucceeded k w p = (b.replace w p.api p.name p).0 ≡ none

  check_conflict-found :
      (w : b.World) (p q : Policy)
      → b.get_policy w p.api p.name ≡ ok q
      → check_conflict b w p false ≡ err (policy_conflict p.api p.name)
  unfolding check_conflict
  check_conflict-found w p q g = rw (g, check_conflict) refl

  check_conflict-unclear :
      (w : b.World) (p : Policy) (e : b.PolicyError)
      → b.get_policy w p.api p.name ≡ err e
      → b.is_not_found e ≡ false
      → check_conflict b w p false ≡ err (conflict_check e)
  unfolding check_conflict
  check_conflict-unclear w p e g f = rw (g, check_conflict) (rw f refl)

  check_conflict-IsFree :
      (w : b.World) (p : Policy) (overwrite : Bool) (u : Unit {0})
      → check_conflict b w p overwrite ≡ ok u
      → IsFree w p overwrite
  check_conflict-IsFree w p true u h = inl refl
  check_conflict-IsFree w p false u h = elim (Outcome-cases (b.get_policy w p.api p.name)) [
    | inl (q, g) ↦ absurd (err-ne-ok (sym (check_conflict-found w p q g) ∙ h))
    | inr (e, g) ↦ elim (Bool-cases (b.is_not_found e)) [
      | inl f ↦ inr (e, g, f)
      | inr f ↦ absurd (err-ne-ok (sym (check_conflict-unclear w p e g f) ∙ h))
    ]
  ]

  put_policy-conflict :
      (w : b.World) (p : Policy) (overwrite : Bool) (e : Failure b)
      → check_conflict b w p overwrite ≡ err e
      → put_policy b w p overwrite ≡ (err e, w)
  unfolding put_policy
  put_policy-conflict w p overwrite e c = rw (c, put_policy) refl

  put_policy-free :
      (w : b.World) (p : Policy) (overwrite : Bool) (u : Unit {0})
      → check_conflict b w p overwrite ≡ ok u
      → put_policy b w p overwrite ≡ (
        map_err apply_policy (to_outcome (b.replace w p.api p.name p).0 tt),
        (b.replace w p.api p.name p).1,
      )
  unfolding put_policy
  put_policy-free w p overwrite u c = rw (c, put_policy) refl

  -- How an approval that is no deletion ends.
  put_policy-ends :
      (w : b.World) (p : Policy) (overwrite : Bool)
      → ((put_policy b w p overwrite).1 ≡ w)
        ⊎ (((put_policy b w p overwrite).1 ≡ (b.replace w p.api p.name p).1) × IsFree w p overwrite)
  put_policy-ends w p overwrite = elim (Outcome-cases (check_conflict b w p overwrite)) [
    | inr (e, c) ↦ inl (ap (λ x. x.1) (put_policy-conflict w p overwrite e c))
    | inl (u, c) ↦
        inr (
          ap (λ x. x.1) (put_policy-free w p overwrite u c),
          check_conflict-IsFree w p overwrite u c,
        )
  ]

  put_policy-ok :
      (w : b.World) (p : Policy) (overwrite : Bool) (u : Unit {0})
      → (put_policy b w p overwrite).0 ≡ ok u
      → (((put_policy b w p overwrite).1 ≡ (b.replace w p.api p.name p).1) × IsFree w p overwrite)
        × ((b.replace w p.api p.name p).0 ≡ none)
  put_policy-ok w p overwrite u h = elim (Outcome-cases (check_conflict b w p overwrite)) [
    | inr (e, c) ↦
        absurd (err-ne-ok (sym (ap (λ x. x.0) (put_policy-conflict w p overwrite e c)) ∙ h))
    | inl (v, c) ↦
        let out =
          map_err-eq-ok apply_policy _
            (sym (ap (λ x. x.0) (put_policy-free w p overwrite v c)) ∙ h) in
        (
          (
            ap (λ x. x.1) (put_policy-free w p overwrite v c),
            check_conflict-IsFree w p overwrite v c,
          ),
          (to_outcome-eq-ok _ _ out).0,
        )
  ]

  pub apply_to_policies-ends :
      (k : Kind) (w : b.World) (p : Policy) (overwrite : Bool)
      → ((apply_to_policies b k w p overwrite).1 ≡ w)
        ⊎ IsApplied k w p overwrite (apply_to_policies b k w p overwrite).1
  unfolding apply_to_policies
  apply_to_policies-ends delete_kind w p overwrite = inr refl
  apply_to_policies-ends unset_kind w p overwrite = put_policy-ends w p overwrite
  apply_to_policies-ends apply_kind w p overwrite = put_policy-ends w p overwrite
  apply_to_policies-ends (unknown_kind x) w p overwrite = put_policy-ends w p overwrite

  delete_outcome-ok :
      (e : Option b.PolicyError) (u : Unit {0})
      → delete_outcome b e ≡ ok u
      → (e ≡ none) ⊎ ((x : b.PolicyError) × (e ≡ some x) × (b.is_not_found x ≡ true))
  delete_outcome-ok none u h = inl refl
  delete_outcome-ok (some x) u h = elim (Bool-cases (b.is_not_found x)) [
    | inl f ↦ inr (x, refl, f)
    | inr f ↦ absurd (err-ne-ok (rw f at h))
  ]

  pub apply_to_policies-ok :
      (k : Kind) (w : b.World) (p : Policy) (overwrite : Bool) (u : Unit {0})
      → (apply_to_policies b k w p overwrite).0 ≡ ok u
      → IsApplied k w p overwrite (apply_to_policies b k w p overwrite).1 × HasSucceeded k w p
  unfolding apply_to_policies
  apply_to_policies-ok delete_kind w p overwrite u h = (refl, delete_outcome-ok _ u h)
  apply_to_policies-ok unset_kind w p overwrite u h = put_policy-ok w p overwrite u h
  apply_to_policies-ok apply_kind w p overwrite u h = put_policy-ok w p overwrite u h
  apply_to_policies-ok (unknown_kind x) w p overwrite u h = put_policy-ok w p overwrite u h
