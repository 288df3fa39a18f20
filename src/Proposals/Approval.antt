-- ===== src/Proposals/Approval.antt =====
-- What an approval (internal/control/proposals/proposals.go, `Approve`) does to the live policies.
use bouncer.Base.{
  ℕ, ◌≡◌, ◌⊎◌, inl, inr, refl, sym, ap, ◌∙◌, subst, Bool, Str, Outcome, ok, err, Outcome-cases,
}
use bouncer.Proposals.Records.{Proposal, Backend}
use bouncer.Proposals.{
  resolve, State, Failure, find_proposed, put_proposal, commit, create, update, apply_to_policies,
  approve_found, reject, remove,
}
use bouncer.Proposals.Ends.{IsProposed, find_proposed-inv, approve-found, approve-missed}
use bouncer.Proposals.Decisions.{
  ProposalOp, create_op, update_op, approve_op, reject_op, remove_op, apply_op,
}
use bouncer.Proposals.Applying.{IsApplied, apply_to_policies-ends}

module _ (b : Backend) where
  commit-world : (s : State b) (o : Outcome (Failure b) Proposal) → (commit b s o).1.world ≡ s.world
  unfolding commit put_proposal
  commit-world s (err e) = refl
  commit-world s (ok p) = refl

  approve_found-world :
      (s : State b) (cur : Proposal) (by : Str) (overwrite : Bool) (now : ℕ)
      → (approve_found b s cur by overwrite now).1.world
        ≡ (apply_to_policies b (resolve cur.kind) s.world cur.policy overwrite).1
  unfolding approve_found
  approve_found-world s cur by overwrite now = commit-world _ _

  -- The call approves a stored proposal that awaits its decision, and made the change it asks for.
  abbrev pub IsApproval : State b → ProposalOp → b.World → Type 0
  IsApproval s op w' =
      (id by : Str) × (overwrite : Bool) × (now : ℕ) × (cur : Proposal) × (op
        ≡ approve_op id by overwrite now)
      × IsProposed b s id cur
      × IsApplied b (resolve cur.kind) s.world cur.policy overwrite w'

  -- Of the five calls of the proposal service, four leave the live policies as they are. An approval
  -- leaves them too, or makes the one change that a stored proposal in the proposed state asks for, with
  -- the policy as stored: for a deletion, the removal of its name, and for all other kinds a replacement,
  -- and that only if the reviewer asked to overwrite or a lookup before reported the name as not found.
  pub apply_op-world :
      (s : State b) (op : ProposalOp)
      → ((apply_op b s op).world ≡ s.world) ⊎ IsApproval s op (apply_op b s op).world
  unfolding create update reject remove
  apply_op-world s (create_op input id now) = inl (commit-world s _)
  apply_op-world s (update_op id input now) = inl (commit-world s _)
  apply_op-world s (reject_op id by reason now) = inl (commit-world s _)
  apply_op-world s (remove_op id) = inl refl
  apply_op-world s (approve_op id by overwrite now) = elim (Outcome-cases (find_proposed b s id)) [
    | inr (e, f) ↦ inl (ap (λ x. x.1.world) (approve-missed b s id by overwrite now e f))
    | inl (cur, f) ↦
        let same =
          ap (λ x. x.1.world) (approve-found b s id by overwrite now cur f)
          ∙ approve_found-world s cur by overwrite now in
        elim (apply_to_policies-ends b (resolve cur.kind) s.world cur.policy overwrite) [
          | inl e ↦ inl (same ∙ e)
          | inr a ↦ inr (
            id,
            by,
            overwrite,
            now,
            cur,
            refl,
            find_proposed-inv b s id cur f,
            subst (IsApplied b (resolve cur.kind) s.world cur.policy overwrite) (sym same) a,
          )
        ]
  ]
