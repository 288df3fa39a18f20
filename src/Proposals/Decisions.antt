-- ===== src/Proposals/Decisions.antt =====
-- What the review workflow (internal/control/proposals/proposals.go) promises: decisions are final,
-- and a policy goes live only through an approval of the proposal as it is stored.
use bouncer.Base.{
  ℕ, ◌≡◌, ◌≢◌, inl, inr, refl, sym, ap, ◌∙◌, Bool, List, [], ◌∷◌, All, Str, Outcome, ok, err,
  >>=-eq-ok, Outcome-cases, ok-injective,
}
use bouncer.Proposals.Records.{proposed, Proposal, Backend, StoreLaws}
use bouncer.Proposals.{
  CreateInput, UpdateInput, resolve, State, Failure, find_proposed, put_proposal, commit, create,
  update, apply_to_policies, approve_found, approve, reject, remove,
}
use bouncer.Proposals.Ends.{
  IsProposed, find_proposed-inv, draft-inv, revise-inv, approve-found, approve-missed,
}

-- The calls of the service that change a store, each with its arguments, its clock and its fresh id.
pub data ProposalOp : Type 0 where
  create_op : CreateInput → Str → ℕ → ProposalOp
  update_op : Str → UpdateInput → ℕ → ProposalOp
  approve_op : Str → Str → Bool → ℕ → ProposalOp
  reject_op : Str → Str → Str → ℕ → ProposalOp
  remove_op : Str → ProposalOp

-- The call neither makes nor purges a proposal of the id.
abbrev pub Spares : Str → ProposalOp → Type 0
Spares id (create_op input k now) = id ≢ k
Spares id (remove_op k) = id ≢ k
Spares id _ = Unit

module _ (b : Backend) where
  abbrev pub apply_op : State b → ProposalOp → State b
  apply_op s (create_op input k now) = (create b s input k now).1
  apply_op s (update_op k input now) = (update b s k input now).1
  apply_op s (approve_op k by overwrite now) = (approve b s k by overwrite now).1
  apply_op s (reject_op k by reason now) = (reject b s k by reason now).1
  apply_op s (remove_op k) = (remove b s k).1

  abbrev pub apply_ops : State b → List ProposalOp → State b
  apply_ops s [] = s
  apply_ops s (op ∷ ops) = apply_ops (apply_op s op) ops

  -- The row of the id is a proposal that was decided.
  abbrev pub IsDecided : State b → Str → Proposal → Type 0
  IsDecided s id p = (b.get_row s.rows id ≡ ok p) × (p.status ≢ proposed)

  -- A write leaves the rows of the other ids as they are.
  commit-ne :
      (laws : StoreLaws b) (s : State b) (o : Outcome (Failure b) Proposal) (id : Str)
      → ((q : Proposal) → o ≡ ok q → id ≢ q.id)
      → b.get_row (commit b s o).1.rows id ≡ b.get_row s.rows id
  unfolding commit put_proposal
  commit-ne laws s (err e) id h = refl
  commit-ne laws s (ok q) id h = laws.get-put_ne s.rows q id (h q refl)

  -- A proposal found in its first state is not the decided one.
  other_id :
      (laws : StoreLaws b) (s : State b) (id k : Str) (p cur : Proposal)
      → IsDecided s id p
      → IsProposed b s k cur
      → id ≢ cur.id
  other_id laws s id k p cur (g, d) (gk, st) e =
      let same : id ≡ k = e ∙ laws.get-id s.rows k cur gk in
      d (ap (λ x. x.status) (ok-injective (sym g ∙ ap (b.get_row s.rows) same ∙ gk)) ∙ st)

  approve_found-ne :
      (laws : StoreLaws b) (s : State b) (cur : Proposal) (by : Str) (overwrite : Bool) (now : ℕ)
      (id : Str)
      → id ≢ cur.id
      → b.get_row (approve_found b s cur by overwrite now).1.rows id ≡ b.get_row s.rows id
  unfolding approve_found
  approve_found-ne laws s cur by overwrite now id n = commit-ne laws _ _ id (λ q h e.
      let (u, _, r) =
        >>=-eq-ok (apply_to_policies b (resolve cur.kind) s.world cur.policy overwrite).0 _ h in
      n (e ∙ ap (λ x. x.id) (sym (ok-injective r))))

  apply_op-ne :
      (laws : StoreLaws b) (s : State b) (op : ProposalOp) (id : Str) (p : Proposal)
      → IsDecided s id p
      → Spares id op
      → b.get_row (apply_op s op).rows id ≡ b.get_row s.rows id
  unfolding create update reject remove
  apply_op-ne laws s (create_op input k now) id p d n =
      commit-ne laws s _ id (λ q h e. n (e ∙ (draft-inv b s input k now q h).0))
  apply_op-ne laws s (update_op k input now) id p d n = commit-ne laws s _ id (λ q h e.
      let (cur, found, (i, _, _)) = revise-inv b s k input now q h in
      other_id laws s id k p cur d found (e ∙ i))
  apply_op-ne laws s (approve_op k by overwrite now) id p d n =
      elim (Outcome-cases (find_proposed b s k)) [
        | inr (e, f) ↦ ap (λ x. b.get_row x.1.rows id) (approve-missed b s k by overwrite now e f)
        | inl (cur, f) ↦
            ap (λ x. b.get_row x.1.rows id) (approve-found b s k by overwrite now cur f)
            ∙ approve_found-ne laws s cur by overwrite now id
                (other_id laws s id k p cur d (find_proposed-inv b s k cur f))
      ]
  apply_op-ne laws s (reject_op k by reason now) id p d n = commit-ne laws s _ id (λ q h e.
      let (cur, f, r) = >>=-eq-ok (find_proposed b s k) _ h in
      other_id laws s id k p cur d (find_proposed-inv b s k cur f)
        (e ∙ ap (λ x. x.id) (sym (ok-injective r))))
  apply_op-ne laws s (remove_op k) id p d n = laws.get-delete_ne s.rows k id n

  -- Under the laws of the proposal store, decisions are final: after any calls of which none
  -- deletes the proposal or makes another under its id, a proposal that was not awaiting its
  -- decision is stored as it was.
  pub apply_ops-IsDecided :
      (laws : StoreLaws b) (s : State b) (ops : List ProposalOp) (id : Str) (p : Proposal)
      → IsDecided s id p
      → All (Spares id) ops
      → b.get_row (apply_ops s ops).rows id ≡ ok p
  apply_ops-IsDecided laws s [] id p (g, d) h = g
  apply_ops-IsDecided laws s (op ∷ ops) id p (g, d) (n, h) =
      apply_ops-IsDecided laws (apply_op s op) ops id p (apply_op-ne laws s op id p (g, d) n ∙ g, d)
        h
