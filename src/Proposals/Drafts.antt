-- ===== src/Proposals/Drafts.antt =====
-- What creating and editing a proposal stores, and what a failed call leaves behind
-- (internal/control/proposals/proposals.go).
use bouncer.Base.{ℕ, ◌≡◌, sym, ap, ◌∙◌, Bool, true, false, Str, Outcome, ok, err}
use bouncer.Proposals.Records.{proposed, Proposal, Backend, StoreLaws}
use bouncer.Proposals.{
  CreateInput, UpdateInput, resolve, State, validate_for_kind, commit, draft, create, revise,
  update,
}
use bouncer.Proposals.Ends.{IsProposed, IsEdit, draft-inv, revise-inv, commit-ok}

module _ (b : Backend) where
  -- Under the laws of the proposal store, creating a proposal that is returned has stored it
  -- under the fresh id, awaiting its decision, with the given policy, which passed the validation
  -- of its kind.
  pub create-ok :
      (laws : StoreLaws b) (s : State b) (input : CreateInput) (id : Str) (now : ℕ) (q : Proposal)
      → (create b s input id now).0 ≡ ok q
      → (b.get_row (create b s input id now).1.rows id ≡ ok q)
        × (q.status ≡ proposed)
        × (q.policy ≡ input.policy)
        × (validate_for_kind b s.world (resolve input.kind) input.policy ≡ ok tt)
  unfolding create
  create-ok laws s input id now q h =
      let (written, there) = commit-ok b laws s (draft b s input id now) q h in
      let (i, st, p, k, v) = draft-inv b s input id now q written in
      (ap (b.get_row (commit b s (draft b s input id now)).1.rows) (sym i) ∙ there, st, p, v)

  -- Under the laws of the proposal store, an edit that returns a proposal found it awaiting its
  -- decision and stored it, still awaiting it, under its id, with the policy it had or one that
  -- passed the validation of its kind.
  pub update-ok :
      (laws : StoreLaws b) (s : State b) (id : Str) (input : UpdateInput) (now : ℕ) (q : Proposal)
      → (update b s id input now).0 ≡ ok q
      → (b.get_row (update b s id input now).1.rows id ≡ ok q)
        × (q.status ≡ proposed)
        × ((cur : Proposal) × IsProposed b s id cur × IsEdit b s cur q)
  unfolding update
  update-ok laws s id input now q h =
      let (written, there) = commit-ok b laws s (revise b s id input now) q h in
      let (cur, (g, st), (i, same, p)) = revise-inv b s id input now q written in
      (
        ap (b.get_row (commit b s (revise b s id input now)).1.rows)
              (sym (i ∙ laws.get-id s.rows id cur g))
            ∙ there,
        same ∙ st,
        (cur, (g, st), (i, same, p)),
      )

  abbrev is_err {ℓ κ} : {E : Type ℓ} {A : Type κ} → Outcome E A → Bool
  is_err (ok a) = false
  is_err (err e) = true
