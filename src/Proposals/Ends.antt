-- ===== src/Proposals/Ends.antt =====
-- How each method of the proposal service ends: what it read, what it wrote, and to which store.
use bouncer.Base.{
  ℕ, ◌≡◌, ◌⊎◌, inl, inr, refl, sym, ap, ◌∙◌, Bool, true, Option, none, some, Str, Outcome, ok, err,
  guard, >>=-eq-ok, ok-injective, err-ne-ok, subst, Option-cases, to_outcome, map_err,
  map_err-eq-ok, to_outcome-eq-ok, guard-eq-ok,
}
use bouncer.Models.{Policy}
use bouncer.Proposals.Records.{
  Status, proposed, approved, rejected, other_status, Proposal, Backend, StoreLaws,
}
use bouncer.Proposals.{
  CreateInput, UpdateInput, resolve, is_proposed, State, Failure, validate_for_kind, find_proposed,
  put_proposal, commit, draft, edit_policy, edit_rationale, revise, approve_found, approve,
  store_get, store_put, bad_transition, validate_kind, validate_origin_kind, invalid,
}

is_proposed_lem : (st : Status) → is_proposed st ≡ true → st ≡ proposed
is_proposed_lem proposed h = refl
is_proposed_lem approved h = cc
is_proposed_lem rejected h = cc
is_proposed_lem (other_status x) h = cc

module _ (b : Backend) where
  -- The row of the id is a proposal that awaits its decision.
  abbrev pub IsProposed : State b → Str → Proposal → Type 0
  IsProposed s id p = (b.get_row s.rows id ≡ ok p) × (p.status ≡ proposed)

  pub find_proposed-inv :
      (s : State b) (id : Str) (p : Proposal) → find_proposed b s id ≡ ok p → IsProposed s id p
  unfolding find_proposed
  find_proposed-inv s id p h =
      let (cur, g, r) = >>=-eq-ok (map_err store_get (b.get_row s.rows id)) _ h in
      let (u, c, e) =
        >>=-eq-ok (guard (is_proposed cur.status) (bad_transition id cur.status)) _ r in
      let same : cur ≡ p = ok-injective e in
      (
        map_err-eq-ok store_get (b.get_row s.rows id) g ∙ ap ok same,
        ap (λ x. x.status) (sym same) ∙ is_proposed_lem cur.status (guard-eq-ok _ _ c),
      )

  pub draft-inv :
      (s : State b) (input : CreateInput) (id : Str) (now : ℕ) (p : Proposal)
      → draft b s input id now ≡ ok p
      → (p.id ≡ id)
        × (p.status ≡ proposed)
        × (p.policy ≡ input.policy)
        × (p.kind ≡ resolve input.kind)
        × (validate_for_kind b s.world (resolve input.kind) input.policy ≡ ok tt)
  unfolding draft
  draft-inv s input id now p h =
      let (u, c, h₁) = >>=-eq-ok (map_err invalid (validate_kind input.kind)) _ h in
      let (v, d, h₂) = >>=-eq-ok (map_err invalid (validate_origin_kind input.origin.kind)) _ h₁ in
      let (x, e, h₃) =
        >>=-eq-ok (map_err invalid (validate_for_kind b s.world (resolve input.kind) input.policy))
          _ h₂ in
      let same = ok-injective h₃ in
      (
        ap (λ q. q.id) (sym same),
        ap (λ q. q.status) (sym same),
        ap (λ q. q.policy) (sym same),
        ap (λ q. q.kind) (sym same),
        map_err-eq-ok invalid _ e,
      )

  -- What an edit may do to a proposal.
  abbrev pub IsEdit : State b → Proposal → Proposal → Type 0
  IsEdit s cur p =
      (p.id ≡ cur.id)
      × (p.status ≡ cur.status)
      × ((p.policy ≡ cur.policy)
          ⊎ (validate_for_kind b s.world (resolve cur.kind) p.policy ≡ ok tt))

  edit_policy-inv :
      (s : State b) (cur : Proposal) (change : Option Policy) (p : Proposal)
      → edit_policy b s cur change ≡ ok p
      → IsEdit s cur p
  unfolding edit_policy
  edit_policy-inv s cur none p h = subst (IsEdit s cur) (ok-injective h) (refl, refl, inl refl)
  edit_policy-inv s cur (some q) p h =
      let (u, e, r) =
        >>=-eq-ok (map_err invalid (validate_for_kind b s.world (resolve cur.kind) q)) _ h in
      subst (IsEdit s cur) (ok-injective r) (refl, refl, inr (map_err-eq-ok invalid _ e))

  edit_rationale-IsEdit :
      (s : State b) (cur p : Proposal) (text : Option Str) (now : ℕ)
      → IsEdit s cur p
      → IsEdit s cur (record (edit_rationale b p text) { updated_at = now })
  edit_rationale-IsEdit s cur p none now h = h
  edit_rationale-IsEdit s cur p (some text) now h = h

  pub revise-inv :
      (s : State b) (id : Str) (input : UpdateInput) (now : ℕ) (p : Proposal)
      → revise b s id input now ≡ ok p
      → (cur : Proposal) × IsProposed s id cur × IsEdit s cur p
  unfolding revise
  revise-inv s id input now p h =
      let (cur, f, h₁) = >>=-eq-ok (find_proposed b s id) _ h in
      let (edited, e, h₂) = >>=-eq-ok (edit_policy b s cur input.policy) _ h₁ in
      (
        cur,
        find_proposed-inv s id cur f,
        subst (IsEdit s cur) (ok-injective h₂) (
            edit_rationale-IsEdit s cur edited input.rationale now
              (edit_policy-inv s cur input.policy edited e)),
      )

  -- A method that ends in a write returns the proposal that it wrote.
  pub put_proposal-ok :
      (laws : StoreLaws b) (s : State b) (p q : Proposal)
      → (put_proposal b s p).0 ≡ ok q
      → (p ≡ q) × (b.get_row (put_proposal b s p).1.rows p.id ≡ ok p)
  unfolding put_proposal
  put_proposal-ok laws s p q h =
      let (e, same) = to_outcome-eq-ok (b.put s.rows p).0 p (map_err-eq-ok store_put _ h) in
      (same, laws.get-put s.rows p e)

  -- A failed write changes no row.
  pub put_proposal-err :
      (laws : StoreLaws b) (s : State b) (p : Proposal) (x : Failure b)
      → (put_proposal b s p).0 ≡ err x
      → (put_proposal b s p).1.rows ≡ s.rows
  unfolding put_proposal
  put_proposal-err laws s p x h = elim (Option-cases (b.put s.rows p).0) [
    | inl e ↦
        absurd (err-ne-ok (sym h ∙ ap (λ o. map_err {F = Failure b} store_put (to_outcome o p)) e))
    | inr (e, f) ↦ laws.put-failed s.rows p e f
  ]

  pub approve-found :
      (s : State b) (id : Str) (by : Str) (overwrite : Bool) (now : ℕ) (cur : Proposal)
      → find_proposed b s id ≡ ok cur
      → approve b s id by overwrite now ≡ approve_found b s cur by overwrite now
  unfolding approve
  approve-found s id by overwrite now cur f = rw (f, approve) refl

  pub approve-missed :
      (s : State b) (id : Str) (by : Str) (overwrite : Bool) (now : ℕ) (e : Failure b)
      → find_proposed b s id ≡ err e
      → approve b s id by overwrite now ≡ (err e, s)
  unfolding approve
  approve-missed s id by overwrite now e f = rw (f, approve) refl

  -- A method that ends in `commit` and returns a proposal has stored it under its id.
  pub commit-ok :
      (laws : StoreLaws b) (s : State b) (o : Outcome (Failure b) Proposal) (q : Proposal)
      → (commit b s o).0 ≡ ok q
      → (o ≡ ok q) × (b.get_row (commit b s o).1.rows q.id ≡ ok q)
  unfolding commit
  commit-ok laws s (err e) q h = absurd (err-ne-ok h)
  commit-ok laws s (ok p) q h =
      let (same, there) = put_proposal-ok laws s p q h in
      (ap ok same, subst (λ x. b.get_row (put_proposal b s p).1.rows x.id ≡ ok x) same there)

  -- A method that ends in `commit` and fails leaves the rows as they are.
  pub commit-err :
      (laws : StoreLaws b) (s : State b) (o : Outcome (Failure b) Proposal) (x : Failure b)
      → (commit b s o).0 ≡ err x
      → (commit b s o).1.rows ≡ s.rows
  unfolding commit
  commit-err laws s (err e) x h = refl
  commit-err laws s (ok p) x h = put_proposal-err laws s p x h
