-- ===== src/Proposals.antt =====
-- The review workflow of policy proposals (internal/control/proposals/proposals.go). The proposal
-- store and the policy service are parameters. The mutex makes each method one step.
pub mod Records
pub mod Ends
pub mod Decisions
pub mod Applying
pub mod Approval
pub mod Drafts
use bouncer.Base.{
  ℕ, Bool, true, false, not, ◌||◌, Option, none, some, [], ◌∷◌, if◌then◌else◌, Str, bytes, Outcome,
  ok, err, ◌>>=◌, ◌>>◌, guard, to_outcome, map_err,
}
use bouncer.Models.{Policy}
use bouncer.Proposals.Records.{
  Status, proposed, approved, rejected, OriginKind, Kind, unset_kind, apply_kind, delete_kind,
  unknown_kind, no_origin, manual, agent, from_request, unknown_origin, Origin, Proposal, Backend,
}

pub record CreateInput : Type 0 where
  pub kind : Kind
  pub policy : Policy
  pub origin : Origin
  pub author : Str
  pub rationale : Str

-- `none` is a nil pointer, which leaves the field alone.
pub record UpdateInput : Type 0 where
  pub policy : Option Policy
  pub rationale : Option Str

pub data InvalidReason (E : Type 0) : Type 0 where
  bad_kind bad_origin : Str → InvalidReason E
  api_and_name_required : InvalidReason E
  policy_error : E → InvalidReason E

-- The errors of the methods, in the order of the code; `S` and `E` are those of the two backends.
pub data ProposalError (S E : Type 0) : Type 0 where
  store_get store_put : S → ProposalError S E
  invalid : InvalidReason E → ProposalError S E
  bad_transition : Str → Status → ProposalError S E
  policy_conflict : Str → Str → ProposalError S E
  conflict_check apply_policy_delete apply_policy : E → ProposalError S E

-- `OriginKind.Validate`, `Kind.Validate` and `Kind.Resolve`
unfoldable pub validate_origin_kind :
    {E : Type 0} → OriginKind → Outcome (InvalidReason E) (Unit {0})
validate_origin_kind (unknown_origin k) = err (bad_origin k)
validate_origin_kind _ = ok tt

unfoldable pub validate_kind : {E : Type 0} → Kind → Outcome (InvalidReason E) (Unit {0})
validate_kind (unknown_kind k) = err (bad_kind k)
validate_kind _ = ok tt

abbrev pub resolve : Kind → Kind
resolve unset_kind = apply_kind
resolve k = k

abbrev pub is_empty : Str → Bool
is_empty [] = true
is_empty (_ ∷ _) = false

-- `Status == StatusProposed`
abbrev pub is_proposed : Status → Bool
is_proposed proposed = true
is_proposed _ = false

module _ (b : Backend) where
  open b use {
    Rows, StoreError, World, PolicyError, get_row, put, delete_row, validate, replace, delete,
    get_policy, is_not_found,
  }

  abbrev pub Failure : Type 0
  Failure = ProposalError StoreError PolicyError

  -- The two stores that the methods change.
  pub record State : Type 0 where
    pub rows : Rows
    pub world : World

  -- `validateForKind`
  unfoldable pub validate_for_kind :
      World → Kind → Policy → Outcome (InvalidReason PolicyError) (Unit {0})
  validate_for_kind w delete_kind p =
      if is_empty p.api || is_empty p.name then err api_and_name_required else ok tt
  validate_for_kind w k p = map_err policy_error (to_outcome (validate w p) tt)

  -- `s.store.Get`, then the test of the status, with which `Update`, `Approve` and `Reject` begin.
  unfoldable pub find_proposed : State → Str → Outcome Failure Proposal
  find_proposed s id = do
    cur ← map_err store_get (get_row s.rows id)
    guard (is_proposed cur.status) (bad_transition id cur.status)
    ok cur

  -- `s.store.Put`, with which a method ends.
  unfoldable pub put_proposal : State → Proposal → Outcome Failure Proposal × State
  put_proposal s p =
      let (e, rows) = put s.rows p in (map_err store_put (to_outcome e p), record s { rows = rows })

  unfoldable pub commit : State → Outcome Failure Proposal → Outcome Failure Proposal × State
  commit s (err e) = (err e, s)
  commit s (ok p) = put_proposal s p

  -- `Create` up to the store; `id` and `now` are what `idFn` and `nowFn` return.
  unfoldable pub draft : State → CreateInput → Str → ℕ → Outcome Failure Proposal
  draft s input id now = do
    map_err invalid (validate_kind input.kind)
    map_err invalid (validate_origin_kind input.origin.kind)
    map_err invalid (validate_for_kind s.world (resolve input.kind) input.policy)
    ok (record {
      id = id;
      kind = resolve input.kind;
      policy = input.policy;
      status = proposed;
      origin = input.origin;
      author = input.author;
      rationale = input.rationale;
      created_at = now;
      updated_at = now;
      decided_at = none;
      decided_by = [];
      rejection_reason = [];
    })

  unfoldable pub create : State → CreateInput → Str → ℕ → Outcome Failure Proposal × State
  create s input id now = commit s (draft s input id now)

  -- The edits of `Update`, in its order.
  unfoldable pub edit_policy : State → Proposal → Option Policy → Outcome Failure Proposal
  edit_policy s cur none = ok cur
  edit_policy s cur (some p) = do
    map_err invalid (validate_for_kind s.world (resolve cur.kind) p)
    ok (record cur { policy = p })

  abbrev pub edit_rationale : Proposal → Option Str → Proposal
  edit_rationale cur none = cur
  edit_rationale cur (some text) = record cur { rationale = text }

  unfoldable pub revise : State → Str → UpdateInput → ℕ → Outcome Failure Proposal
  revise s id input now = do
    cur ← find_proposed s id
    edited ← edit_policy s cur input.policy
    ok (record (edit_rationale edited input.rationale) { updated_at = now })

  unfoldable pub update : State → Str → UpdateInput → ℕ → Outcome Failure Proposal × State
  update s id input now = commit s (revise s id input now)

  -- The conflict check of `Approve`, which only a definite "not found" passes.
  unfoldable pub check_conflict : World → Policy → Bool → Outcome Failure (Unit {0})
  check_conflict w p true = ok tt
  check_conflict w p false = elim (get_policy w p.api p.name) [
    | ok _ ↦ err (policy_conflict p.api p.name)
    | err e ↦ if is_not_found e then ok tt else err (conflict_check e)
  ]

  -- The result of the policy service's `Delete`: "not found" counts as done.
  abbrev pub delete_outcome : Option PolicyError → Outcome Failure (Unit {0})
  delete_outcome none = ok tt
  delete_outcome (some e) = if is_not_found e then ok tt else err (apply_policy_delete e)

  -- The second case of the switch of `Approve`.
  unfoldable pub put_policy : World → Policy → Bool → Outcome Failure (Unit {0}) × World
  put_policy w p overwrite = elim (check_conflict w p overwrite) [
    | err e ↦ (err e, w)
    | ok _ ↦ let (e, w') = replace w p.api p.name p in (map_err apply_policy (to_outcome e tt), w')
  ]

  -- The switch of `Approve`.
  unfoldable pub apply_to_policies :
      Kind → World → Policy → Bool → Outcome Failure (Unit {0}) × World
  apply_to_policies delete_kind w p overwrite =
      let (e, w') = delete w p.api p.name in (delete_outcome e, w')
  apply_to_policies k w p overwrite = put_policy w p overwrite

  abbrev pub approval : Proposal → Str → ℕ → Proposal
  approval cur by now = record cur {
    status = approved;
    updated_at = now;
    decided_at = some now;
    decided_by = by;
  }

  unfoldable pub approve_found :
      State → Proposal → Str → Bool → ℕ → Outcome Failure Proposal × State
  approve_found s cur by overwrite now =
      let (r, w) = apply_to_policies (resolve cur.kind) s.world cur.policy overwrite in
      commit (record s { world = w }) (r >> ok (approval cur by now))

  unfoldable pub approve : State → Str → Str → Bool → ℕ → Outcome Failure Proposal × State
  approve s id by overwrite now = elim (find_proposed s id) [
    | err e ↦ (err e, s)
    | ok cur ↦ approve_found s cur by overwrite now
  ]

  abbrev pub rejection : Proposal → Str → Str → ℕ → Proposal
  rejection cur by reason now = record cur {
    status = rejected;
    updated_at = now;
    decided_at = some now;
    decided_by = by;
    rejection_reason = reason;
  }

  unfoldable pub reject : State → Str → Str → Str → ℕ → Outcome Failure Proposal × State
  reject s id by reason now =
      commit s (do cur ← find_proposed s id; ok (rejection cur by reason now))

  unfoldable pub remove : State → Str → Option StoreError × State
  remove s id = let (e, rows) = delete_row s.rows id in (e, record s { rows = rows })
