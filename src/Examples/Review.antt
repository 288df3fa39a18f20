-- ===== src/Examples/Review.antt =====
-- An example of the review workflow (internal/control/proposals/proposals.go), on a store of rows
-- and a set of live policies that are association lists.
use bouncer.Base.{
  ◌≡◌, ◌≢◌, ◌⊎◌, refl, Bool, true, false, some, none, List, [], ◌∷◌, Str, bytes, Outcome, ok, err,
  str_eq, str_eq_iff, if◌then◌else◌, arith,
}
use bouncer.Models.{Policy, permit}
use bouncer.Proposals.Records.{
  Proposal, Backend, StoreLaws, proposed, apply_kind, unset_kind, manual,
}
use bouncer.Proposals.{
  CreateInput, UpdateInput, State, find_proposed, put_proposal, commit, draft, create, revise,
  edit_policy, update, validate_for_kind, validate_kind, validate_origin_kind, approval,
}
use bouncer.Proposals.Ends.{IsProposed, IsEdit}
use bouncer.Proposals.Decisions.{
  approve_op, reject_op, apply_op, apply_ops, IsDecided, apply_ops-IsDecided,
}
use bouncer.Proposals.Approval.{IsApproval, apply_op-world}
use bouncer.Proposals.Drafts.{create-ok, update-ok}

-- The rows, the last written first.
abbrev row_of : List Proposal → Str → Outcome Bool Proposal
row_of [] id = err true
row_of (p ∷ rows) id = let rest = row_of rows id in if str_eq p.id id then ok p else rest

abbrev without : List Proposal → Str → List Proposal
without [] id = []
without (p ∷ rows) id = let rest = without rows id in if str_eq p.id id then rest else p ∷ rest

abbrev live_policy : List Policy → Str → Str → Outcome Bool Policy
live_policy [] api name = err true
live_policy (p ∷ ps) api name =
    let rest = live_policy ps api name in if str_eq p.name name then ok p else rest

-- An error is `true` for "not found".
abbrev lists : Backend
lists = record {
  Rows = List Proposal;
  StoreError = Bool;
  World = List Policy;
  PolicyError = Bool;
  get_row = row_of;
  put = λ rows p. (none, p ∷ rows);
  delete_row = λ rows id. (none, without rows id);
  validate = λ w p. none;
  replace = λ w api name p. (none, p ∷ w);
  delete = λ w api name. (none, []);
  get_policy = live_policy;
  is_not_found = λ e. e;
}

row_of-id : (rows : List Proposal) (id : Str) (p : Proposal) → row_of rows id ≡ ok p → p.id ≡ id
row_of-id [] id p h = cc
row_of-id (q ∷ rows) id p h = ground (arith, str_eq_iff q.id id, row_of-id rows id p)

row_of-without :
    (rows : List Proposal) (id other : Str)
    → other ≢ id
    → row_of (without rows id) other ≡ row_of rows other
row_of-without [] id other n = refl
row_of-without (q ∷ rows) id other n =
    ground (arith, str_eq_iff q.id id, str_eq_iff q.id other, row_of-without rows id other n)

lists-laws : StoreLaws lists
lists-laws = record {
  get-id = row_of-id;
  get-put = λ rows p h. ground (arith, str_eq_iff p.id p.id);
  get-put_ne = λ rows p id n. ground (arith, str_eq_iff p.id id);
  put-failed = λ rows p e h. cc;
  get-delete_ne = row_of-without;
}

abbrev candidate : Policy
candidate = record {
  api = bytes "drive";
  name = bytes "read";
  description = [];
  principal = bytes "true";
  action = bytes "true";
  condition = bytes "true";
  result = permit;
}

abbrev submission : CreateInput
submission = record {
  kind = unset_kind;
  policy = candidate;
  origin = record { kind = manual; agent = []; request_id = [] };
  author = bytes "a";
  rationale = [];
}

abbrev waiting : Proposal
waiting = record {
  id = bytes "p1";
  kind = apply_kind;
  policy = candidate;
  status = proposed;
  origin = record { kind = manual; agent = []; request_id = [] };
  author = bytes "a";
  rationale = [];
  created_at = 1;
  updated_at = 1;
  decided_at = none;
  decided_by = [];
  rejection_reason = [];
}

abbrev empty_state : State lists
empty_state = record { rows = []; world = [] }

abbrev waiting_state : State lists
waiting_state = record { rows = waiting ∷ []; world = [] }

created : (create lists empty_state submission (bytes "p1") 1).0 ≡ ok waiting
unfolding create draft commit put_proposal validate_kind validate_origin_kind validate_for_kind
created = refl

create-ok_example :
    (row_of (create lists empty_state submission (bytes "p1") 1).1.rows (bytes "p1") ≡ ok waiting)
    × (waiting.status ≡ proposed)
    × (waiting.policy ≡ candidate)
    × (validate_for_kind lists [] apply_kind candidate ≡ ok tt)
create-ok_example = create-ok lists lists-laws empty_state submission (bytes "p1") 1 waiting created

abbrev reworded : UpdateInput
reworded = record { policy = some candidate; rationale = some (bytes "why") }

abbrev edited : Proposal
edited = record waiting { rationale = bytes "why"; updated_at = 2 }

updated : (update lists waiting_state (bytes "p1") reworded 2).0 ≡ ok edited
unfolding update revise find_proposed edit_policy commit put_proposal validate_for_kind str_eq
updated = refl

update-ok_example :
    (row_of (update lists waiting_state (bytes "p1") reworded 2).1.rows (bytes "p1") ≡ ok edited)
    × (edited.status ≡ proposed)
    × ((cur : Proposal) × IsProposed lists waiting_state (bytes "p1") cur
        × IsEdit lists waiting_state cur edited)
update-ok_example = update-ok lists lists-laws waiting_state (bytes "p1") reworded 2 edited updated

apply_op-world_example :
    ((apply_op lists waiting_state (approve_op (bytes "p1") (bytes "r") false 3)).world ≡ [])
    ⊎ IsApproval lists waiting_state
        (approve_op (bytes "p1") (bytes "r") false 3)
        (apply_op lists waiting_state (approve_op (bytes "p1") (bytes "r") false 3)).world
apply_op-world_example =
    apply_op-world lists waiting_state (approve_op (bytes "p1") (bytes "r") false 3)

abbrev decided_state : State lists
decided_state = record { rows = approval lists waiting (bytes "r") 3 ∷ []; world = candidate ∷ [] }

decided : IsDecided lists decided_state (bytes "p1") (approval lists waiting (bytes "r") 3)
unfolding str_eq
decided = (refl, λ e. cc)

apply_ops-IsDecided_example :
    row_of
      (apply_ops lists decided_state (
        approve_op (bytes "p1") (bytes "s") true 4
        ∷ reject_op (bytes "p1") (bytes "s") [] 5
        ∷ [])).rows
      (bytes "p1")
    ≡ ok (approval lists waiting (bytes "r") 3)
apply_ops-IsDecided_example =
    apply_ops-IsDecided lists lists-laws decided_state
      (approve_op (bytes "p1") (bytes "s") true 4 ∷ reject_op (bytes "p1") (bytes "s") [] 5 ∷ [])
      (bytes "p1") (approval lists waiting (bytes "r") 3) decided (tt, (tt, tt))
