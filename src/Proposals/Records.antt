-- ===== src/Proposals/Records.antt =====
-- The records of a proposal (internal/control/proposals/proposals.go), and the interfaces `Store` and
-- `PolicyValidator` that the service depends on.
use bouncer.Base.{ℕ, ◌≡◌, ◌≢◌, Bool, Option, none, some, Str, Outcome, ok}
use bouncer.Models.{Policy}

-- The string types, each with the constants of the code and any other string.
pub data Status : Type 0 where
  proposed approved rejected : Status
  other_status : Str → Status

pub data OriginKind : Type 0 where
  no_origin manual agent from_request : OriginKind
  unknown_origin : Str → OriginKind

pub data Kind : Type 0 where
  unset_kind apply_kind delete_kind : Kind
  unknown_kind : Str → Kind

pub record Origin : Type 0 where
  pub kind : OriginKind
  pub agent : Str
  pub request_id : Str

-- A time is a number; `decided_at` is a pointer.
pub record Proposal : Type 0 where
  pub id : Str
  pub kind : Kind
  pub policy : Policy
  pub status : Status
  pub origin : Origin
  pub author : Str
  pub rationale : Str
  pub created_at : ℕ
  pub updated_at : ℕ
  pub decided_at : Option ℕ
  pub decided_by : Str
  pub rejection_reason : Str

-- `Store` on its rows, and `PolicyValidator` on the world of live policies; `none` is a nil error.
pub record Backend : Type 1 where
  pub Rows : Type 0
  pub StoreError : Type 0
  pub World : Type 0
  pub PolicyError : Type 0
  pub get_row : Rows → Str → Outcome StoreError Proposal
  pub put : Rows → Proposal → Option StoreError × Rows
  pub delete_row : Rows → Str → Option StoreError × Rows
  pub validate : World → Policy → Option PolicyError
  pub replace : World → Str → Str → Policy → Option PolicyError × World
  pub delete : World → Str → Str → Option PolicyError × World
  pub get_policy : World → Str → Str → Outcome PolicyError Policy
  pub is_not_found : PolicyError → Bool

-- What the service relies on of a store: a row is kept under its id, a write changes the row of its
-- id only, and a write that fails changes none.
pub record StoreLaws (b : Backend) : Type 0 where
  pub get-id : (rows : b.Rows) (id : Str) (p : Proposal) → b.get_row rows id ≡ ok p → p.id ≡ id
  pub get-put :
      (rows : b.Rows) (p : Proposal)
      → (b.put rows p).0 ≡ none
      → b.get_row (b.put rows p).1 p.id ≡ ok p
  pub get-put_ne :
      (rows : b.Rows) (p : Proposal) (id : Str)
      → id ≢ p.id
      → b.get_row (b.put rows p).1 id ≡ b.get_row rows id
  pub put-failed :
      (rows : b.Rows) (p : Proposal) (e : b.StoreError)
      → (b.put rows p).0 ≡ some e
      → (b.put rows p).1 ≡ rows
  pub get-delete_ne :
      (rows : b.Rows) (id other : Str)
      → other ≢ id
      → b.get_row (b.delete_row rows id).1 other ≡ b.get_row rows other
