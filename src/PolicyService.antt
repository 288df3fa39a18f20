-- ===== src/PolicyService.antt =====
-- The policy service (internal/control/policies/policies.go) over a runtime and a durable store, which
-- is a parameter. The mutex makes each method one step.
pub mod Writes
pub mod Removal
pub mod Import
pub mod Homes
pub mod Layers
pub mod Layered
pub mod Boot
use bouncer.Base.{
  Bool, true, false, not, ◌&&◌, ◌||◌, Option, none, some, List, [], ◌∷◌, ◌++◌, if◌then◌else◌, Str,
  str_eq, Outcome, ok, err, ◌>>=◌, ◌>>◌, guard, map_err, to_outcome,
}
use bouncer.Models.{Policy, ResultError, validate_result}
use bouncer.PolicyRuntime.{
  CelSite, PolicyError, ApiRuntime, remove_policy, list_policies, replace_policy, validate_policy,
}

-- `Store`; `none` is a nil error.
pub record Durable : Type 1 where
  pub Rows : Type 0
  pub Error : Type 0
  pub list : Rows → Outcome Error (List Policy)
  pub put : Rows → Policy → Option Error × Rows
  pub delete : Rows → Str → Str → Option Error × Rows

pub data SchemaError : Type 0 where
  api_required name_required condition_required : SchemaError
  result_invalid : ResultError → SchemaError

-- The errors of the methods; `E` is that of the durable store.
pub data ServiceError (E : Type 0) : Type 0 where
  read_only not_found conflict api_path : ServiceError E
  bad_schema : SchemaError → ServiceError E
  bad_policy runtime_apply runtime_remove : PolicyError → ServiceError E
  store_list store_put store_delete : E → ServiceError E
  import_invalid : ServiceError E
  persist_failed : Str → Str → ServiceError E → ServiceError E

abbrev is_empty : Str → Bool
is_empty [] = true
is_empty (_ ∷ _) = false

-- `basicSchema`
unfoldable pub basic_schema : Policy → Outcome SchemaError (Unit {0})
basic_schema p = do
  guard (not (is_empty p.api)) api_required
  guard (not (is_empty p.name)) name_required
  guard (not (is_empty p.condition)) condition_required
  map_err result_invalid (validate_result p.result)

-- The loop of `find`.
unfoldable pub find_in : List Policy → Str → Str → Option Policy
find_in [] api name = none
find_in (p ∷ ps) api name =
    let rest = find_in ps api name in
    if str_eq p.api api && str_eq p.name name then some p else rest

module _ {P : Type 0} (compile_cel : CelSite → Str → Str → Outcome Str P) (d : Durable) where
  open d use {Rows, Error, list, put, delete}

  abbrev pub Failure : Type 0
  Failure = ServiceError Error

  pub record Service : Type 0 where
    pub readonly : Bool
    pub rows : Rows
    pub apis : List (ApiRuntime P)

  abbrev pub find : Service → Str → Str → Option Policy
  find s api name = find_in (list_policies s.apis) api name

  -- `Validate`
  unfoldable pub validate : Service → Policy → Outcome Failure (Unit {0})
  validate s p = do
    map_err bad_schema (basic_schema p)
    map_err bad_policy (validate_policy compile_cel s.apis p)

  -- What `persistAndApply` does after `Put`.
  unfoldable pub apply_policy : Service → Policy → Outcome Failure (Unit {0}) × Service
  apply_policy s p =
      let (r, apis) = replace_policy compile_cel s.apis p in
      (map_err runtime_apply r >>= (λ _. ok tt), record s { apis = apis })

  -- `persistAndApply`
  unfoldable pub persist_and_apply : Service → Policy → Outcome Failure (Unit {0}) × Service
  persist_and_apply s p =
      let (e, rows) = put s.rows p in
      elim e [
        | some x ↦ (err (store_put x), record s { rows = rows })
        | none ↦ apply_policy (record s { rows = rows }) p
      ]

  unfoldable pub write_if :
      Service → Outcome Failure (Unit {0}) → Policy → Outcome Failure (Unit {0}) × Service
  write_if s (err e) p = (err e, s)
  write_if s (ok _) p = persist_and_apply s p

  -- The tests of `Create` and of `Replace`.
  unfoldable pub may_create : Service → Policy → Outcome Failure (Unit {0})
  may_create s p = do
    guard (not s.readonly) read_only
    validate s p
    elim (find s p.api p.name) [ none ↦ ok tt | some _ ↦ err conflict ]

  unfoldable pub may_replace : Service → Str → Str → Policy → Outcome Failure (Unit {0})
  may_replace s api name p = do
    guard (not s.readonly) read_only
    guard (str_eq p.api api && str_eq p.name name) api_path
    validate s p

  unfoldable pub create : Service → Policy → Outcome Failure (Unit {0}) × Service
  create s p = write_if s (may_create s p) p

  unfoldable pub replace : Service → Str → Str → Policy → Outcome Failure (Unit {0}) × Service
  replace s api name p = write_if s (may_replace s api name p) p

  -- `Delete` from the runtime on, and from the store on.
  unfoldable pub remove_live : Service → Str → Str → Outcome Failure (Unit {0}) × Service
  remove_live s api name =
      let (r, apis) = remove_policy s.apis api name in
      (map_err runtime_remove r >>= (λ _. ok tt), record s { apis = apis })

  unfoldable pub delete_found : Service → Str → Str → Outcome Failure (Unit {0}) × Service
  delete_found s api name =
      let (e, rows) = delete s.rows api name in
      elim e [
        | some x ↦ (err (store_delete x), record s { rows = rows })
        | none ↦ remove_live (record s { rows = rows }) api name
      ]

  -- `Delete`
  unfoldable pub delete_policy : Service → Str → Str → Outcome Failure (Unit {0}) × Service
  delete_policy s api name =
      if s.readonly
      then (err read_only, s)
      else elim (find s api name) [ none ↦ (err not_found, s) | some _ ↦ delete_found s api name ]

  -- `Get`
  unfoldable pub get : Service → Str → Str → Outcome Failure Policy
  get s api name = elim (find s api name) [ none ↦ err not_found | some p ↦ ok p ]

  -- The loop of `LoadFromStore`.
  unfoldable pub replay : Service → List Policy → Outcome Failure (Unit {0}) × Service
  replay s [] = (ok tt, s)
  replay s (p ∷ ps) =
      let (r, s') = apply_policy s p in elim r [ err e ↦ (err e, s') | ok _ ↦ replay s' ps ]

  -- `LoadFromStore`
  unfoldable pub load_from_store : Service → Outcome Failure (Unit {0}) × Service
  load_from_store s = elim (list s.rows) [ err e ↦ (err (store_list e), s) | ok ps ↦ replay s ps ]
