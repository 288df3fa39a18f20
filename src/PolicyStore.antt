-- ===== src/PolicyStore.antt =====
-- The per-API policy set (internal/runtime/api.go, `policyStore`): deny policies before permit
-- policies. The mutex makes each method one step, so a method is a function on the two slices.
pub mod Named
pub mod View
pub mod Replace
pub mod Buckets
pub mod Every
use mathlib.Core.Option
use bouncer.Base.{
  ℕ, zero, suc, ◌+◌, Bool, true, false, not, Option, none, some, List, [], ◌∷◌, ◌++◌, map,
  if◌then◌else◌, take, drop, Str, str_eq,
}
use bouncer.Models.{Policy, PolicyResult, deny}

-- A compiled policy (internal/runtime/compiled/policy.go); `P` is the type of CEL programs.
pub record CompiledPolicy (P : Type 0) : Type 0 where
  pub api : Str
  pub name : Str
  pub result : PolicyResult
  pub principal_pred : P
  pub predicate : P
  pub condition : P
  pub source : Policy

pub record PolicyStore (P : Type 0) : Type 0 where
  pub deny : List (CompiledPolicy P)
  pub permit : List (CompiledPolicy P)

-- `p.Result == models.Deny`
abbrev pub is_deny : PolicyResult → Bool
is_deny PolicyResult.deny = true
is_deny _ = false

module _ {P : Type 0} where
  -- -1 is `none`.
  unfoldable pub index_by_name : List (CompiledPolicy P) → Str → Option ℕ
  index_by_name [] name = none
  index_by_name (p ∷ ps) name =
      if str_eq p.name name then some 0 else Option.map suc (index_by_name ps name)

  -- `ps[i] = p`
  unfoldable pub set_at : List (CompiledPolicy P) → ℕ → CompiledPolicy P → List (CompiledPolicy P)
  set_at [] i p = []
  set_at (q ∷ ps) zero p = p ∷ ps
  set_at (q ∷ ps) (suc i) p = q ∷ set_at ps i p

  -- `append(ps[:i], ps[i+1:]...)`
  abbrev pub remove_at : List (CompiledPolicy P) → ℕ → List (CompiledPolicy P)
  remove_at ps i = take i ps ++ drop (suc i) ps

  unfoldable pub append_locked : PolicyStore P → CompiledPolicy P → PolicyStore P
  append_locked s p =
      if is_deny p.result
      then record s { deny = s.deny ++ (p ∷ []) }
      else record s { permit = s.permit ++ (p ∷ []) }

  unfoldable pub remove_permit : PolicyStore P → Option ℕ → PolicyStore P × Bool
  remove_permit s none = (s, false)
  remove_permit s (some i) = (record s { permit = remove_at s.permit i }, true)

  unfoldable pub remove_locked : PolicyStore P → Str → PolicyStore P × Bool
  unfolding remove_permit
  remove_locked s name = elim (index_by_name s.deny name) [
    | some i ↦ (record s { deny = remove_at s.deny i }, true)
    | none ↦ remove_permit s (index_by_name s.permit name)
  ]

  unfoldable pub new_policy_store : PolicyStore P
  new_policy_store = record { deny = []; permit = [] }

  unfoldable pub add : PolicyStore P → CompiledPolicy P → PolicyStore P
  unfolding append_locked
  add s p = append_locked s p

  unfoldable pub remove : PolicyStore P → Str → PolicyStore P × Bool
  unfolding remove_locked
  remove s name = remove_locked s name

  -- The result flips, or the policy is new.
  unfoldable pub relocate : PolicyStore P → CompiledPolicy P → PolicyStore P × Bool
  relocate s p = let (s', existed) = remove_locked s p.name in (append_locked s' p, existed)

  unfoldable pub replace : PolicyStore P → CompiledPolicy P → PolicyStore P × Bool
  unfolding relocate
  replace s p =
      if is_deny p.result
      then elim (index_by_name s.deny p.name) [
        | some i ↦ (record s { deny = set_at s.deny i p }, true)
        | none ↦ relocate s p
      ]
      else elim (index_by_name s.permit p.name) [
        | some i ↦ (record s { permit = set_at s.permit i p }, true)
        | none ↦ relocate s p
      ]

  -- The snapshot that `all` iterates over.
  abbrev pub all : PolicyStore P → List (CompiledPolicy P)
  all s = s.deny ++ s.permit

  -- Both loops of `list`.
  unfoldable pub list : PolicyStore P → List Policy
  list s = map (λ p. p.source) s.deny ++ map (λ p. p.source) s.permit
