-- ===== src/PolicyRuntime.antt =====
-- The policies of a runtime: `NewPolicy` (internal/runtime/compiled/policy.go), the policy methods of
-- `APIRuntime` (internal/runtime/api.go) and of `Runtime` (internal/runtime/runtime.go). The
-- compilation of a CEL source is a parameter.
pub mod Homes
use bouncer.Base.{
  Bool, true, false, not, Option, none, some, List, [], ◌∷◌, ◌++◌, if◌then◌else◌, Str, bytes,
  str_eq, Outcome, ok, err, ◌>>=◌, ◌>>◌, guard, map_err,
}
use bouncer.Models.{Policy, ResultError, validate_result}
use bouncer.PolicyStore
use bouncer.PolicyStore.{CompiledPolicy, PolicyStore}

-- Which environment a source is compiled in.
pub data CelSite : Type 0 where
  principal_site action_site condition_site : CelSite

pub data PolicyError : Type 0 where
  bad_result : ResultError → PolicyError
  cel_error : Str → PolicyError
  wrong_api not_registered : Str → PolicyError

-- The fields of `APIRuntime` that its policies are about.
pub record ApiRuntime (P : Type 0) : Type 0 where
  pub name : Str
  pub store : PolicyStore P

module _ {P : Type 0} where
  -- `r.apis[name]`, on the entries of the map in the order of their names
  unfoldable pub find_api : List (ApiRuntime P) → Str → Option (ApiRuntime P)
  find_api [] name = none
  find_api (a ∷ apis) name =
      let rest = find_api apis name in if str_eq a.name name then some a else rest

  -- The store behind the pointer `r.apis[name]` changes.
  unfoldable pub set_store : List (ApiRuntime P) → Str → PolicyStore P → List (ApiRuntime P)
  set_store [] name s = []
  set_store (a ∷ apis) name s =
      let rest = set_store apis name s in
      if str_eq a.name name then record a { store = s } ∷ apis else a ∷ rest

  -- `Runtime.RemovePolicy`
  unfoldable pub remove_policy :
      List (ApiRuntime P) → Str → Str → Outcome PolicyError Bool × List (ApiRuntime P)
  remove_policy apis api name = elim (find_api apis api) [
    | none ↦ (err (not_registered api), apis)
    | some a ↦
        let (s, removed) = PolicyStore.remove a.store name in (ok removed, set_store apis api s)
  ]

  -- `Runtime.ListPolicies`
  unfoldable pub list_policies : List (ApiRuntime P) → List Policy
  list_policies [] = []
  list_policies (a ∷ apis) = PolicyStore.list a.store ++ list_policies apis

  module _ (compile_cel : CelSite → Str → Str → Outcome Str P) where
    -- The empty source of a predicate is the constant `true`.
    abbrev pub predicate_source : Str → Str
    predicate_source [] = bytes "true"
    predicate_source (c ∷ s) = c ∷ s

    -- `NewPolicy`
    unfoldable pub new_policy : Policy → Str → Outcome PolicyError (CompiledPolicy P)
    new_policy p api = do
      map_err bad_result (validate_result p.result)
      principal ← map_err cel_error (compile_cel principal_site api (predicate_source p.principal))
      predicate ← map_err cel_error (compile_cel action_site api (predicate_source p.action))
      condition ← map_err cel_error (compile_cel condition_site api p.condition)
      ok (record {
        api = p.api;
        name = p.name;
        result = p.result;
        principal_pred = principal;
        predicate = predicate;
        condition = condition;
        source = p;
      })

    -- `APIRuntime.compile`
    unfoldable pub compile : ApiRuntime P → Policy → Outcome PolicyError (CompiledPolicy P)
    compile a p = do guard (str_eq p.api a.name) (wrong_api p.api); new_policy p a.name

    -- `APIRuntime.Add`, `APIRuntime.Replace`
    unfoldable pub add_to : ApiRuntime P → Policy → Outcome PolicyError (PolicyStore P)
    add_to a p = do compiled ← compile a p; ok (PolicyStore.add a.store compiled)

    unfoldable pub replace_in : ApiRuntime P → Policy → Outcome PolicyError (PolicyStore P × Bool)
    replace_in a p = do compiled ← compile a p; ok (PolicyStore.replace a.store compiled)

    unfoldable pub put_store :
        List (ApiRuntime P)
        → Str
        → Outcome PolicyError (PolicyStore P × Bool)
        → Outcome PolicyError Bool × List (ApiRuntime P)
    put_store apis api (err e) = (err e, apis)
    put_store apis api (ok (s, existed)) = (ok existed, set_store apis api s)

    -- `Runtime.AddPolicy`; its result has no boolean, which is false here.
    unfoldable pub add_policy :
        List (ApiRuntime P) → Policy → Outcome PolicyError Bool × List (ApiRuntime P)
    add_policy apis p = elim (find_api apis p.api) [
      | none ↦ (err (not_registered p.api), apis)
      | some a ↦ put_store apis p.api (add_to a p >>= λ s. ok (s, false))
    ]

    -- `Runtime.ReplacePolicy`
    unfoldable pub replace_policy :
        List (ApiRuntime P) → Policy → Outcome PolicyError Bool × List (ApiRuntime P)
    replace_policy apis p = elim (find_api apis p.api) [
      | none ↦ (err (not_registered p.api), apis)
      | some a ↦ put_store apis p.api (replace_in a p)
    ]

    -- `Runtime.ValidatePolicy`
    unfoldable pub validate_policy : List (ApiRuntime P) → Policy → Outcome PolicyError (Unit {0})
    validate_policy apis p = elim (find_api apis p.api) [
      | none ↦ err (not_registered p.api)
      | some a ↦ compile a p >>= λ _. ok tt
    ]
