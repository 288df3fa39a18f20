-- ===== src/Examples/Tables.antt =====
-- Example runs of the routing table (internal/runtime/runtime.go) and of the policy store
-- (internal/runtime/api.go).
use bouncer.Base.{
  ℕ, ◌≡◌, ◌≢◌, refl, true, none, List, [], ◌∷◌, Str, bytes, ok, if◌then◌else◌, str_eq, arith,
  str_eq_iff, has_prefix, has_suffix,
}
use bouncer.UrlPath.{split_path}
use bouncer.Models.{PolicyResult, permit, deny}
use bouncer.Routing.{
  ApiSpec, PrefixRoute, agrees, has_segment_prefix, prefix_route, api_routes, all_routes,
  conflict_at, find_conflict, check_conflicts, build_prefix_routes, route_request,
}
use bouncer.Routing.Unique.{IsPrefixFree}
use bouncer.Routing.Declared.{route_request-declared, declared_routes, build_prefix_routes-declared}
use bouncer.PolicyStore.{CompiledPolicy, PolicyStore, new_policy_store, remove, replace, all}
use bouncer.PolicyStore.Named.{count}
use bouncer.PolicyStore.View.{HasUniqueNames, view, is_some, remove_lem}
use bouncer.PolicyStore.Replace.{Updates, replace_lem, names, names-replace, bucket}
use bouncer.PolicyStore.Buckets.{
  add_op, replace_op, remove_op, HasBuckets, apply_ops, apply_ops-HasBuckets,
}

abbrev mail_prefix : Str
mail_prefix = bytes "/gmail/v1"

abbrev specs : List ApiSpec
specs =
    record { name = bytes "drive"; path_prefixes = bytes "/drive" ∷ [] }
    ∷ record { name = bytes "gmail"; path_prefixes = mail_prefix ∷ [] }
    ∷ []

abbrev mail_route : PrefixRoute
mail_route = record {
  segments = bytes "gmail" ∷ bytes "v1" ∷ [];
  api_name = bytes "gmail";
  source = mail_prefix;
}

abbrev routes : List PrefixRoute
routes =
    record { segments = bytes "drive" ∷ []; api_name = bytes "drive"; source = bytes "/drive" }
    ∷ mail_route
    ∷ []

abbrev mail_path : List Str
mail_path = bytes "gmail" ∷ bytes "v1" ∷ bytes "users" ∷ []

routes_built : build_prefix_routes specs ≡ ok routes
unfolding build_prefix_routes all_routes api_routes prefix_route check_conflicts find_conflict
    conflict_at has_segment_prefix agrees split_path has_prefix has_suffix str_eq
routes_built = refl

mail_path_claimed : has_segment_prefix mail_path (split_path mail_prefix) ≡ true
unfolding has_segment_prefix agrees split_path str_eq
mail_path_claimed = refl

route_request-declared_example : route_request routes mail_path ≡ bytes "gmail"
route_request-declared_example =
    route_request-declared specs routes mail_path (bytes "gmail") mail_prefix routes_built
      (1, 0, record { name = bytes "gmail"; path_prefixes = mail_prefix ∷ [] }, refl, refl, refl)
      mail_path_claimed

build_prefix_routes-declared_example : (routes ≡ declared_routes specs) × IsPrefixFree routes
build_prefix_routes-declared_example = build_prefix_routes-declared specs routes routes_built

abbrev policy_named : Str → PolicyResult → CompiledPolicy ℕ
policy_named name result = record {
  api = bytes "gmail";
  name = name;
  result = result;
  principal_pred = 0;
  predicate = 1;
  condition = 2;
  source = record {
    api = bytes "gmail";
    name = name;
    description = [];
    principal = bytes "true";
    action = bytes "true";
    condition = bytes "true";
    result = result;
  };
}

abbrev two_policies : PolicyStore ℕ
two_policies = record {
  deny = policy_named (bytes "no") deny ∷ [];
  permit = policy_named (bytes "yes") permit ∷ [];
}

apply_ops-HasBuckets_example : HasBuckets (
    apply_ops new_policy_store (
      add_op (policy_named (bytes "no") deny)
      ∷ replace_op (policy_named (bytes "no") permit)
      ∷ remove_op (bytes "x")
      ∷ []))
apply_ops-HasBuckets_example = apply_ops-HasBuckets (
    add_op (policy_named (bytes "no") deny)
    ∷ replace_op (policy_named (bytes "no") permit)
    ∷ remove_op (bytes "x")
    ∷ [])

two_policies-HasUniqueNames : HasUniqueNames two_policies
unfolding count
two_policies-HasUniqueNames m =
    ground (arith, str_eq_iff (bytes "no") m, str_eq_iff (bytes "yes") m)

replace_lem_example :
    Updates two_policies
      (policy_named (bytes "no") permit)
      (replace two_policies (policy_named (bytes "no") permit))
replace_lem_example =
    replace_lem two_policies (policy_named (bytes "no") permit) two_policies-HasUniqueNames

remove_lem_example :
    ((m : Str)
      → view (remove two_policies (bytes "no")).0 m
        ≡ (if str_eq (bytes "no") m then none else view two_policies m))
    × ((remove two_policies (bytes "no")).1 ≡ is_some (view two_policies (bytes "no")))
    × HasUniqueNames (remove two_policies (bytes "no")).0
remove_lem_example = remove_lem two_policies (bytes "no") two_policies-HasUniqueNames

denies_no : count (bytes "no") (bucket two_policies (policy_named (bytes "no") deny)) ≢ 0
unfolding count str_eq
denies_no e = omega arith

names-replace_example :
    names (all (replace two_policies (policy_named (bytes "no") deny)).0)
    ≡ bytes "no" ∷ bytes "yes" ∷ []
names-replace_example = names-replace two_policies (policy_named (bytes "no") deny) denies_no
