-- ===== src/PolicyService/Removal.antt =====
-- Deleting a policy through the policy service (internal/control/policies/policies.go): what the
-- runtime lists is registered there, so that the runtime's part of a deletion cannot fail.
use bouncer.Base.{
  ◌≡◌, ◌⊎◌, inl, inr, refl, sym, ap, ◌∙◌, subst, Bool, true, false, none, some, List, [], ◌∷◌, ◌++◌,
  map, All, Str, str_eq, str_eq_iff, Outcome, ok, err, Option-cases, Bool-cases, append_assoc,
  if◌then◌else◌,
}
use bouncer.Models.{Policy}
use bouncer.PolicyStore
use bouncer.PolicyStore.{CompiledPolicy, PolicyStore}
use bouncer.PolicyStore.Every.{Every}
use bouncer.PolicyRuntime.{CelSite, ApiRuntime, find_api, remove_policy, list_policies}
use bouncer.PolicyRuntime.Homes.{IsFor, HasHomes, remove_policy-found}
use bouncer.PolicyService.{
  Durable, read_only, not_found, store_delete, find_in, Failure, Service, find, remove_live,
  delete_found, delete_policy,
}

module _ {P : Type 0} where
  -- Where the policies that are listed have the key, its API is registered.
  find_in-home :
      (ps : List (CompiledPolicy P)) (rest : List Policy) (home api name : Str) (p : Policy)
      → All (IsFor home) ps
      → find_in (map (λ x. x.source) ps ++ rest) api name ≡ some p
      → (home ≡ api) ⊎ (find_in rest api name ≡ some p)
  unfolding find_in
  find_in-home [] rest home api name p h f = inr f
  find_in-home (x ∷ ps) rest home api name p (hx, h) f =
      elim (Bool-cases (str_eq x.source.api api)) [
        | inl e ↦ inl (sym hx ∙ (str_eq_iff x.source.api api).0 e)
        | inr e ↦ find_in-home ps rest home api name p h (rw e at f)
      ]

  registered_here :
      (a : ApiRuntime P) (apis : List (ApiRuntime P)) (api : Str)
      → (a.name ≡ api) ⊎ ((x : ApiRuntime P) × (find_api apis api ≡ some x))
      → (x : ApiRuntime P) × (find_api (a ∷ apis) api ≡ some x)
  unfolding find_api
  registered_here a apis api (inl e) = (a, rw ((str_eq_iff a.name api).1 e) refl)
  registered_here a apis api (inr (x, f)) = elim (Bool-cases (str_eq a.name api)) [
    | inl e ↦ (a, rw e refl)
    | inr e ↦ (x, rw e f)
  ]

  find_in-permit :
      (s : PolicyStore P) (rest : List Policy) (home api name : Str) (p : Policy)
      → Every (IsFor home) s
      → (home ≡ api) ⊎ (find_in (map (λ x. x.source) s.permit ++ rest) api name ≡ some p)
      → (home ≡ api) ⊎ (find_in rest api name ≡ some p)
  find_in-permit s rest home api name p (hd, hp) (inl e) = inl e
  find_in-permit s rest home api name p (hd, hp) (inr f) =
      find_in-home s.permit rest home api name p hp f

  find_in-store :
      (s : PolicyStore P) (rest : List Policy) (home api name : Str) (p : Policy)
      → Every (IsFor home) s
      → find_in (PolicyStore.list s ++ rest) api name ≡ some p
      → (home ≡ api) ⊎ (find_in rest api name ≡ some p)
  unfolding PolicyStore.list
  find_in-store s rest home api name p (hd, hp) f =
      let sources = map (λ x. x.source) in
      let split = append_assoc (sources s.deny) (sources s.permit) rest in
      find_in-permit s rest home api name p (hd, hp)
        (find_in-home s.deny (sources s.permit ++ rest) home api name p hd
          (ap (λ ps. find_in ps api name) (sym split) ∙ f))

  in_rest :
      (apis : List (ApiRuntime P)) (home api name : Str) (p : Policy)
      → (find_in (list_policies apis) api name ≡ some p
          → (x : ApiRuntime P) × (find_api apis api ≡ some x))
      → (home ≡ api) ⊎ (find_in (list_policies apis) api name ≡ some p)
      → (home ≡ api) ⊎ ((x : ApiRuntime P) × (find_api apis api ≡ some x))
  in_rest apis home api name p ih (inl e) = inl e
  in_rest apis home api name p ih (inr f) = inr (ih f)

  -- The API of a listed policy is registered.
  find_in-listed :
      (apis : List (ApiRuntime P)) (api name : Str) (p : Policy)
      → HasHomes apis
      → find_in (list_policies apis) api name ≡ some p
      → (a : ApiRuntime P) × (find_api apis api ≡ some a)
  unfolding list_policies
  find_in-listed [] api name p h f = unfold find_in in cc
  find_in-listed (a ∷ apis) api name p (ha, h) f = registered_here a apis api (
      in_rest apis a.name api name p (find_in-listed apis api name p h)
        (find_in-store a.store (list_policies apis) a.name api name p ha f))

module _ {P : Type 0} (compile_cel : CelSite → Str → Str → Outcome Str P) (d : Durable) where
  abbrev pub Answer : Type 0
  Answer = Outcome (Failure compile_cel d) (Unit {0}) × Service compile_cel d

  -- The policy is deleted from the durable store and removed from the runtime.
  abbrev pub IsDeleted : Service compile_cel d → Str → Str → Answer → Type 0
  IsDeleted s api name x =
      (x.0 ≡ ok tt)
      × ((p : Policy) × (find compile_cel d s api name ≡ some p))
      × ((d.delete s.rows api name).0 ≡ none)
      × (x.1.rows ≡ (d.delete s.rows api name).1)
      × ((removed : Bool) × ((remove_policy s.apis api name).0 ≡ ok removed))
      × (x.1.apis ≡ (remove_policy s.apis api name).1)

  -- The runtime is as it was, and so is the durable store unless it reported the error.
  abbrev pub IsKept : Service compile_cel d → Str → Str → Answer → Type 0
  IsKept s api name x =
      (e : Failure compile_cel d) × (x.0 ≡ err e)
      × (x.1.apis ≡ s.apis)
      × ((x.1.rows ≡ s.rows)
          ⊎ ((f : d.Error) × ((d.delete s.rows api name).0 ≡ some f) × (e ≡ store_delete f)))

  delete_found-failed :
      (s : Service compile_cel d) (api name : Str) (x : d.Error)
      → (d.delete s.rows api name).0 ≡ some x
      → delete_found compile_cel d s api name
        ≡ (err (store_delete x), record s { rows = (d.delete s.rows api name).1 })
  unfolding delete_found
  delete_found-failed s api name x e = rw (e, delete_found) refl

  delete_found-removed :
      (s : Service compile_cel d) (api name : Str) (removed : Bool)
      → (d.delete s.rows api name).0 ≡ none
      → (remove_policy s.apis api name).0 ≡ ok removed
      → delete_found compile_cel d s api name ≡ (
        ok tt,
        record s { rows = (d.delete s.rows api name).1; apis = (remove_policy s.apis api name).1 },
      )
  unfolding delete_found remove_live
  delete_found-removed s api name removed e r = rw (e, delete_found) (rw (r, remove_live) refl)

  delete_found-ends :
      (s : Service compile_cel d) (api name : Str) (p : Policy)
      → HasHomes s.apis
      → find compile_cel d s api name ≡ some p
      → IsDeleted s api name (delete_found compile_cel d s api name)
        ⊎ IsKept s api name (delete_found compile_cel d s api name)
  delete_found-ends s api name p h f = elim (Option-cases (d.delete s.rows api name).0) [
    | inr (x, e) ↦
        let step = delete_found-failed s api name x e in
        inr (store_delete x, ap (λ y. y.0) step, ap (λ y. y.1.apis) step, inr (x, e, refl))
    | inl e ↦
        let (a, g) = find_in-listed s.apis api name p h f in
        let removed = (PolicyStore.remove a.store name).1 in
        let gone = ap (λ x. x.0) (remove_policy-found s.apis api name a g) in
        let step = delete_found-removed s api name removed e gone in
        inl (
          ap (λ y. y.0) step,
          (p, f),
          e,
          ap (λ y. y.1.rows) step,
          (removed, gone),
          ap (λ y. y.1.apis) step,
        )
  ]

  delete_policy-locked :
      (s : Service compile_cel d) (api name : Str)
      → s.readonly ≡ true
      → delete_policy compile_cel d s api name ≡ (err read_only, s)
  unfolding delete_policy
  delete_policy-locked s api name e = rw e refl

  delete_policy-missed :
      (s : Service compile_cel d) (api name : Str)
      → s.readonly ≡ false
      → find compile_cel d s api name ≡ none
      → delete_policy compile_cel d s api name ≡ (err not_found, s)
  unfolding delete_policy
  delete_policy-missed s api name e f =
      let locked : Answer = (err read_only, s) in
      let missed : Answer = (err not_found, s) in
      rw (f, delete_policy) (ap (λ c. if c then locked else missed) e)

  delete_policy-found :
      (s : Service compile_cel d) (api name : Str) (p : Policy)
      → s.readonly ≡ false
      → find compile_cel d s api name ≡ some p
      → delete_policy compile_cel d s api name ≡ delete_found compile_cel d s api name
  unfolding delete_policy
  delete_policy-found s api name p e f =
      let locked : Answer = (err read_only, s) in
      rw (f, delete_policy)
        (ap (λ c. if c then locked else delete_found compile_cel d s api name) e)

  pub delete_policy-ends :
      (s : Service compile_cel d) (api name : Str)
      → HasHomes s.apis
      → IsDeleted s api name (delete_policy compile_cel d s api name)
        ⊎ IsKept s api name (delete_policy compile_cel d s api name)
  delete_policy-ends s api name h = elim (Bool-cases s.readonly) [
    | inl e ↦
        let step = delete_policy-locked s api name e in
        inr (read_only, ap (λ y. y.0) step, ap (λ y. y.1.apis) step, inl (ap (λ y. y.1.rows) step))
    | inr e ↦ elim (Option-cases (find compile_cel d s api name)) [
      | inl f ↦
          let step = delete_policy-missed s api name e f in
          inr
            (not_found, ap (λ y. y.0) step, ap (λ y. y.1.apis) step, inl (ap (λ y. y.1.rows) step))
      | inr (p, f) ↦
          subst (λ x. IsDeleted s api name x ⊎ IsKept s api name x)
            (sym (delete_policy-found s api name p e f)) (delete_found-ends s api name p h f)
    ]
  ]
