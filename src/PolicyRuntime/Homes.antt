-- ===== src/PolicyRuntime/Homes.antt =====
-- Which API the policies of a runtime stand in, and when the methods of `Runtime`
-- (internal/runtime/runtime.go) cannot fail.
use bouncer.Base.{
  ◌≡◌, inl, inr, refl, sym, ap, ◌∙◌, Bool, none, some, List, [], ◌∷◌, All, Str, str_eq, str_eq_iff,
  Outcome, ok, err, ◌>>=◌, Outcome-cases, Option-cases, Bool-cases, >>=-eq-ok, err-ne-ok, guard,
  map_err, ok-injective, subst, some-injective,
}
use bouncer.Models.{Policy, validate_result}
use bouncer.PolicyStore
use bouncer.PolicyStore.{CompiledPolicy, PolicyStore, list}
use bouncer.PolicyStore.Every.{Every, replace-Every, remove-Every}
use bouncer.PolicyRuntime.{
  CelSite, PolicyError, not_registered, ApiRuntime, wrong_api, bad_result, cel_error,
  principal_site, action_site, condition_site, predicate_source, new_policy, find_api, set_store,
  remove_policy, compile, replace_in, put_store, replace_policy, validate_policy,
}

module _ {P : Type 0} where
  -- The policy was written for the API of the name.
  abbrev pub IsFor : Str → CompiledPolicy P → Type 0
  IsFor name p = p.source.api ≡ name

  -- Each policy stands with the API that it was written for.
  abbrev pub HasHomes : List (ApiRuntime P) → Type 0
  HasHomes apis = All (λ a. Every (IsFor a.name) a.store) apis

  pub find_api-name :
      (apis : List (ApiRuntime P)) (name : Str) (a : ApiRuntime P)
      → HasHomes apis
      → find_api apis name ≡ some a
      → (a.name ≡ name) × Every (IsFor name) a.store
  unfolding find_api
  find_api-name [] name a h f = cc
  find_api-name (x ∷ apis) name a (hx, h) f = elim (Bool-cases (str_eq x.name name)) [
    | inr e ↦ find_api-name apis name a h (rw e at f)
    | inl e ↦
        let same : x ≡ a = some-injective (rw e at f) in
        let named : x.name ≡ name = (str_eq_iff x.name name).0 e in
        (
          ap (λ y. y.name) (sym same) ∙ named,
          subst (λ y. Every (IsFor name) y.store) same
              (subst (λ n. Every (IsFor n) x.store) named hx),
        )
  ]

  set_store-HasHomes :
      (apis : List (ApiRuntime P)) (name : Str) (s : PolicyStore P)
      → HasHomes apis
      → Every (IsFor name) s
      → HasHomes (set_store apis name s)
  unfolding set_store
  set_store-HasHomes [] name s h hs = tt
  set_store-HasHomes (x ∷ apis) name s (hx, h) hs = elim (Bool-cases (str_eq x.name name)) [
    | inr e ↦ rw e (hx, set_store-HasHomes apis name s h hs)
    | inl e ↦ rw e (subst (λ n. Every (IsFor n) s) (sym ((str_eq_iff x.name name).0 e)) hs, h)
  ]

  pub remove_policy-found :
      (apis : List (ApiRuntime P)) (api name : Str) (a : ApiRuntime P)
      → find_api apis api ≡ some a
      → remove_policy apis api name ≡ (
        ok (PolicyStore.remove a.store name).1,
        set_store apis api (PolicyStore.remove a.store name).0,
      )
  unfolding remove_policy
  remove_policy-found apis api name a f = rw (f, remove_policy) refl

  pub remove_policy-missed :
      (apis : List (ApiRuntime P)) (api name : Str)
      → find_api apis api ≡ none
      → remove_policy apis api name ≡ (err (not_registered api), apis)
  unfolding remove_policy
  remove_policy-missed apis api name f = rw (f, remove_policy) refl

  pub remove_policy-HasHomes :
      (apis : List (ApiRuntime P)) (api name : Str)
      → HasHomes apis
      → HasHomes (remove_policy apis api name).1
  remove_policy-HasHomes apis api name h = elim (Option-cases (find_api apis api)) [
    | inl f ↦ subst HasHomes (sym (ap (λ x. x.1) (remove_policy-missed apis api name f))) h
    | inr (a, f) ↦ subst HasHomes (sym (ap (λ x. x.1) (remove_policy-found apis api name a f))) (
        set_store-HasHomes apis api _ h
          (remove-Every (IsFor api) a.store name (find_api-name apis api a h f).1))
  ]

  module _ (compile_cel : CelSite → Str → Str → Outcome Str P) where
    validate_policy-missed :
        (apis : List (ApiRuntime P)) (p : Policy)
        → find_api apis p.api ≡ none
        → validate_policy compile_cel apis p ≡ err (not_registered p.api)
    unfolding validate_policy
    validate_policy-missed apis p f = rw (f, validate_policy) refl

    validate_policy-found :
        (apis : List (ApiRuntime P)) (p : Policy) (a : ApiRuntime P)
        → find_api apis p.api ≡ some a
        → validate_policy compile_cel apis p ≡ (compile compile_cel a p >>= λ _. ok tt)
    unfolding validate_policy
    validate_policy-found apis p a f = rw (f, validate_policy) refl

    replace_policy-found :
        (apis : List (ApiRuntime P)) (p : Policy) (a : ApiRuntime P) (compiled : CompiledPolicy P)
        → find_api apis p.api ≡ some a
        → compile compile_cel a p ≡ ok compiled
        → replace_policy compile_cel apis p ≡ (
          ok (PolicyStore.replace a.store compiled).1,
          set_store apis p.api (PolicyStore.replace a.store compiled).0,
        )
    unfolding replace_policy replace_in put_store
    replace_policy-found apis p a compiled f c = rw (f, replace_policy) (rw (c, replace_in) refl)

    -- A policy that validates is put in the runtime without an error.
    pub validate_policy-replaces :
        (apis : List (ApiRuntime P)) (p : Policy) (u : Unit {0})
        → validate_policy compile_cel apis p ≡ ok u
        → (existed : Bool) × ((replace_policy compile_cel apis p).0 ≡ ok existed)
    validate_policy-replaces apis p u h = elim (Option-cases (find_api apis p.api)) [
      | inl f ↦ absurd (err-ne-ok (sym (validate_policy-missed apis p f) ∙ h))
      | inr (a, f) ↦
          let (compiled, c, _) =
            >>=-eq-ok (compile compile_cel a p) _ (sym (validate_policy-found apis p a f) ∙ h) in
          (
            (PolicyStore.replace a.store compiled).1,
            ap (λ x. x.0) (replace_policy-found apis p a compiled f c),
          )
    ]

    compile-source :
        (a : ApiRuntime P) (p : Policy) (compiled : CompiledPolicy P)
        → compile compile_cel a p ≡ ok compiled
        → compiled.source ≡ p
    unfolding compile new_policy
    compile-source a p compiled h =
        let (u, _, h₁) = >>=-eq-ok (guard (str_eq p.api a.name) (wrong_api p.api)) _ h in
        let (v, _, h₂) = >>=-eq-ok (map_err bad_result (validate_result p.result)) _ h₁ in
        let (x, _, h₃) =
          >>=-eq-ok
            (map_err cel_error
              (compile_cel principal_site a.name (predicate_source compile_cel p.principal)))
            _ h₂ in
        let (y, _, h₄) =
          >>=-eq-ok
            (map_err cel_error
              (compile_cel action_site a.name (predicate_source compile_cel p.action)))
            _ h₃ in
        let (z, _, h₅) =
          >>=-eq-ok (map_err cel_error (compile_cel condition_site a.name p.condition)) _ h₄ in
        sym (ap (λ c. c.source) (ok-injective h₅))

    replace_policy-missed :
        (apis : List (ApiRuntime P)) (p : Policy)
        → find_api apis p.api ≡ none
        → replace_policy compile_cel apis p ≡ (err (not_registered p.api), apis)
    unfolding replace_policy
    replace_policy-missed apis p f = rw (f, replace_policy) refl

    replace_policy-rejected :
        (apis : List (ApiRuntime P)) (p : Policy) (a : ApiRuntime P) (e : PolicyError)
        → find_api apis p.api ≡ some a
        → compile compile_cel a p ≡ err e
        → replace_policy compile_cel apis p ≡ (err e, apis)
    unfolding replace_policy replace_in put_store
    replace_policy-rejected apis p a e f c = rw (f, replace_policy) (rw (c, replace_in) refl)

    pub replace_policy-HasHomes :
        (apis : List (ApiRuntime P)) (p : Policy)
        → HasHomes apis
        → HasHomes (replace_policy compile_cel apis p).1
    replace_policy-HasHomes apis p h = elim (Option-cases (find_api apis p.api)) [
      | inl f ↦ subst HasHomes (sym (ap (λ x. x.1) (replace_policy-missed apis p f))) h
      | inr (a, f) ↦ elim (Outcome-cases (compile compile_cel a p)) [
        | inr (e, c) ↦
            subst HasHomes (sym (ap (λ x. x.1) (replace_policy-rejected apis p a e f c))) h
        | inl (compiled, c) ↦
            subst HasHomes (sym (ap (λ x. x.1) (replace_policy-found apis p a compiled f c))) (
              set_store-HasHomes apis p.api _ h (
                replace-Every (IsFor p.api) a.store compiled
                  (ap (λ q. q.api) (compile-source a p compiled c))
                  (find_api-name apis p.api a h f).1))
      ]
    ]

    -- A replacement that fails leaves the runtime as it was.
    pub replace_policy-err :
        (apis : List (ApiRuntime P)) (p : Policy) (e : PolicyError)
        → (replace_policy compile_cel apis p).0 ≡ err e
        → (replace_policy compile_cel apis p).1 ≡ apis
    replace_policy-err apis p e h = elim (Option-cases (find_api apis p.api)) [
      | inl f ↦ ap (λ x. x.1) (replace_policy-missed apis p f)
      | inr (a, f) ↦ elim (Outcome-cases (compile compile_cel a p)) [
        | inr (x, c) ↦ ap (λ x. x.1) (replace_policy-rejected apis p a x f c)
        | inl (compiled, c) ↦
            absurd (err-ne-ok (sym h ∙ ap (λ x. x.0) (replace_policy-found apis p a compiled f c)))
      ]
    ]
