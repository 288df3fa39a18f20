-- ===== src/PolicyService/Boot.antt =====
-- What is live after the policies of the durable store were loaded (LoadFromStore of
-- internal/control/policies/policies.go).
use bouncer.Base.{
  ◌≡◌, inl, inr, refl, sym, ap, ◌∙◌, subst, Bool, true, false, Option, none, some, List, [], ◌∷◌,
  All, arith, if◌then◌else◌, Str, str_eq, str_eq_iff, str_eq_refl, Outcome, ok, guard, map_err,
  >>=-eq-ok, map_err-eq-ok, ok-injective, some-injective, Option-cases, Bool-cases, Outcome-cases,
  err-ne-ok,
}
use bouncer.Models.{Policy, validate_result}
use bouncer.PolicyStore.{CompiledPolicy, PolicyStore}
use bouncer.PolicyStore
use bouncer.PolicyStore.View.{HasUniqueNames, view}
use bouncer.PolicyStore.Replace.{replace_lem}
use bouncer.PolicyRuntime.{
  CelSite, ApiRuntime, find_api, set_store, principal_site, action_site, condition_site,
  predicate_source, bad_result, cel_error, wrong_api, new_policy, compile, replace_in, put_store,
  replace_policy,
}
use bouncer.PolicyService.{Durable, Service, runtime_apply, apply_policy, replay, load_from_store}
use bouncer.PolicyService.Layers.{View, or_else, has_key, last_of}

module _ {P : Type 0} where
  abbrev source_of : Option (CompiledPolicy P) → Option Policy
  source_of none = none
  source_of (some c) = some c.source

  abbrev source_in : Option (ApiRuntime P) → Str → Option Policy
  source_in none name = none
  source_in (some a) name = source_of (view a.store name)

  -- The source of the policy that an API has under a name.
  abbrev pub live : List (ApiRuntime P) → View
  live apis api name = source_in (find_api apis api) name

  -- In no API do two policies share a name.
  abbrev pub HasTables : List (ApiRuntime P) → Type 0
  HasTables apis = All (λ (a : ApiRuntime P). HasUniqueNames a.store) apis

  find_api-HasTables :
      (apis : List (ApiRuntime P)) (api : Str) (a : ApiRuntime P)
      → HasTables apis
      → find_api apis api ≡ some a
      → HasUniqueNames a.store
  unfolding find_api
  find_api-HasTables [] api a h f = cc
  find_api-HasTables (b ∷ apis) api a (u, h) f = elim (Bool-cases (str_eq b.name api)) [
    | inl e ↦
        subst (λ (x : ApiRuntime P). HasUniqueNames x.store)
          (some-injective (rw (e, find_api) at f)) u
    | inr e ↦ find_api-HasTables apis api a h (rw (e, find_api) at f)
  ]

  set_store-HasTables :
      (apis : List (ApiRuntime P)) (api : Str) (s : PolicyStore P)
      → HasTables apis
      → HasUniqueNames s
      → HasTables (set_store apis api s)
  unfolding set_store
  set_store-HasTables [] api s h u = tt
  set_store-HasTables (b ∷ apis) api s (v, h) u = elim (Bool-cases (str_eq b.name api)) [
    | inl e ↦ rw (e, set_store) (u, h)
    | inr e ↦ rw (e, set_store) (v, set_store-HasTables apis api s h u)
  ]

  find_api-set_store :
      (apis : List (ApiRuntime P)) (api : Str) (s : PolicyStore P) (a : ApiRuntime P)
      → find_api apis api ≡ some a
      → find_api (set_store apis api s) api ≡ some (record a { store = s })
  unfolding find_api set_store
  find_api-set_store [] api s a h = cc
  find_api-set_store (b ∷ apis) api s a h = elim (Bool-cases (str_eq b.name api)) [
    | inl e ↦
        rw (e, set_store)
          (rw (e, find_api)
            (ap (λ (x : ApiRuntime P). some (record x { store = s }))
              (some-injective (rw (e, find_api) at h))))
    | inr e ↦
        rw (e, set_store)
          (rw (e, find_api) (find_api-set_store apis api s a (rw (e, find_api) at h)))
  ]

  find_api-set_store_ne :
      (apis : List (ApiRuntime P)) (api other : Str) (s : PolicyStore P)
      → str_eq api other ≡ false
      → find_api (set_store apis api s) other ≡ find_api apis other
  unfolding find_api set_store
  find_api-set_store_ne [] api other s h = refl
  find_api-set_store_ne (b ∷ apis) api other s h = elim (Bool-cases (str_eq b.name api)) [
    | inl e ↦ ground (arith, str_eq_iff b.name api)
    | inr e ↦ ground (arith, find_api-set_store_ne apis api other s h)
  ]

  module _ (compile_cel : CelSite → Str → Str → Outcome Str P) where
    compile-source :
        (a : ApiRuntime P) (p : Policy) (c : CompiledPolicy P)
        → compile compile_cel a p ≡ ok c
        → (c.source ≡ p) × (c.name ≡ p.name)
    unfolding compile new_policy
    compile-source a p c h =
        let (_, _, r0) = >>=-eq-ok (guard (str_eq p.api a.name) (wrong_api p.api)) _ h in
        let (_, _, r1) = >>=-eq-ok (map_err bad_result (validate_result p.result)) _ r0 in
        let (x, _, r2) =
          >>=-eq-ok
            (map_err cel_error
              (compile_cel principal_site a.name (predicate_source compile_cel p.principal)))
            _ r1 in
        let (y, _, r3) =
          >>=-eq-ok
            (map_err cel_error
              (compile_cel action_site a.name (predicate_source compile_cel p.action)))
            _ r2 in
        let (z, _, r4) =
          >>=-eq-ok (map_err cel_error (compile_cel condition_site a.name p.condition)) _ r3 in
        (
          ap (λ (k : CompiledPolicy P). k.source) (sym (ok-injective r4)),
          ap (λ (k : CompiledPolicy P). k.name) (sym (ok-injective r4)),
        )

    -- What `Runtime.ReplacePolicy` stores when it succeeds.
    replace_policy-inv :
        (apis : List (ApiRuntime P)) (p : Policy) (existed : Bool)
        → (replace_policy compile_cel apis p).0 ≡ ok existed
        → (a : ApiRuntime P) × (c : CompiledPolicy P) × (find_api apis p.api ≡ some a)
          × (c.source ≡ p)
          × (c.name ≡ p.name)
          × ((replace_policy compile_cel apis p).1
              ≡ set_store apis p.api (PolicyStore.replace a.store c).0)
    unfolding replace_policy replace_in put_store
    replace_policy-inv apis p existed h = elim (Option-cases (find_api apis p.api)) [
      | inl n ↦ absurd (err-ne-ok (rw (n, replace_policy) at h))
      | inr (a, f) ↦ elim (Outcome-cases (compile compile_cel a p)) [
        | inr (x, c) ↦ absurd (err-ne-ok (rw (f, c, replace_policy, replace_in, put_store) at h))
        | inl (c, e) ↦
            let (source, name) = compile-source a p c e in
            (a, c, f, source, name, rw (f, e, replace_policy, replace_in, put_store) refl)
      ]
    ]

    named :
        (b : Bool) (c : CompiledPolicy P) (p : Policy) (o : Option (CompiledPolicy P))
        → c.source ≡ p
        → source_of (if b then some c else o) ≡ (if b then some p else source_of o)
    named true c p o h = ap some h
    named false c p o h = refl

    stored_here :
        (apis : List (ApiRuntime P)) (p : Policy) (a : ApiRuntime P) (c : CompiledPolicy P)
        (s : PolicyStore P) (name : Str)
        → find_api apis p.api ≡ some a
        → c.source ≡ p
        → c.name ≡ p.name
        → view s name ≡ (if str_eq c.name name then some c else view a.store name)
        → live (set_store apis p.api s) p.api name
          ≡ (if has_key p.api name p then some p else live apis p.api name)
    stored_here apis p a c s name f source same u =
        ap (λ x. source_in x name) (find_api-set_store apis p.api s a f)
        ∙ ap source_of u
        ∙ named (str_eq c.name name) c p (view a.store name) source
        ∙ rw (f, same, str_eq_refl p.api) refl

    stored_elsewhere :
        (apis : List (ApiRuntime P)) (p : Policy) (s : PolicyStore P) (api name : Str)
        → str_eq p.api api ≡ false
        → live (set_store apis p.api s) api name
          ≡ (if has_key api name p then some p else live apis api name)
    stored_elsewhere apis p s api name h =
        rw h (ap (λ x. source_in x name) (find_api-set_store_ne apis p.api api s h))

    replace_policy-live :
        (apis : List (ApiRuntime P)) (p : Policy) (existed : Bool)
        → HasTables apis
        → (replace_policy compile_cel apis p).0 ≡ ok existed
        → HasTables (replace_policy compile_cel apis p).1
          × ((api name : Str)
              → live (replace_policy compile_cel apis p).1 api name
                ≡ (if has_key api name p then some p else live apis api name))
    replace_policy-live apis p existed tables h =
        let (a, c, f, source, same, e) = replace_policy-inv apis p existed h in
        let s = (PolicyStore.replace a.store c).0 in
        let (updated, _, unique) =
          replace_lem a.store c (find_api-HasTables apis p.api a tables f) in
        (
          subst HasTables (sym e) (set_store-HasTables apis p.api s tables unique),
          λ api name.
              ap (λ (l : List (ApiRuntime P)). live l api name) e
              ∙ elim (Bool-cases (str_eq p.api api)) [
                | inl k ↦
                    subst
                      (λ x.
                        live (set_store apis p.api s) x name
                        ≡ (if has_key x name p then some p else live apis x name))
                      ((str_eq_iff p.api api).0 k)
                      (stored_here apis p a c s name f source same (updated name))
                | inr k ↦ stored_elsewhere apis p s api name k
              ],
        )

module _ {P : Type 0} (compile_cel : CelSite → Str → Str → Outcome Str P) (d : Durable) where
  apply_policy-ok :
      (s : Service compile_cel d) (p : Policy)
      → (apply_policy compile_cel d s p).0 ≡ ok tt
      → (existed : Bool) × ((replace_policy compile_cel s.apis p).0 ≡ ok existed)
  unfolding apply_policy
  apply_policy-ok s p h =
      let (existed, e, _) =
        >>=-eq-ok (map_err runtime_apply (replace_policy compile_cel s.apis p).0) _ h in
      (existed, map_err-eq-ok runtime_apply _ e)

  before :
      (b : Bool) (p : Policy) (later now : Option Policy)
      → or_else later (if b then some p else now)
        ≡ or_else (or_else later (if b then some p else none)) now
  before b p later now = ground arith

  replay-live :
      (ps : List Policy) (s : Service compile_cel d)
      → HasTables s.apis
      → (replay compile_cel d s ps).0 ≡ ok tt
      → (api name : Str)
      → live (replay compile_cel d s ps).1.apis api name
        ≡ or_else (last_of ps api name) (live s.apis api name)
  unfolding replay last_of apply_policy
  replay-live [] s tables h api name = refl
  replay-live (p ∷ ps) s tables h api name =
      elim (Outcome-cases (apply_policy compile_cel d s p).0) [
        | inr (e, f) ↦ absurd (err-ne-ok (rw (f, replay) at h))
        | inl (u, f) ↦
            let (existed, e) = apply_policy-ok s p f in
            let (tables', l) = replace_policy-live compile_cel s.apis p existed tables e in
            let s' = (apply_policy compile_cel d s p).1 in
            rw (f, replay)
              (replay-live ps s' tables' (rw (f, replay) at h) api name
                ∙ ap (or_else (last_of ps api name)) (l api name)
                ∙ before (has_key api name p) p (last_of ps api name) (live s.apis api name))
      ]

  -- In a runtime where no two policies of an API share a name, if LoadFromStore succeeds, then the
  -- durable store was listed, and each API has under each name the last policy of the list for both,
  -- or, where the list has none, the policy that it had before.
  pub load_from_store-live :
      (s : Service compile_cel d)
      → HasTables s.apis
      → (load_from_store compile_cel d s).0 ≡ ok tt
      → (ps : List Policy) × (d.list s.rows ≡ ok ps)
        × ((api name : Str)
            → live (load_from_store compile_cel d s).1.apis api name
              ≡ or_else (last_of ps api name) (live s.apis api name))
  unfolding load_from_store
  load_from_store-live s tables h = elim (Outcome-cases (d.list s.rows)) [
    | inr (e, f) ↦ absurd (err-ne-ok (rw (f, load_from_store) at h))
    | inl (ps, f) ↦ (
      ps,
      f,
      λ api name.
          rw (f, load_from_store) (replay-live ps s tables (rw (f, load_from_store) at h) api name),
    )
  ]
