-- ===== src/PolicyService/Writes.antt =====
-- How a write of the policy service (internal/control/policies/policies.go) ends: in the durable store
-- and in the runtime, or with an error and the runtime as it was.
use bouncer.Base.{
  ◌≡◌, ◌⊎◌, inl, inr, refl, ap, Bool, not, ◌&&◌, none, some, Str, str_eq, Outcome, ok, err, guard,
  map_err, map_err-eq-ok, Option-cases, >>=-eq-ok,
}
use bouncer.Models.{Policy}
use bouncer.PolicyRuntime.{CelSite, replace_policy}
use bouncer.PolicyRuntime.Homes.{validate_policy-replaces}
use bouncer.PolicyService.{
  Durable, bad_schema, bad_policy, read_only, api_path, store_put, basic_schema, Failure, Service,
  validate, apply_policy, persist_and_apply, write_if, may_create, may_replace, create, replace,
}

module _ {P : Type 0} (compile_cel : CelSite → Str → Str → Outcome Str P) (d : Durable) where
  abbrev pub Answer : Type 0
  Answer = Outcome (Failure compile_cel d) (Unit {0}) × Service compile_cel d

  -- The policy is in the durable store and in the runtime.
  abbrev pub IsWritten : Service compile_cel d → Policy → Answer → Type 0
  IsWritten s p x =
      (x.0 ≡ ok tt)
      × (validate compile_cel d s p ≡ ok tt)
      × ((d.put s.rows p).0 ≡ none)
      × (x.1.rows ≡ (d.put s.rows p).1)
      × ((existed : Bool) × ((replace_policy compile_cel s.apis p).0 ≡ ok existed))
      × (x.1.apis ≡ (replace_policy compile_cel s.apis p).1)

  -- The runtime is as it was, and so is the durable store unless it reported the error.
  abbrev pub IsRefused : Service compile_cel d → Policy → Answer → Type 0
  IsRefused s p x =
      (e : Failure compile_cel d) × (x.0 ≡ err e)
      × (x.1.apis ≡ s.apis)
      × ((x.1.rows ≡ s.rows) ⊎ ((f : d.Error) × ((d.put s.rows p).0 ≡ some f) × (e ≡ store_put f)))

  validate-replaces :
      (s : Service compile_cel d) (p : Policy)
      → validate compile_cel d s p ≡ ok tt
      → (existed : Bool) × ((replace_policy compile_cel s.apis p).0 ≡ ok existed)
  unfolding validate
  validate-replaces s p h =
      let (u, _, v) = >>=-eq-ok (map_err bad_schema (basic_schema p)) _ h in
      validate_policy-replaces compile_cel s.apis p tt (map_err-eq-ok bad_policy _ v)

  persist-failed :
      (s : Service compile_cel d) (p : Policy) (x : d.Error)
      → (d.put s.rows p).0 ≡ some x
      → persist_and_apply compile_cel d s p
        ≡ (err (store_put x), record s { rows = (d.put s.rows p).1 })
  unfolding persist_and_apply
  persist-failed s p x e = rw (e, persist_and_apply) refl

  persist-applied :
      (s : Service compile_cel d) (p : Policy) (existed : Bool)
      → (d.put s.rows p).0 ≡ none
      → (replace_policy compile_cel s.apis p).0 ≡ ok existed
      → persist_and_apply compile_cel d s p ≡ (
        ok tt,
        record s { rows = (d.put s.rows p).1; apis = (replace_policy compile_cel s.apis p).1 },
      )
  unfolding persist_and_apply apply_policy
  persist-applied s p existed e r = rw (e, persist_and_apply) (rw (r, apply_policy) refl)

  persist_and_apply-ends :
      (s : Service compile_cel d) (p : Policy)
      → validate compile_cel d s p ≡ ok tt
      → IsWritten s p (persist_and_apply compile_cel d s p)
        ⊎ IsRefused s p (persist_and_apply compile_cel d s p)
  persist_and_apply-ends s p v = elim (Option-cases (d.put s.rows p).0) [
    | inr (x, e) ↦
        let step = persist-failed s p x e in
        inr (store_put x, ap (λ y. y.0) step, ap (λ y. y.1.apis) step, inr (x, e, refl))
    | inl e ↦
        let (existed, r) = validate-replaces s p v in
        let step = persist-applied s p existed e r in
        inl
          (ap (λ y. y.0) step, v, e, ap (λ y. y.1.rows) step, (existed, r), ap (λ y. y.1.apis) step)
  ]

  write_if-ends :
      (s : Service compile_cel d) (allowed : Outcome (Failure compile_cel d) (Unit {0}))
      (p : Policy)
      → (allowed ≡ ok tt → validate compile_cel d s p ≡ ok tt)
      → IsWritten s p (write_if compile_cel d s allowed p)
        ⊎ IsRefused s p (write_if compile_cel d s allowed p)
  unfolding write_if
  write_if-ends s (err e) p v = inr (e, refl, refl, inl refl)
  write_if-ends s (ok u) p v = persist_and_apply-ends s p (v refl)

  may_create-validates :
      (s : Service compile_cel d) (p : Policy)
      → may_create compile_cel d s p ≡ ok tt
      → validate compile_cel d s p ≡ ok tt
  unfolding may_create
  may_create-validates s p h =
      let (_, _, h₁) = >>=-eq-ok (guard (not s.readonly) read_only) _ h in
      let (u, v, _) = >>=-eq-ok (validate compile_cel d s p) _ h₁ in v

  may_replace-validates :
      (s : Service compile_cel d) (api name : Str) (p : Policy)
      → may_replace compile_cel d s api name p ≡ ok tt
      → validate compile_cel d s p ≡ ok tt
  unfolding may_replace
  may_replace-validates s api name p h =
      let (_, _, h₁) = >>=-eq-ok (guard (not s.readonly) read_only) _ h in
      let (_, _, v) = >>=-eq-ok (guard (str_eq p.api api && str_eq p.name name) api_path) _ h₁ in v

  -- Creating a policy either puts it, validated, in the durable store and in the runtime, or returns
  -- an error and leaves the runtime as it was, and the durable store too unless it failed itself.
  pub create-ends :
      (s : Service compile_cel d) (p : Policy)
      → IsWritten s p (create compile_cel d s p) ⊎ IsRefused s p (create compile_cel d s p)
  unfolding create
  create-ends s p = write_if-ends s (may_create compile_cel d s p) p (may_create-validates s p)

  -- Replacing a policy either puts it, validated, in the durable store and in the runtime, or returns
  -- an error and leaves the runtime as it was, and the durable store too unless it failed itself.
  pub replace-ends :
      (s : Service compile_cel d) (api name : Str) (p : Policy)
      → IsWritten s p (replace compile_cel d s api name p)
        ⊎ IsRefused s p (replace compile_cel d s api name p)
  unfolding replace
  replace-ends s api name p =
      write_if-ends s (may_replace compile_cel d s api name p) p
        (may_replace-validates s api name p)
