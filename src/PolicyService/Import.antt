-- ===== src/PolicyService/Import.antt =====
-- `Import` of the policy service (internal/control/policies/policies.go), and when it writes.
use bouncer.Base.{
  ℕ, ◌+◌, ◌≡◌, ◌⊎◌, inl, inr, refl, sym, ap, ◌∙◌, Bool, true, false, Option, none, some, List, [],
  ◌∷◌, ◌++◌, All, ◌==◌, if◌then◌else◌, Str, Outcome, ok, err, Bool-cases,
}
use bouncer.Base.Dict.{Dict, lookup, insert}
use bouncer.Models.{Policy}
use bouncer.PolicyRuntime.{CelSite}
use bouncer.PolicyService.{
  Durable, ServiceError, read_only, import_invalid, persist_failed, Failure, Service, find,
  validate, persist_and_apply,
}

abbrev import_key : Policy → Str
import_key p = p.api ++ (b'/' ∷ p.name)

-- The loop that fills `lastIdx`, and the loop that reads it.
unfoldable pub last_index : ℕ → List Policy → Dict ℕ → Dict ℕ
unfolding insert
last_index i [] table = table
last_index i (p ∷ ps) table = last_index (i + 1) ps (insert (import_key p) i table)

abbrev is_index : ℕ → Option ℕ → Bool
is_index i none = false
is_index i (some j) = j == i

unfoldable pub keep_last : ℕ → List Policy → Dict ℕ → List Policy
unfolding lookup
keep_last i [] table = []
keep_last i (p ∷ ps) table =
    let rest = keep_last (i + 1) ps table in
    if is_index i (lookup (import_key p) table) then p ∷ rest else rest

unfoldable pub dedupe : List Policy → List Policy
dedupe incoming = keep_last 0 incoming (last_index 0 incoming [])

-- What an error is reported under: the key, or the entry's number if the key lacks a part.
pub data Label : Type 0 where
  named : Str → Label
  entry : ℕ → Label

unfoldable pub label : ℕ → Policy → Label
label i p = elim p.api [
  | [] ↦ entry (i + 1)
  | _ ∷ _ ↦ elim p.name [ [] ↦ entry (i + 1) | _ ∷ _ ↦ named (import_key p) ]
]

pub record ImportResult (E : Type 0) : Type 0 where
  pub created : List Str
  pub overwritten : List Str
  pub errors : List (Label × ServiceError E)

abbrev no_result : {E : Type 0} → ImportResult E
no_result = record { created = []; overwritten = []; errors = [] }

module _ {P : Type 0} (compile_cel : CelSite → Str → Str → Outcome Str P) (d : Durable) where
  -- One round of the loop that validates, before the result of the rounds after it.
  unfoldable pub review_one :
      ℕ
      → Policy
      → Outcome (Failure compile_cel d) (Unit {0})
      → Option Policy
      → ImportResult (d.Error)
      → ImportResult (d.Error)
  review_one i p (err e) live rest = record rest { errors = (label i p, e) ∷ rest.errors }
  review_one i p (ok _) (some _) rest = record rest {
    overwritten = import_key p ∷ rest.overwritten;
  }
  review_one i p (ok _) none rest = record rest { created = import_key p ∷ rest.created }

  unfoldable pub review : Service compile_cel d → ℕ → List Policy → ImportResult (d.Error)
  review s i [] = no_result
  review s i (p ∷ ps) =
      review_one i p (validate compile_cel d s p) (find compile_cel d s p.api p.name)
        (review s (i + 1) ps)

  -- The loop that persists.
  unfoldable pub persist_all :
      Service compile_cel d → List Policy → Option (Failure compile_cel d) × Service compile_cel d
  persist_all s [] = (none, s)
  persist_all s (p ∷ ps) =
      let out = persist_and_apply compile_cel d s p in
      elim out.0 [
        | err e ↦ (some (persist_failed p.api p.name e), out.1)
        | ok _ ↦ persist_all out.1 ps
      ]

  -- `Import` after the read-only test.
  unfoldable pub import_reviewed :
      Service compile_cel d
      → List Policy
      → Bool
      → ImportResult (d.Error)
      → (ImportResult (d.Error) × Option (Failure compile_cel d)) × Service compile_cel d
  import_reviewed s deduped dry_run result = elim result.errors [
    | _ ∷ _ ↦ ((result, some import_invalid), s)
    | [] ↦
        if dry_run
        then ((result, none), s)
        else let (e, s') = persist_all s deduped in ((result, e), s')
  ]

  -- `Import`
  unfoldable pub import_policies :
      Service compile_cel d
      → List Policy
      → Bool
      → (ImportResult (d.Error) × Option (Failure compile_cel d)) × Service compile_cel d
  import_policies s incoming dry_run =
      if s.readonly
      then ((no_result, some read_only), s)
      else import_reviewed s (dedupe incoming) dry_run (review s 0 (dedupe incoming))

  -- The policy validates against the service as it is.
  abbrev pub IsValid : Service compile_cel d → Policy → Type 0
  IsValid s p = validate compile_cel d s p ≡ ok tt

  review_one-ok :
      (i : ℕ) (p : Policy) (checked : Outcome (Failure compile_cel d) (Unit {0}))
      (live : Option Policy) (rest : ImportResult (d.Error))
      → (review_one i p checked live rest).errors ≡ []
      → (checked ≡ ok tt) × (rest.errors ≡ [])
  unfolding review_one
  review_one-ok i p (err e) live rest h = cc
  review_one-ok i p (ok u) (some q) rest h = (refl, h)
  review_one-ok i p (ok u) none rest h = (refl, h)

  -- A review without errors has validated every policy.
  review-IsValid :
      (s : Service compile_cel d) (i : ℕ) (ps : List Policy)
      → (review s i ps).errors ≡ []
      → All (IsValid s) ps
  unfolding review
  review-IsValid s i [] h = tt
  review-IsValid s i (p ∷ ps) h =
      let (v, rest) =
        review_one-ok i p (validate compile_cel d s p) (find compile_cel d s p.api p.name)
          (review s (i + 1) ps) h in
      (v, review-IsValid s (i + 1) ps rest)

  -- An import wrote nothing, or it was a real one and its review found no error.
  abbrev pub IsReviewed :
      Service compile_cel d → Bool → ImportResult (d.Error) → Service compile_cel d → Type 0
  IsReviewed s dry_run result s' = (s' ≡ s) ⊎ ((dry_run ≡ false) × (result.errors ≡ []))

  import_reviewed-ends :
      (s : Service compile_cel d) (deduped : List Policy) (dry_run : Bool)
      (created overwritten : List Str) (errors : List (Label × Failure compile_cel d))
      → let result : ImportResult (d.Error) = record {
        created = created;
        overwritten = overwritten;
        errors = errors;
      } in
        IsReviewed s dry_run result (import_reviewed s deduped dry_run result).1
  unfolding import_reviewed
  import_reviewed-ends s deduped dry_run created overwritten (x ∷ errors) = inl refl
  import_reviewed-ends s deduped true created overwritten [] = inl refl
  import_reviewed-ends s deduped false created overwritten [] = inr (refl, refl)

  abbrev Imported : Type 0
  Imported = (ImportResult (d.Error) × Option (Failure compile_cel d)) × Service compile_cel d

  import_policies-locked :
      (s : Service compile_cel d) (incoming : List Policy) (dry_run : Bool)
      → s.readonly ≡ true
      → (import_policies s incoming dry_run).1 ≡ s
  unfolding import_policies
  import_policies-locked s incoming dry_run e =
      let locked : Imported = ((no_result, some read_only), s) in
      ap
        (λ c.
          (if c
            then locked
            else import_reviewed s (dedupe incoming) dry_run (review s 0 (dedupe incoming))).1)
        e

  import_policies-open :
      (s : Service compile_cel d) (incoming : List Policy) (dry_run : Bool)
      → s.readonly ≡ false
      → import_reviewed s (dedupe incoming) dry_run (review s 0 (dedupe incoming))
        ≡ import_policies s incoming dry_run
  unfolding import_policies
  import_policies-open s incoming dry_run e =
      let locked : Imported = ((no_result, some read_only), s) in
      sym (
        ap
          (λ c.
            if c
            then locked
            else import_reviewed s (dedupe incoming) dry_run (review s 0 (dedupe incoming)))
          e)

  -- An import changes the durable store or the runtime only if the service is writeable, it is no dry
  -- run, and every policy that is left after the duplicates are dropped validates before the first
  -- is written.
  pub import_policies-validated :
      (s : Service compile_cel d) (incoming : List Policy) (dry_run : Bool)
      → ((import_policies s incoming dry_run).1 ≡ s)
        ⊎ ((s.readonly ≡ false) × (dry_run ≡ false) × All (IsValid s) (dedupe incoming))
  import_policies-validated s incoming dry_run = elim (Bool-cases s.readonly) [
    | inl e ↦ inl (import_policies-locked s incoming dry_run e)
    | inr e ↦
        let result = review s 0 (dedupe incoming) in
        let same = ap (λ x. x.1) (sym (import_policies-open s incoming dry_run e)) in
        elim (import_reviewed-ends s (dedupe incoming) dry_run result.created result.overwritten
          result.errors) [
            | inl kept ↦ inl (same ∙ kept)
            | inr (real, clean) ↦ inr (e, real, review-IsValid s 0 (dedupe incoming) clean)
          ]
  ]
