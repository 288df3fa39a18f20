-- ===== src/PolicyService/Layered.antt =====
-- The layered store keeps the table of policies that its layers make up
-- (internal/control/policies/layered_store.go).
use bouncer.Base.{
  ◌≡◌, ◌≢◌, inl, inr, refl, sym, ap, ◌∙◌, Bool, ◌&&◌, Option, none, some, List, ◌++◌, arith,
  if◌then◌else◌, Str, str_eq, str_eq_iff, ok, map_err, >>=-eq-ok, map_err-eq-ok, ok-injective,
  Bool-cases,
}
use bouncer.Models.{Policy}
use bouncer.PolicyService.{Durable}
use bouncer.PolicyService.Layers.{
  or_else, has_key, last_of, defines, primary_layer, seed_layer, primary_failure, list, put, delete,
  layered_store, Edit, put_edit, delete_edit, apply_edit, edited, TableLaws, last_of-append,
  last_of-none,
}

primary_failure-none : {E F : Type 0} (e : Option E) → primary_failure {F = F} e ≡ none → e ≡ none
primary_failure-none none h = refl
primary_failure-none (some x) h = cc

some-ne-none {ℓ} : {A : Type ℓ} {a : A} → some a ≢ none
some-ne-none h = cc

over_put :
    (b : Bool) (p : Policy) (o below : Option Policy)
    → or_else (if b then some p else o) below ≡ (if b then some p else or_else o below)
over_put b p o below = ground arith

over_delete :
    (api name a n : Str) (o : Option Policy) (seeded : List Policy)
    → last_of seeded a n ≡ none
    → or_else (if str_eq a api && str_eq n name then none else o) (last_of seeded api name)
      ≡ (if str_eq a api && str_eq n name then none else or_else o (last_of seeded api name))
over_delete api name a n o seeded h = ground (arith, str_eq_iff a api, str_eq_iff n name)

module _ (primary seed : Durable) where
  list-inv :
      (rows : primary.Rows) (files : seed.Rows) (ps : List Policy)
      → list primary seed (rows, files) ≡ ok ps
      → (seeded : List Policy) × (stored : List Policy) × (seed.list files ≡ ok seeded)
        × (primary.list rows ≡ ok stored)
        × (seeded ++ stored ≡ ps)
  unfolding list
  list-inv rows files ps h =
      let (seeded, s, r0) = >>=-eq-ok (map_err seed_layer (seed.list files)) _ h in
      let (stored, t, r1) = >>=-eq-ok (map_err primary_layer (primary.list rows)) _ r0 in
      (
        seeded,
        stored,
        map_err-eq-ok seed_layer _ s,
        map_err-eq-ok primary_layer _ t,
        ok-injective r1,
      )

  list-layers :
      (rows : primary.Rows) (files : seed.Rows) (seeded stored : List Policy)
      → seed.list files ≡ ok seeded
      → primary.list rows ≡ ok stored
      → list primary seed (rows, files) ≡ ok (seeded ++ stored)
  unfolding list
  list-layers rows files seeded stored s t = rw (s, t, list) refl

  delete-inv :
      (rows : primary.Rows) (files : seed.Rows) (seeded : List Policy) (api name : Str)
      → seed.list files ≡ ok seeded
      → (delete primary seed (rows, files) api name).0 ≡ none
      → ((primary.delete rows api name).0 ≡ none)
        × (last_of seeded api name ≡ none)
        × ((delete primary seed (rows, files) api name).1
            ≡ ((primary.delete rows api name).1, files))
  unfolding delete
  delete-inv rows files seeded api name s h = elim (Bool-cases (defines seeded api name)) [
    | inl d ↦ absurd (some-ne-none (rw (s, d, delete) at h))
    | inr d ↦ (
      primary_failure-none _ (rw (s, d, delete) at h),
      last_of-none seeded api name d,
      rw (s, d, delete) refl,
    )
  ]

  -- If an edit of the primary store that succeeds shows in its list and changes nothing else there, so
  -- does one of the layered store, seen as the table in which a policy of the primary store hides the
  -- file of its key: where a listing and then a Put or a Delete succeed, the next listing succeeds too,
  -- and a key then stands for the policy put, or for none, if it is that of the edit, and for what it
  -- stood for before if it is not.
  pub layered-edit :
      (laws : TableLaws primary) (rows : primary.Rows) (files : seed.Rows) (edit : Edit)
      (ps : List Policy)
      → (apply_edit (layered_store primary seed) (rows, files) edit).0 ≡ none
      → list primary seed (rows, files) ≡ ok ps
      → (ps' : List Policy) × (list primary seed
            (apply_edit (layered_store primary seed) (rows, files) edit).1
          ≡ ok ps')
        × ((api name : Str) → last_of ps' api name ≡ edited edit (last_of ps) api name)
  unfolding apply_edit put
  layered-edit laws rows files (put_edit p) ps h l =
      let (seeded, stored, s, t, e) = list-inv rows files ps l in
      let (stored', t', v) = laws.list-edit rows (put_edit p) stored (primary_failure-none _ h) t in
      (
        seeded ++ stored',
        list-layers _ files seeded stored' s t',
        λ api name.
            last_of-append seeded stored' api name
            ∙ ap (λ o. or_else o (last_of seeded api name)) (v api name)
            ∙ over_put (has_key api name p) p (last_of stored api name) (last_of seeded api name)
            ∙ ap (λ o. if has_key api name p then some p else o)
                (sym (last_of-append seeded stored api name))
            ∙ ap (λ qs. if has_key api name p then some p else last_of qs api name) e,
      )
  layered-edit laws rows files (delete_edit a n) ps h l =
      let (seeded, stored, s, t, e) = list-inv rows files ps l in
      let (done, gone, left) = delete-inv rows files seeded a n s h in
      let (stored', t', v) = laws.list-edit rows (delete_edit a n) stored done t in
      (
        seeded ++ stored',
        ap (list primary seed) left ∙ list-layers _ files seeded stored' s t',
        λ api name.
            last_of-append seeded stored' api name
            ∙ ap (λ o. or_else o (last_of seeded api name)) (v api name)
            ∙ over_delete api name a n (last_of stored api name) seeded gone
            ∙ ap (λ o. if str_eq a api && str_eq n name then none else o)
                (sym (last_of-append seeded stored api name))
            ∙ ap (λ qs. if str_eq a api && str_eq n name then none else last_of qs api name) e,
      )
