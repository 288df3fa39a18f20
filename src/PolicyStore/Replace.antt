-- ===== src/PolicyStore/Replace.antt =====
-- `policyStore.replace` as an update of the map from names to policies, and the order that it keeps.
use bouncer.Base.{
  ℕ, zero, suc, ◌≡◌, ◌≢◌, inl, inr, refl, ap, Bool, true, none, some, List, [], ◌∷◌, ◌++◌, map,
  arith, if◌then◌else◌, Str, str_eq, str_eq_iff, Bool-cases, Option-cases,
}
use mathlib.Core.List.{map-append}
use bouncer.PolicyStore.{
  CompiledPolicy, PolicyStore, is_deny, index_by_name, set_at, remove_locked, remove, relocate,
  replace, all,
}
use bouncer.PolicyStore.Named.{
  count, count-append, find-append, find-none, index_by_name-none, count-set_at, find-set_at,
  count-pos,
}
use bouncer.PolicyStore.View.{
  is_some, HasUniqueNames, view, count-all, count-view, count-append_locked, find-append_locked,
  count-remove_locked, count-remove_locked_self, remove_lem,
}

module _ {P : Type 0} where
  -- The bucket of a policy's own result.
  abbrev pub bucket : PolicyStore P → CompiledPolicy P → List (CompiledPolicy P)
  bucket s p = if is_deny p.result then s.deny else s.permit

  -- The ways of `replace`: in place in either bucket, or by relocation.
  data Replacement (s : PolicyStore P) (p : CompiledPolicy P) : Type 0 where
    in_deny :
        (i : ℕ)
        → index_by_name s.deny p.name ≡ some i
        → bucket s p ≡ s.deny
        → replace s p ≡ (record s { deny = set_at s.deny i p }, true)
        → Replacement s p
    in_permit :
        (i : ℕ)
        → index_by_name s.permit p.name ≡ some i
        → bucket s p ≡ s.permit
        → replace s p ≡ (record s { permit = set_at s.permit i p }, true)
        → Replacement s p
    moved : index_by_name (bucket s p) p.name ≡ none → replace s p ≡ relocate s p → Replacement s p

  replacement : (s : PolicyStore P) (p : CompiledPolicy P) → Replacement s p
  replacement s p = elim (Bool-cases (is_deny p.result)) [
    | inl d ↦ elim (Option-cases (index_by_name s.deny p.name)) [
      | inr (i, e) ↦ in_deny i e (rw d) (unfold replace in rw d (rw (e, replace) refl))
      | inl e ↦ moved (rw d e) (unfold replace in rw d (rw (e, replace) refl))
    ]
    | inr d ↦ elim (Option-cases (index_by_name s.permit p.name)) [
      | inr (i, e) ↦ in_permit i e (rw d) (unfold replace in rw d (rw (e, replace) refl))
      | inl e ↦ moved (rw d e) (unfold replace in rw d (rw (e, replace) refl))
    ]
  ]

  -- A map update: the name has the new policy, and every other name what it had.
  abbrev pub Updates : PolicyStore P → CompiledPolicy P → PolicyStore P × Bool → Type 0
  Updates s p (s', existed) =
      ((m : Str) → view s' m ≡ (if str_eq p.name m then some p else view s m))
      × (existed ≡ is_some (view s p.name))
      × HasUniqueNames s'

  relocate-Updates :
      (s : PolicyStore P) (p : CompiledPolicy P) → HasUniqueNames s → Updates s p (relocate s p)
  unfolding relocate remove
  relocate-Updates s p u =
      let (others, hit, _) = remove_lem s p.name u in
      let gone = count-remove_locked_self s p.name u in
      (
        (λ m. ground (arith, others m, find-append_locked (remove_locked s p.name).0 p m gone)),
        hit,
        λ m. ground (
          arith,
          u m,
          gone,
          str_eq_iff p.name m,
          count-append_locked (remove_locked s p.name).0 p m,
          count-remove_locked s p.name m,
        ),
      )

  set_deny-Updates :
      (s : PolicyStore P) (p : CompiledPolicy P) (i : ℕ)
      → HasUniqueNames s
      → index_by_name s.deny p.name ≡ some i
      → Updates s p (record s { deny = set_at s.deny i p }, true)
  set_deny-Updates s p i u e = (
    (λ m. ground (
      arith,
      find-append m (set_at s.deny i p) s.permit,
      find-append m s.deny s.permit,
      find-set_at s.deny p i m e,
    )),
    ground (arith, count-view s p.name, count-all p.name s, count-pos s.deny p.name i),
    λ m. omega (
      arith,
      u m,
      count-all m s,
      count-append m (set_at s.deny i p) s.permit,
      count-set_at s.deny p i m e,
    ),
  )

  count_deny_zero :
      (s : PolicyStore P) (p : CompiledPolicy P) (i : ℕ)
      → HasUniqueNames s
      → index_by_name s.permit p.name ≡ some i
      → count p.name s.deny ≡ 0
  count_deny_zero s p i u e =
      ground (arith, u p.name, count-all p.name s, count-pos s.permit p.name i)

  set_permit-Updates :
      (s : PolicyStore P) (p : CompiledPolicy P) (i : ℕ)
      → HasUniqueNames s
      → index_by_name s.permit p.name ≡ some i
      → Updates s p (record s { permit = set_at s.permit i p }, true)
  set_permit-Updates s p i u e = (
    (λ m. ground (
      arith,
      u p.name,
      str_eq_iff p.name m,
      count-all p.name s,
      count-pos s.permit p.name i,
      count_deny_zero s p i u e,
      find-none p.name s.deny,
      find-append m s.deny (set_at s.permit i p),
      find-append m s.deny s.permit,
      find-set_at s.permit p i m e,
    )),
    ground (arith, count-view s p.name, count-all p.name s, count-pos s.permit p.name i),
    λ m. omega (
      arith,
      u m,
      count-all m s,
      count-append m s.deny (set_at s.permit i p),
      count-set_at s.permit p i m e,
    ),
  )

  -- In a store where no two policies share a name, replacing a policy gives its name the new
  -- policy, leaves every other name what it had, reports whether the name was taken before, and
  -- keeps the names apart.
  pub replace_lem :
      (s : PolicyStore P) (p : CompiledPolicy P) → HasUniqueNames s → Updates s p (replace s p)
  replace_lem s p u = elim (replacement s p) [
    | in_deny i e b r ↦ rw r (set_deny-Updates s p i u e)
    | in_permit i e b r ↦ rw r (set_permit-Updates s p i u e)
    | moved e r ↦ rw r (relocate-Updates s p u)
  ]

  abbrev pub names : List (CompiledPolicy P) → List Str
  names = map (λ p. p.name)

  names-set_at :
      (ps : List (CompiledPolicy P)) (p : CompiledPolicy P) (i : ℕ)
      → index_by_name ps p.name ≡ some i
      → names (set_at ps i p) ≡ names ps
  unfolding set_at index_by_name
  names-set_at [] p i h = refl
  names-set_at (q ∷ ps) p zero h = ground (arith, str_eq_iff q.name p.name)
  names-set_at (q ∷ ps) p (suc i) h = ground (arith, names-set_at ps p i)

  -- If the bucket of the new result has a policy of the name, replacing it keeps the names in
  -- their order of evaluation.
  pub names-replace :
      (s : PolicyStore P) (p : CompiledPolicy P)
      → count p.name (bucket s p) ≢ 0
      → names (all (replace s p).0) ≡ names (all s)
  names-replace s p h = elim (replacement s p) [
    | in_deny i e b r ↦
        rw r (simp map-append (ap (λ x. x ++ names s.permit) (names-set_at s.deny p i e)))
    | in_permit i e b r ↦
        rw r (simp map-append (ap (λ x. names s.deny ++ x) (names-set_at s.permit p i e)))
    | moved e r ↦ absurd (h (index_by_name-none (bucket s p) p.name e))
  ]
