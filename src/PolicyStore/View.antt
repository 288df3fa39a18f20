-- ===== src/PolicyStore/View.antt =====
-- The policy store as a map from names to policies.
use bouncer.Base.{
  ℕ, ◌+◌, ◌≤◌, ◌≡◌, ◌⊎◌, inl, inr, refl, Bool, true, false, ◌&&◌, Option, none, some, [], ◌∷◌, ◌++◌,
  arith, if◌then◌else◌, Str, str_eq, str_eq_iff, str_eq_refl, Bool-cases, Option-cases,
}
use bouncer.PolicyStore.{
  CompiledPolicy, PolicyStore, index_by_name, remove_at, append_locked, remove_permit,
  remove_locked, remove, all,
}
use bouncer.PolicyStore.Named.{
  find, count, count-append, find-append, count-zero, find-none, index_by_name-none,
  count-remove_at, find-remove_at_ne, count-pos,
}

abbrev pub is_some {ℓ} : {A : Type ℓ} → Option A → Bool
is_some none = false
is_some (some a) = true

module _ {P : Type 0} where
  -- No two policies of the store share a name.
  abbrev pub HasUniqueNames : PolicyStore P → Type 0
  HasUniqueNames s = (name : Str) → count name (all s) ≤ 1

  -- What the store holds under a name.
  abbrev pub view : PolicyStore P → Str → Option (CompiledPolicy P)
  view s name = find name (all s)

  pub count-all :
      (m : Str) (s : PolicyStore P) → count m (all s) ≡ count m s.deny + count m s.permit
  count-all m s = count-append m s.deny s.permit

  count-singleton :
      (m : Str) (p : CompiledPolicy P) → count m (p ∷ []) ≡ (if str_eq p.name m then 1 else 0)
  unfolding count
  count-singleton m p = ground arith

  find-singleton :
      (m : Str) (p : CompiledPolicy P)
      → find m (p ∷ []) ≡ (if str_eq p.name m then some p else none)
  unfolding find
  find-singleton m p = ground arith

  pub count-append_locked :
      (s : PolicyStore P) (p : CompiledPolicy P) (m : Str)
      → count m (all (append_locked s p)) ≡ count m (all s) + (if str_eq p.name m then 1 else 0)
  unfolding append_locked
  count-append_locked s p m = ground (
    arith,
    count-all m s,
    count-append m (s.deny ++ (p ∷ [])) s.permit,
    count-append m s.deny (p ∷ []),
    count-append m s.deny (s.permit ++ (p ∷ [])),
    count-append m s.permit (p ∷ []),
    count-singleton m p,
  )

  pub find-append_locked :
      (s : PolicyStore P) (p : CompiledPolicy P) (m : Str)
      → count p.name (all s) ≡ 0
      → view (append_locked s p) m ≡ (if str_eq p.name m then some p else view s m)
  unfolding append_locked
  find-append_locked s p m h = ground (
    arith,
    count-all p.name s,
    find-none p.name s.deny,
    find-none p.name s.permit,
    str_eq_iff p.name m,
    find-append m s.deny s.permit,
    find-append m (s.deny ++ (p ∷ [])) s.permit,
    find-append m s.deny (p ∷ []),
    find-append m s.deny (s.permit ++ (p ∷ [])),
    find-append m s.permit (p ∷ []),
    find-singleton m p,
  )

  -- The three ways of `removeLocked`.
  data Removal (s : PolicyStore P) (n : Str) : Type 0 where
    from_deny :
        (i : ℕ)
        → index_by_name s.deny n ≡ some i
        → remove_locked s n ≡ (record s { deny = remove_at s.deny i }, true)
        → Removal s n
    from_permit :
        (i : ℕ)
        → index_by_name s.deny n ≡ none
        → index_by_name s.permit n ≡ some i
        → remove_locked s n ≡ (record s { permit = remove_at s.permit i }, true)
        → Removal s n
    missed :
        index_by_name s.deny n ≡ none
        → index_by_name s.permit n ≡ none
        → remove_locked s n ≡ (s, false)
        → Removal s n

  removal : (s : PolicyStore P) (n : Str) → Removal s n
  unfolding remove_locked
  removal s n = elim (Option-cases (index_by_name s.deny n)) [
    | inr (i, e) ↦ from_deny i e (rw (e, remove_locked) refl)
    | inl e ↦ elim (Option-cases (index_by_name s.permit n)) [
      | inl e' ↦ missed e e' (rw (e, remove_locked) (rw (e', remove_permit) refl))
      | inr (i, e') ↦ from_permit i e e' (rw (e, remove_locked) (rw (e', remove_permit) refl))
    ]
  ]

  -- Removal takes away one policy of the name, if there is one.
  pub count-remove_locked :
      (s : PolicyStore P) (n m : Str)
      → count m (all (remove_locked s n).0) + (if str_eq n m && (remove_locked s n).1 then 1 else 0)
        ≡ count m (all s)
  count-remove_locked s n m = elim (removal s n) [
    | missed e e' r ↦ rw r (ground arith)
    | from_deny i e r ↦ rw r (
        ground (
          arith,
          count-all m s,
          count-append m (remove_at s.deny i) s.permit,
          count-remove_at s.deny n i m e,
        ))
    | from_permit i e e' r ↦ rw r (
        ground (
          arith,
          count-all m s,
          count-append m s.deny (remove_at s.permit i),
          count-remove_at s.permit n i m e',
        ))
  ]

  pub count-view :
      (s : PolicyStore P) (n : Str) → (is_some (view s n) ≡ true) ⊎ (count n (all s) ≡ 0)
  count-view s n = elim (Option-cases (view s n)) [
    | inl e ↦ inr (count-zero n (all s) e)
    | inr (p, e) ↦ inl (rw e)
  ]

  remove_locked-hit : (s : PolicyStore P) (n : Str) → (remove_locked s n).1 ≡ is_some (view s n)
  remove_locked-hit s n = elim (removal s n) [
    | missed e e' r ↦ rw r (
        ground (
          arith,
          find-none n (all s),
          count-all n s,
          index_by_name-none s.deny n,
          index_by_name-none s.permit n,
        ))
    | from_deny i e r ↦ rw r (ground (arith, count-view s n, count-all n s, count-pos s.deny n i))
    | from_permit i e e' r ↦
        rw r (ground (arith, count-view s n, count-all n s, count-pos s.permit n i))
  ]

  find-remove_locked_ne :
      (s : PolicyStore P) (n m : Str) → str_eq n m ≡ false → view (remove_locked s n).0 m ≡ view s m
  find-remove_locked_ne s n m h = elim (removal s n) [
    | missed e e' r ↦ rw r refl
    | from_deny i e r ↦ rw r (
        ground (
          arith,
          find-append m s.deny s.permit,
          find-append m (remove_at s.deny i) s.permit,
          find-remove_at_ne s.deny n i m e,
        ))
    | from_permit i e e' r ↦ rw r (
        ground (
          arith,
          find-append m s.deny s.permit,
          find-append m s.deny (remove_at s.permit i),
          find-remove_at_ne s.permit n i m e',
        ))
  ]

  -- Where no name is shared, nothing is left under the removed name.
  pub count-remove_locked_self :
      (s : PolicyStore P) (n : Str) → HasUniqueNames s → count n (all (remove_locked s n).0) ≡ 0
  count-remove_locked_self s n u =
      ground (
        arith,
        u n,
        str_eq_refl n,
        count-remove_locked s n n,
        remove_locked-hit s n,
        count-view s n,
      )

  -- In a store where no two policies share a name, removing a name leaves it without a policy and
  -- every other name as it was, reports whether it was taken, and keeps the names apart.
  pub remove_lem :
      (s : PolicyStore P) (n : Str)
      → HasUniqueNames s
      → ((m : Str) → view (remove s n).0 m ≡ (if str_eq n m then none else view s m))
        × ((remove s n).1 ≡ is_some (view s n))
        × HasUniqueNames (remove s n).0
  unfolding remove
  remove_lem s n u = (
    (λ m. elim (Bool-cases (str_eq n m)) [
      | inl e ↦ ground (
        arith,
        str_eq_iff n m,
        find-none n (all (remove_locked s n).0),
        count-remove_locked_self s n u,
      )
      | inr e ↦ rw e (find-remove_locked_ne s n m e)
    ]),
    remove_locked-hit s n,
    λ m. omega (arith, u m, count-remove_locked s n m),
  )
