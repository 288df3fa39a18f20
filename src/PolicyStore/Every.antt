-- ===== src/PolicyStore/Every.antt =====
-- What holds of every policy of a store stays so under the store's methods.
use bouncer.Base.{inl, inr, [], ◌∷◌, All, All-append, Str, Bool-cases, Option-cases}
use bouncer.PolicyStore.{
  CompiledPolicy, PolicyStore, is_deny, index_by_name, append_locked, remove_permit, remove_locked,
  remove, relocate, replace,
}
use bouncer.PolicyStore.Buckets.{All-set_at, All-remove_at}

module _ {P : Type 0} (Q : CompiledPolicy P → Type 0) where
  -- Each policy of the store satisfies the predicate.
  abbrev pub Every : PolicyStore P → Type 0
  Every s = All Q s.deny × All Q s.permit

  append_locked-Every :
      (s : PolicyStore P) (p : CompiledPolicy P) → Q p → Every s → Every (append_locked s p)
  unfolding append_locked
  append_locked-Every s p q (d, n) = elim (Bool-cases (is_deny p.result)) [
    | inl e ↦ rw e (All-append Q s.deny (p ∷ []) d (q, tt), n)
    | inr e ↦ rw e (d, All-append Q s.permit (p ∷ []) n (q, tt))
  ]

  remove_locked-Every : (s : PolicyStore P) (name : Str) → Every s → Every (remove_locked s name).0
  unfolding remove_locked
  remove_locked-Every s name (d, n) = elim (Option-cases (index_by_name s.deny name)) [
    | inr (i, e) ↦ rw (e, remove_locked) (All-remove_at Q s.deny i d, n)
    | inl e ↦
        rw (e, remove_locked)
          (elim (Option-cases (index_by_name s.permit name)) [
            | inl e' ↦ rw (e', remove_permit) (d, n)
            | inr (i, e') ↦ rw (e', remove_permit) (d, All-remove_at Q s.permit i n)
          ])
  ]

  pub remove-Every : (s : PolicyStore P) (name : Str) → Every s → Every (remove s name).0
  unfolding remove
  remove-Every s name h = remove_locked-Every s name h

  relocate-Every :
      (s : PolicyStore P) (p : CompiledPolicy P) → Q p → Every s → Every (relocate s p).0
  unfolding relocate
  relocate-Every s p q h = append_locked-Every _ p q (remove_locked-Every s p.name h)

  pub replace-Every :
      (s : PolicyStore P) (p : CompiledPolicy P) → Q p → Every s → Every (replace s p).0
  unfolding replace
  replace-Every s p q (d, n) = elim (Bool-cases (is_deny p.result)) [
    | inl e ↦ rw e (elim (Option-cases (index_by_name s.deny p.name)) [
      | inr (i, e') ↦ rw (e', replace) (All-set_at Q s.deny i p q d, n)
      | inl e' ↦ rw (e', replace) (relocate-Every s p q (d, n))
    ])
    | inr e ↦ rw e (elim (Option-cases (index_by_name s.permit p.name)) [
      | inr (i, e') ↦ rw (e', replace) (d, All-set_at Q s.permit i p q n)
      | inl e' ↦ rw (e', replace) (relocate-Every s p q (d, n))
    ])
  ]
