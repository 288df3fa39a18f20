-- ===== src/PolicyStore/Buckets.antt =====
-- Every method of the policy store keeps deny policies before all others.
use bouncer.Base.{
  ℕ, zero, suc, ◌≡◌, inl, inr, true, false, List, [], ◌∷◌, All, All-append, Str, Bool-cases,
  Option-cases,
}
use bouncer.PolicyStore.{
  CompiledPolicy, PolicyStore, is_deny, index_by_name, set_at, remove_at, append_locked,
  remove_permit, remove_locked, new_policy_store, add, remove, relocate, replace,
}

-- The calls that change a store.
pub data StoreOp (P : Type 0) : Type 0 where
  add_op replace_op : CompiledPolicy P → StoreOp P
  remove_op : Str → StoreOp P

module _ {P : Type 0} where
  abbrev pub IsDeny : CompiledPolicy P → Type 0
  IsDeny p = is_deny p.result ≡ true

  abbrev pub IsNotDeny : CompiledPolicy P → Type 0
  IsNotDeny p = is_deny p.result ≡ false

  -- Each policy stands in the bucket of its result.
  abbrev pub HasBuckets : PolicyStore P → Type 0
  HasBuckets s = All IsDeny s.deny × All IsNotDeny s.permit

  module _ (Q : CompiledPolicy P → Type 0) where
    pub All-set_at :
        (ps : List (CompiledPolicy P)) (i : ℕ) (p : CompiledPolicy P)
        → Q p
        → All Q ps
        → All Q (set_at ps i p)
    unfolding set_at
    All-set_at [] i p q h = tt
    All-set_at (x ∷ ps) zero p q h = (q, h.1)
    All-set_at (x ∷ ps) (suc i) p q h = (h.0, All-set_at ps i p q h.1)

    pub All-remove_at : (ps : List (CompiledPolicy P)) (i : ℕ) → All Q ps → All Q (remove_at ps i)
    All-remove_at [] zero h = tt
    All-remove_at [] (suc i) h = tt
    All-remove_at (x ∷ ps) zero h = h.1
    All-remove_at (x ∷ ps) (suc i) h = (h.0, All-remove_at ps i h.1)

  append_locked-HasBuckets :
      (s : PolicyStore P) (p : CompiledPolicy P) → HasBuckets s → HasBuckets (append_locked s p)
  unfolding append_locked
  append_locked-HasBuckets s p (d, n) = elim (Bool-cases (is_deny p.result)) [
    | inl e ↦ rw e (All-append IsDeny s.deny (p ∷ []) d (e, tt), n)
    | inr e ↦ rw e (d, All-append IsNotDeny s.permit (p ∷ []) n (e, tt))
  ]

  remove_locked-HasBuckets :
      (s : PolicyStore P) (name : Str) → HasBuckets s → HasBuckets (remove_locked s name).0
  unfolding remove_locked
  remove_locked-HasBuckets s name (d, n) = elim (Option-cases (index_by_name s.deny name)) [
    | inr (i, e) ↦ rw (e, remove_locked) (All-remove_at IsDeny s.deny i d, n)
    | inl e ↦
        rw (e, remove_locked)
          (elim (Option-cases (index_by_name s.permit name)) [
            | inl e' ↦ rw (e', remove_permit) (d, n)
            | inr (i, e') ↦ rw (e', remove_permit) (d, All-remove_at IsNotDeny s.permit i n)
          ])
  ]

  relocate-HasBuckets :
      (s : PolicyStore P) (p : CompiledPolicy P) → HasBuckets s → HasBuckets (relocate s p).0
  unfolding relocate
  relocate-HasBuckets s p h = append_locked-HasBuckets _ p (remove_locked-HasBuckets s p.name h)

  replace-HasBuckets :
      (s : PolicyStore P) (p : CompiledPolicy P) → HasBuckets s → HasBuckets (replace s p).0
  unfolding replace
  replace-HasBuckets s p (d, n) = elim (Bool-cases (is_deny p.result)) [
    | inl e ↦ rw e (elim (Option-cases (index_by_name s.deny p.name)) [
      | inr (i, e') ↦ rw (e', replace) (All-set_at IsDeny s.deny i p e d, n)
      | inl e' ↦ rw (e', replace) (relocate-HasBuckets s p (d, n))
    ])
    | inr e ↦ rw e (elim (Option-cases (index_by_name s.permit p.name)) [
      | inr (i, e') ↦ rw (e', replace) (d, All-set_at IsNotDeny s.permit i p e n)
      | inl e' ↦ rw (e', replace) (relocate-HasBuckets s p (d, n))
    ])
  ]

  abbrev pub apply_op : PolicyStore P → StoreOp P → PolicyStore P
  apply_op s (add_op p) = add s p
  apply_op s (replace_op p) = (replace s p).0
  apply_op s (remove_op name) = (remove s name).0

  abbrev pub apply_ops : PolicyStore P → List (StoreOp P) → PolicyStore P
  apply_ops s [] = s
  apply_ops s (op ∷ ops) = apply_ops (apply_op s op) ops

  apply_op-HasBuckets :
      (s : PolicyStore P) (op : StoreOp P) → HasBuckets s → HasBuckets (apply_op s op)
  unfolding add remove
  apply_op-HasBuckets s (add_op p) h = append_locked-HasBuckets s p h
  apply_op-HasBuckets s (replace_op p) h = replace-HasBuckets s p h
  apply_op-HasBuckets s (remove_op name) h = remove_locked-HasBuckets s name h

  apply_ops_from :
      (s : PolicyStore P) (ops : List (StoreOp P)) → HasBuckets s → HasBuckets (apply_ops s ops)
  apply_ops_from s [] h = h
  apply_ops_from s (op ∷ ops) h = apply_ops_from (apply_op s op) ops (apply_op-HasBuckets s op h)

  -- After any sequence of adding, replacing and removing policies, from the empty store, each
  -- policy whose result is deny stands in the first bucket, and each other policy in the second.
  pub apply_ops-HasBuckets : (ops : List (StoreOp P)) → HasBuckets (apply_ops new_policy_store ops)
  apply_ops-HasBuckets ops =
      apply_ops_from new_policy_store ops (unfold new_policy_store in (tt, tt))
