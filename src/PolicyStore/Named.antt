-- ===== src/PolicyStore/Named.antt =====
-- Lists of policies by name: finding, counting, and the slice operations of the policy store.
use bouncer.Base.{
  ℕ, zero, suc, ◌+◌, ◌≡◌, ◌≢◌, refl, true, false, Option, none, some, List, [], ◌∷◌, ◌++◌, arith,
  if◌then◌else◌, Str, str_eq, str_eq_iff, str_eq_refl,
}
use bouncer.PolicyStore.{CompiledPolicy, index_by_name, set_at, remove_at}

index_by_name-nil : (P : Type 0) (name : Str) (i : ℕ) → ¬ (index_by_name {P = P} [] name ≡ some i)
unfolding index_by_name
index_by_name-nil P name i h = cc

module _ {P : Type 0} where
  -- The first policy of the name.
  unfoldable pub find : Str → List (CompiledPolicy P) → Option (CompiledPolicy P)
  find name [] = none
  find name (p ∷ ps) = if str_eq p.name name then some p else find name ps

  -- How many policies have the name.
  unfoldable pub count : Str → List (CompiledPolicy P) → ℕ
  count name [] = 0
  count name (p ∷ ps) = let rest = count name ps in if str_eq p.name name then suc rest else rest

  pub count-append :
      (name : Str) (ps qs : List (CompiledPolicy P))
      → count name (ps ++ qs) ≡ count name ps + count name qs
  unfolding count
  count-append name [] qs = omega arith
  count-append name (p ∷ ps) qs = ground (arith, count-append name ps qs)

  abbrev pub or_else :
      Option (CompiledPolicy P) → Option (CompiledPolicy P) → Option (CompiledPolicy P)
  or_else none o = o
  or_else (some p) o = some p

  pub find-append :
      (name : Str) (ps qs : List (CompiledPolicy P))
      → find name (ps ++ qs) ≡ or_else (find name ps) (find name qs)
  unfolding find
  find-append name [] qs = refl
  find-append name (p ∷ ps) qs = ground (arith, find-append name ps qs)

  pub count-zero :
      (name : Str) (ps : List (CompiledPolicy P)) → find name ps ≡ none → count name ps ≡ 0
  unfolding find count
  count-zero name [] h = refl
  count-zero name (p ∷ ps) h = ground (arith, count-zero name ps)

  pub find-none :
      (name : Str) (ps : List (CompiledPolicy P)) → count name ps ≡ 0 → find name ps ≡ none
  unfolding find count
  find-none name [] h = refl
  find-none name (p ∷ ps) h = ground (arith, find-none name ps)

  pub index_by_name-none :
      (ps : List (CompiledPolicy P)) (name : Str) → index_by_name ps name ≡ none → count name ps ≡ 0
  unfolding index_by_name count
  index_by_name-none [] name h = refl
  index_by_name-none (p ∷ ps) name h = ground (arith, index_by_name-none ps name)

  index_by_name-suc :
      (p : CompiledPolicy P) (ps : List (CompiledPolicy P)) (name : Str) (i : ℕ)
      → index_by_name (p ∷ ps) name ≡ some (suc i)
      → (str_eq p.name name ≡ false) × (index_by_name ps name ≡ some i)
  unfolding index_by_name
  index_by_name-suc p ps name i h = ground arith

  index_by_name-zero :
      (p : CompiledPolicy P) (ps : List (CompiledPolicy P)) (name : Str)
      → index_by_name (p ∷ ps) name ≡ some 0
      → str_eq p.name name ≡ true
  unfolding index_by_name
  index_by_name-zero p ps name h = ground arith

  pub count-set_at :
      (ps : List (CompiledPolicy P)) (p : CompiledPolicy P) (i : ℕ) (m : Str)
      → index_by_name ps p.name ≡ some i
      → count m (set_at ps i p) ≡ count m ps
  unfolding set_at count
  count-set_at [] p i m h = refl
  count-set_at (q ∷ ps) p zero m h =
      ground (arith, index_by_name-zero q ps p.name h, str_eq_iff q.name p.name)
  count-set_at (q ∷ ps) p (suc i) m h =
      ground (arith, index_by_name-suc q ps p.name i h, count-set_at ps p i m)

  pub find-set_at :
      (ps : List (CompiledPolicy P)) (p : CompiledPolicy P) (i : ℕ) (m : Str)
      → index_by_name ps p.name ≡ some i
      → find m (set_at ps i p) ≡ (if str_eq p.name m then some p else find m ps)
  unfolding set_at find
  find-set_at [] p i m h = absurd (index_by_name-nil P p.name i h)
  find-set_at (q ∷ ps) p zero m h =
      ground (arith, index_by_name-zero q ps p.name h, str_eq_iff q.name p.name)
  find-set_at (q ∷ ps) p (suc i) m h = ground (
    arith,
    index_by_name-suc q ps p.name i h,
    str_eq_iff q.name p.name,
    str_eq_iff p.name m,
    str_eq_iff q.name m,
    find-set_at ps p i m,
  )

  pub count-remove_at :
      (ps : List (CompiledPolicy P)) (name : Str) (i : ℕ) (m : Str)
      → index_by_name ps name ≡ some i
      → count m (remove_at ps i) + (if str_eq name m then 1 else 0) ≡ count m ps
  unfolding count
  count-remove_at [] name i m h = absurd (index_by_name-nil P name i h)
  count-remove_at (q ∷ ps) name zero m h =
      ground (arith, index_by_name-zero q ps name h, str_eq_iff q.name name)
  count-remove_at (q ∷ ps) name (suc i) m h =
      ground (arith, index_by_name-suc q ps name i h, count-remove_at ps name i m)

  pub find-remove_at_ne :
      (ps : List (CompiledPolicy P)) (name : Str) (i : ℕ) (m : Str)
      → index_by_name ps name ≡ some i
      → str_eq name m ≡ false
      → find m (remove_at ps i) ≡ find m ps
  unfolding find
  find-remove_at_ne [] name i m h n = absurd (index_by_name-nil P name i h)
  find-remove_at_ne (q ∷ ps) name zero m h n =
      ground (arith, index_by_name-zero q ps name h, str_eq_iff q.name name)
  find-remove_at_ne (q ∷ ps) name (suc i) m h n =
      ground (arith, index_by_name-suc q ps name i h, find-remove_at_ne ps name i m)

  pub count-pos :
      (ps : List (CompiledPolicy P)) (name : Str) (i : ℕ)
      → index_by_name ps name ≡ some i
      → count name ps ≢ 0
  count-pos ps name i h e = ground (arith, count-remove_at ps name i name h, str_eq_refl name)
