-- ===== src/Traffic/Budget.antt =====
-- The budgets of the in-memory traffic store (internal/control/traffic/memory_store.go).
use bouncer.Base.{
  ℕ, ◌+◌, ◌-◌, ◌≤◌, ◌≡◌, ◌⊎◌, inl, inr, refl, ap, ◌∙◌, Option, none, some, List, [], ◌∷◌, ◌++◌,
  arith, All, Str, str_eq, Bool-cases,
}
use bouncer.Traffic.{
  Event, Entry, MemoryStore, new_memory_store, approx_size, take_out, without, forget, is_dropped,
  evict, evict_locked, push, insert,
}
use bouncer.Traffic.Texts.{total, texts, IsCovered, texts-le-total, insert-IsCovered}

-- The counter is the sum of the entries' sizes, and within the budget.
abbrev pub IsBounded : MemoryStore → Type 0
IsBounded s = (s.bytes ≡ total s.entries) × (s.bytes ≤ s.max_bytes)

total-append : (xs ys : List Entry) → total (xs ++ ys) ≡ total xs + total ys
unfolding total
total-append [] ys = omega arith
total-append (x ∷ xs) ys = omega (arith, total-append xs ys)

abbrev IsTakenOut : Option (ℕ × List Entry) → List Entry → Type 0
IsTakenOut none entries = Unit
IsTakenOut (some (n, others)) entries = total entries ≡ n + total others

take_out-total_next :
    (e : Entry) (entries : List Entry) (rest : Option (ℕ × List Entry))
    → IsTakenOut rest entries
    → IsTakenOut (elim rest [ none ↦ none | some (n, others) ↦ some (n, e ∷ others) ]) (e ∷ entries)
unfolding total
take_out-total_next e entries none h = tt
take_out-total_next e entries (some (n, others)) h = omega (arith, h)

-- Taking an entry out takes its size out of the sum.
take_out-total : (id : Str) (entries : List Entry) → IsTakenOut (take_out id entries) entries
unfolding take_out total
take_out-total id [] = tt
take_out-total id (e ∷ entries) = elim (Bool-cases (str_eq e.ev.id id)) [
  | inl h ↦ rw h refl
  | inr h ↦ rw h (take_out-total_next e entries (take_out id entries) (take_out-total id entries))
]

-- What the loop leaves: with `bytes` for the kept entries before and those to come, the count is right.
evict-total :
    (max cutoff kept : ℕ) (entries : List Entry) (bytes : ℕ)
    → bytes ≡ kept + total entries
    → (evict max cutoff entries bytes).1 ≡ kept + total (evict max cutoff entries bytes).0
unfolding evict total
evict-total max cutoff kept [] bytes h = h
evict-total max cutoff kept (e ∷ entries) bytes h = ground (
  arith,
  evict-total max cutoff kept entries (bytes - e.size),
  evict-total max cutoff (kept + e.size) entries bytes,
)

-- The loop ends within the budget, if the kept entries before it were.
evict-bounded :
    (max cutoff kept : ℕ) (entries : List Entry) (bytes : ℕ)
    → bytes ≡ kept + total entries
    → (kept ≡ 0) ⊎ (bytes ≤ max)
    → (evict max cutoff entries bytes).1 ≤ max
unfolding evict total is_dropped
evict-bounded max cutoff kept [] bytes h k = ground arith
evict-bounded max cutoff kept (e ∷ entries) bytes h k = ground (
  arith,
  evict-bounded max cutoff kept entries (bytes - e.size),
  evict-bounded max cutoff (kept + e.size) entries bytes,
)

without-total :
    (s : MemoryStore) (o : Option (ℕ × List Entry))
    → s.bytes ≡ total s.entries
    → IsTakenOut o s.entries
    → (without s o).bytes ≡ total (without s o).entries
without-total s none h t = h
without-total s (some (n, others)) h t = omega (arith, t, h)

forget-total :
    (id : Str) (s : MemoryStore)
    → s.bytes ≡ total s.entries
    → (forget id s).bytes ≡ total (forget id s).entries
unfolding forget
forget-total id s h = without-total s (take_out id s.entries) h (take_out-total id s.entries)

push-total :
    (ev : Event) (s : MemoryStore)
    → s.bytes ≡ total s.entries
    → (push ev s).bytes ≡ total (push ev s).entries
unfolding push total
push-total ev s h =
    omega (arith, h, total-append s.entries (record { ev = ev; size = approx_size ev } ∷ []))

evict_locked-IsBounded :
    (now : ℕ) (s : MemoryStore) → s.bytes ≡ total s.entries → IsBounded (evict_locked now s)
unfolding evict_locked
evict_locked-IsBounded now s h = (
  omega (arith, evict-total s.max_bytes (now - s.max_age) 0 s.entries s.bytes (omega (arith, h))),
  evict-bounded s.max_bytes (now - s.max_age) 0 s.entries s.bytes (omega (arith, h)) (inl refl),
)

insert-IsBounded :
    (ev : Event) (now : ℕ) (s : MemoryStore) → IsBounded s → IsBounded (insert ev now s)
unfolding insert
insert-IsBounded ev now s (t, b) =
    evict_locked-IsBounded now (push ev (forget ev.id s))
      (push-total ev (forget ev.id s) (forget-total ev.id s t))

-- The inserts, each with the time of its call.
abbrev pub insert_all : List (Event × ℕ) → MemoryStore → MemoryStore
insert_all [] s = s
insert_all ((ev, now) ∷ evs) s = insert_all evs (insert ev now s)

insert_all_from :
    (evs : List (Event × ℕ)) (s : MemoryStore) → IsBounded s → IsBounded (insert_all evs s)
insert_all_from [] s h = h
insert_all_from ((ev, now) ∷ evs) s h =
    insert_all_from evs (insert ev now s) (insert-IsBounded ev now s h)

insert_all-IsCovered :
    (evs : List (Event × ℕ)) (s : MemoryStore)
    → All IsCovered s.entries
    → All IsCovered (insert_all evs s).entries
insert_all-IsCovered [] s h = h
insert_all-IsCovered ((ev, now) ∷ evs) s h =
    insert_all-IsCovered evs (insert ev now s) (insert-IsCovered ev now s h)

-- Whatever is inserted in a new store, at whatever times: its counter is the sum of the sizes that it
-- estimated for its events, and within its budget; and so are the bytes of their own texts, headers,
-- bodies and bindings. What an event holds of meta fetches and of policy evaluations is not counted.
pub insert_all-IsBounded :
    (evs : List (Event × ℕ)) (max_bytes max_age : ℕ)
    → IsBounded (insert_all evs (new_memory_store max_bytes max_age))
      × (texts (insert_all evs (new_memory_store max_bytes max_age)).entries
          ≤ (insert_all evs (new_memory_store max_bytes max_age)).max_bytes)
insert_all-IsBounded evs max_bytes max_age =
    let new = new_memory_store max_bytes max_age in
    let bounded : IsBounded (insert_all evs new) =
      insert_all_from evs _ (unfold new_memory_store total in (refl, omega arith)) in
    let covered = insert_all-IsCovered evs new (unfold new_memory_store in tt) in
    let below = texts-le-total (insert_all evs new).entries covered in
    (bounded, omega (arith, bounded, below))

-- The loop keeps the last entry, if it alone is within the budgets.
evict-last :
    (max cutoff kept : ℕ) (entries : List Entry) (bytes : ℕ) (e : Entry)
    → bytes ≡ kept + (total entries + e.size)
    → (kept ≡ 0) ⊎ (bytes ≤ max)
    → e.size ≤ max
    → (e.ev.timestamp ≡ 0) ⊎ (cutoff ≤ e.ev.timestamp)
    → (before : List Entry) × ((evict max cutoff (entries ++ (e ∷ [])) bytes).0
        ≡ before ++ (e ∷ []))
unfolding evict total is_dropped
evict-last max cutoff kept [] bytes e h k fits fresh = ([], ground arith)
evict-last max cutoff kept (x ∷ entries) bytes e h k fits fresh =
    elim (Bool-cases (is_dropped max cutoff bytes x)) [
      | inl d ↦ rw d (
          evict-last max cutoff kept entries (bytes - x.size) e (omega (arith, h))
            (omega (arith, k)) fits fresh)
      | inr d ↦
          let within : bytes ≤ max = ground arith in
          let (before, eq) =
            evict-last max cutoff (kept + x.size) entries bytes e (omega (arith, h)) (inr within)
              fits fresh in
          (x ∷ before, rw d (ap (λ l. x ∷ l) eq))
    ]

without-budgets :
    (s : MemoryStore) (o : Option (ℕ × List Entry))
    → ((without s o).max_bytes ≡ s.max_bytes) × ((without s o).max_age ≡ s.max_age)
without-budgets s none = (refl, refl)
without-budgets s (some (n, others)) = (refl, refl)

forget-budgets :
    (id : Str) (s : MemoryStore)
    → ((forget id s).max_bytes ≡ s.max_bytes) × ((forget id s).max_age ≡ s.max_age)
unfolding forget
forget-budgets id s = without-budgets s (take_out id s.entries)

insert-entries :
    (ev : Event) (now : ℕ) (s : MemoryStore)
    → (insert ev now s).entries
      ≡ (evict s.max_bytes
          (now - s.max_age)
          ((forget ev.id s).entries ++ (record { ev = ev; size = approx_size ev } ∷ []))
          ((forget ev.id s).bytes + approx_size ev)).0
unfolding insert evict_locked push
insert-entries ev now s =
    let f = forget ev.id s in
    let entries : List Entry = f.entries ++ (record { ev = ev; size = approx_size ev } ∷ []) in
    let bytes = f.bytes + approx_size ev in
    let (max, age) = forget-budgets ev.id s in
    ap (λ b. (evict b (now - f.max_age) entries bytes).0) max
    ∙ ap (λ a. (evict s.max_bytes (now - a) entries bytes).0) age

-- In a store that counts its bytes right, what is inserted is kept, as the newest entry, if it is
-- within the byte budget by itself and has no time or is not older than the age budget.
pub insert-keeps :
    (ev : Event) (now : ℕ) (s : MemoryStore)
    → s.bytes ≡ total s.entries
    → approx_size ev ≤ s.max_bytes
    → (ev.timestamp ≡ 0) ⊎ (now - s.max_age ≤ ev.timestamp)
    → (before : List Entry) × ((insert ev now s).entries
        ≡ before ++ (record { ev = ev; size = approx_size ev } ∷ []))
insert-keeps ev now s h fits fresh =
    let e : Entry = record { ev = ev; size = approx_size ev } in
    let (before, eq) =
      evict-last s.max_bytes (now - s.max_age) 0 (forget ev.id s).entries
        ((forget ev.id s).bytes + approx_size ev) e (omega (arith, forget-total ev.id s h))
        (inl refl) fits fresh in
    (before, insert-entries ev now s ∙ eq)
