-- ===== src/Traffic/Texts.antt =====
-- The texts of the recorded requests, and that the estimated sizes cover them
-- (internal/control/traffic/memory_store.go).
use bouncer.Base.{
  ℕ, ◌+◌, ◌-◌, ◌≤◌, inl, inr, Option, none, some, List, [], ◌∷◌, arith, length, All, All-append,
  Str, str_eq, Bool-cases,
}
use bouncer.Traffic.{
  Kv, pairs_size, Event, Entry, MemoryStore, approx_size, take_out, without, forget, is_dropped,
  evict, evict_locked, push, insert,
}

-- The sum of the sizes.
unfoldable pub total : List Entry → ℕ
total [] = 0
total (e ∷ entries) = e.size + total entries

-- The bytes of the keys and values.
unfoldable pub pair_texts : List Kv → ℕ
pair_texts [] = 0
pair_texts (kv ∷ kvs) = length kv.key + length kv.value + pair_texts kvs

-- The bytes of an event's own texts, headers, bodies and bindings.
abbrev pub text_bytes : Event → ℕ
text_bytes ev =
    (length ev.id
      + length ev.subject
      + length ev.method
      + length ev.url
      + length ev.api
      + length ev.action)
    + (length ev.decision + length ev.policy + length ev.error)
    + (pair_texts ev.request_headers + pair_texts ev.upstream_headers + pair_texts ev.binds)
    + (length ev.request_body + length ev.upstream_body)

unfoldable pub texts : List Entry → ℕ
texts [] = 0
texts (e ∷ entries) = text_bytes e.ev + texts entries

-- The entry counts for no less than its event's texts.
abbrev pub IsCovered : Entry → Type 0
IsCovered e = text_bytes e.ev ≤ e.size

pair_texts-le : (kvs : List Kv) → pair_texts kvs ≤ pairs_size kvs
unfolding pair_texts pairs_size
pair_texts-le [] = omega arith
pair_texts-le (kv ∷ kvs) = omega (arith, pair_texts-le kvs)

text_bytes-le : (ev : Event) → text_bytes ev ≤ approx_size ev
unfolding approx_size
text_bytes-le ev = omega (
  arith,
  pair_texts-le ev.request_headers,
  pair_texts-le ev.upstream_headers,
  pair_texts-le ev.binds,
)

pub texts-le-total : (entries : List Entry) → All IsCovered entries → texts entries ≤ total entries
unfolding texts total
texts-le-total [] h = omega arith
texts-le-total (e ∷ entries) (c, h) = omega (arith, c, texts-le-total entries h)

abbrev pub IsCoveredOut : Option (ℕ × List Entry) → Type 0
IsCoveredOut none = Unit
IsCoveredOut (some (n, others)) = All IsCovered others

take_out-IsCoveredOut_next :
    (e : Entry) (rest : Option (ℕ × List Entry))
    → IsCovered e
    → IsCoveredOut rest
    → IsCoveredOut (elim rest [ none ↦ none | some (n, others) ↦ some (n, e ∷ others) ])
take_out-IsCoveredOut_next e none c h = tt
take_out-IsCoveredOut_next e (some (n, others)) c h = (c, h)

take_out-IsCoveredOut :
    (id : Str) (entries : List Entry) → All IsCovered entries → IsCoveredOut (take_out id entries)
unfolding take_out
take_out-IsCoveredOut id [] h = tt
take_out-IsCoveredOut id (e ∷ entries) (c, h) = elim (Bool-cases (str_eq e.ev.id id)) [
  | inl k ↦ rw k h
  | inr k ↦
      rw k
        (take_out-IsCoveredOut_next e (take_out id entries) c (take_out-IsCoveredOut id entries h))
]

without-IsCovered :
    (s : MemoryStore) (o : Option (ℕ × List Entry))
    → All IsCovered s.entries
    → IsCoveredOut o
    → All IsCovered (without s o).entries
without-IsCovered s none h t = h
without-IsCovered s (some (n, others)) h t = t

evict-IsCovered :
    (max cutoff : ℕ) (entries : List Entry) (bytes : ℕ)
    → All IsCovered entries
    → All IsCovered (evict max cutoff entries bytes).0
unfolding evict
evict-IsCovered max cutoff [] bytes h = tt
evict-IsCovered max cutoff (e ∷ entries) bytes (c, h) =
    elim (Bool-cases (is_dropped max cutoff bytes e)) [
      | inl k ↦ rw (k, evict) (evict-IsCovered max cutoff entries (bytes - e.size) h)
      | inr k ↦ rw (k, evict) (c, evict-IsCovered max cutoff entries bytes h)
    ]

pub insert-IsCovered :
    (ev : Event) (now : ℕ) (s : MemoryStore)
    → All IsCovered s.entries
    → All IsCovered (insert ev now s).entries
unfolding insert evict_locked push forget
insert-IsCovered ev now s h =
    evict-IsCovered (forget ev.id s).max_bytes (now - (forget ev.id s).max_age) _
      ((forget ev.id s).bytes + approx_size ev)
      (All-append IsCovered (forget ev.id s).entries
        (record { ev = ev; size = approx_size ev } ∷ [])
        (without-IsCovered s (take_out ev.id s.entries) h (take_out-IsCoveredOut ev.id s.entries h))
        (text_bytes-le ev, tt))
