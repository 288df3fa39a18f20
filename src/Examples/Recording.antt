-- ===== src/Examples/Recording.antt =====
-- An example of the in-memory traffic store (internal/control/traffic/memory_store.go).
use bouncer.Base.{ℕ, ◌≡◌, ◌≤◌, inr, arith, false, List, [], ◌∷◌, ◌++◌, Str, bytes}
use bouncer.Traffic.{Event, Entry, MemoryStore, new_memory_store, approx_size, pairs_size, insert}
use bouncer.Traffic.Texts.{total, texts}
use bouncer.Traffic.Budget.{IsBounded, insert_all, insert_all-IsBounded, insert-keeps}

abbrev event_of : Str → ℕ → Event
event_of id time = record {
  id = id;
  timestamp = time;
  subject = [];
  method = bytes "GET";
  url = bytes "/a";
  request_headers = [];
  request_body = [];
  api = bytes "drive";
  action = [];
  binds = [];
  meta_fetches = [];
  decision = bytes "permit";
  policy = [];
  policy_evaluations = [];
  upstream_status = 200;
  upstream_headers = [];
  upstream_body = [];
  latency_ms = 1;
  error = [];
  truncated = false;
}

abbrev two_events : MemoryStore
two_events =
    insert_all ((event_of (bytes "e1") 5, 6) ∷ (event_of (bytes "e2") 7, 8) ∷ [])
      (new_memory_store 200 100)

insert_all-IsBounded_example :
    IsBounded two_events × (texts two_events.entries ≤ two_events.max_bytes)
insert_all-IsBounded_example =
    insert_all-IsBounded ((event_of (bytes "e1") 5, 6) ∷ (event_of (bytes "e2") 7, 8) ∷ []) 200 100

abbrev first_event : Event
first_event = event_of (bytes "e1") 5

-- The budget holds one event, so that the second insertion evicts the first event.
abbrev one_event : MemoryStore
one_event = record {
  max_bytes = 200;
  max_age = 100;
  entries = record { ev = first_event; size = 149 } ∷ [];
  bytes = 149;
}

one_event-total : one_event.bytes ≡ total one_event.entries
unfolding total
one_event-total = omega arith

small : approx_size (event_of (bytes "e2") 7) ≤ 200
unfolding approx_size pairs_size
small = omega arith

insert-keeps_example :
    (before : List Entry) × ((insert (event_of (bytes "e2") 7) 8 one_event).entries
      ≡ before
        ++ (record { ev = event_of (bytes "e2") 7; size = approx_size (event_of (bytes "e2") 7) }
            ∷ []))
insert-keeps_example =
    insert-keeps (event_of (bytes "e2") 7) 8 one_event one_event-total small (inr (omega arith))
