-- ===== src/Traffic.antt =====
-- The in-memory store of recorded requests (internal/control/traffic/memory_store.go) and its records
-- (internal/control/traffic/traffic.go). The mutex makes each method one step. The index `byID` holds
-- the same entries as the list, so that a lookup in it is a search of the list.
pub mod Texts
pub mod Budget
use bouncer.Base.{
  ℕ, zero, suc, ◌+◌, ◌-◌, ◌*◌, Bool, true, false, not, ◌&&◌, ◌||◌, Option, none, some, List, [],
  ◌∷◌, ◌++◌, ltb, ◌==◌, if◌then◌else◌, length, Str, str_eq, has_prefix,
}

pub record Kv : Type 0 where
  pub key : Str
  pub value : Str

pub record PolicyEvaluation : Type 0 where
  pub policy : Str
  pub action : Str
  pub result : Str
  pub fired : Bool
  pub error : Str

pub record MetaFetch : Type 0 where
  pub meta : Str
  pub api : Str
  pub method : Str
  pub path : Str
  pub request_body : List ℕ
  pub status : ℕ
  pub response_body : List ℕ
  pub latency_ms : ℕ
  pub error : Str

-- A time is a number, and the zero time is 0. The string type `Decision` is a string, and a bind is
-- its name with the JSON text of its value.
pub record Event : Type 0 where
  pub id : Str
  pub timestamp : ℕ
  pub subject : Str
  pub method : Str
  pub url : Str
  pub request_headers : List Kv
  pub request_body : List ℕ
  pub api : Str
  pub action : Str
  pub binds : List Kv
  pub meta_fetches : List MetaFetch
  pub decision : Str
  pub policy : Str
  pub policy_evaluations : List PolicyEvaluation
  pub upstream_status : ℕ
  pub upstream_headers : List Kv
  pub upstream_body : List ℕ
  pub latency_ms : ℕ
  pub error : Str
  pub truncated : Bool

pub record Summary : Type 0 where
  pub id : Str
  pub timestamp : ℕ
  pub subject : Str
  pub method : Str
  pub url : Str
  pub api : Str
  pub action : Str
  pub decision : Str
  pub policy : Str
  pub upstream_status : ℕ
  pub latency_ms : ℕ

-- The filters of `ListOpts`; `subject` is a pointer.
pub record ListOpts : Type 0 where
  pub api : Str
  pub apis : List Str
  pub action : Str
  pub method : Str
  pub decision : Str
  pub path_prefix : Str
  pub since : ℕ
  pub until : ℕ
  pub subject : Option Str

pub record Entry : Type 0 where
  pub ev : Event
  pub size : ℕ

-- `entries` is the list, the oldest first.
pub record MemoryStore : Type 0 where
  pub max_bytes : ℕ
  pub max_age : ℕ
  pub entries : List Entry
  pub bytes : ℕ

-- `ClampLimit`; a negative limit falls back like 0.
unfoldable pub clamp_limit : ℕ → ℕ
clamp_limit n = if n == 0 then 100 else if ltb 1000 n then 1000 else n

-- `newMemoryStore`; an age is in nanoseconds.
unfoldable pub new_memory_store : ℕ → ℕ → MemoryStore
new_memory_store max_bytes max_age = record {
  max_bytes = if max_bytes == 0 then 16 * 1024 * 1024 else max_bytes;
  max_age = if max_age == 0 then 24 * 3600 * 1000000000 else max_age;
  entries = [];
  bytes = 0;
}

-- One of the loops of `approxSize`.
unfoldable pub pairs_size : List Kv → ℕ
pairs_size [] = 0
pairs_size (kv ∷ kvs) = length kv.key + length kv.value + 2 + pairs_size kvs

unfoldable pub approx_size : Event → ℕ
approx_size ev =
    length ev.id
    + length ev.subject
    + length ev.method
    + length ev.url
    + length ev.api
    + length ev.action
    + length ev.decision
    + length ev.policy
    + length ev.error
    + pairs_size ev.request_headers
    + pairs_size ev.upstream_headers
    + (length ev.request_body + length ev.upstream_body)
    + pairs_size ev.binds
    + 128

-- The first entry of the id leaves the list, with its size.
unfoldable pub take_out : Str → List Entry → Option (ℕ × List Entry)
take_out id [] = none
take_out id (e ∷ entries) =
    let rest = take_out id entries in
    if str_eq e.ev.id id
    then some (e.size, entries)
    else elim rest [ none ↦ none | some (n, others) ↦ some (n, e ∷ others) ]

-- The first part of `Insert`.
abbrev pub without : MemoryStore → Option (ℕ × List Entry) → MemoryStore
without s none = s
without s (some (n, others)) = record s { entries = others; bytes = s.bytes - n }

unfoldable pub forget : Str → MemoryStore → MemoryStore
forget id s = without s (take_out id s.entries)

-- The test `drop` of `evictLocked`, at the age cutoff.
unfoldable pub is_dropped : ℕ → ℕ → ℕ → Entry → Bool
is_dropped max_bytes cutoff bytes e =
    ltb max_bytes bytes || (not (e.ev.timestamp == 0) && ltb e.ev.timestamp cutoff)

-- The loop of `evictLocked`, from the oldest entry on.
unfoldable pub evict : ℕ → ℕ → List Entry → ℕ → List Entry × ℕ
evict max_bytes cutoff [] bytes = ([], bytes)
evict max_bytes cutoff (e ∷ entries) bytes =
    let gone = evict max_bytes cutoff entries (bytes - e.size) in
    let kept = evict max_bytes cutoff entries bytes in
    if is_dropped max_bytes cutoff bytes e then gone else (e ∷ kept.0, kept.1)

-- `evictLocked`; where Go's cutoff would lie before the zero time it is 0, and drops nothing by age.
unfoldable pub evict_locked : ℕ → MemoryStore → MemoryStore
evict_locked now s =
    let (entries, bytes) = evict s.max_bytes (now - s.max_age) s.entries s.bytes in
    record s { entries = entries; bytes = bytes }

-- `Insert`; `now` is what `time.Now` returns.
unfoldable pub push : Event → MemoryStore → MemoryStore
push ev s = record s {
  entries = s.entries ++ (record { ev = ev; size = approx_size ev } ∷ []);
  bytes = s.bytes + approx_size ev;
}

unfoldable pub insert : Event → ℕ → MemoryStore → MemoryStore
insert ev now s = evict_locked now (push ev (forget ev.id s))

-- `Get`
unfoldable pub find_event : Str → List Entry → Option Event
find_event id [] = none
find_event id (e ∷ entries) =
    let rest = find_event id entries in if str_eq e.ev.id id then some e.ev else rest

unfoldable pub get : Str → MemoryStore → Option Event
get id s = find_event id s.entries

abbrev pub is_empty {ℓ} : {A : Type ℓ} → List A → Bool
is_empty [] = true
is_empty (_ ∷ _) = false

unfoldable pub is_one_of : Str → List Str → Bool
is_one_of a [] = false
is_one_of a (x ∷ xs) = str_eq a x || is_one_of a xs

-- The filters of `match`, each of which a zero value turns off.
abbrev pub passes : Str → Str → Bool
passes wanted found = is_empty wanted || str_eq found wanted

unfoldable pub match_api : Event → ListOpts → Bool
match_api ev opts =
    if not (is_empty opts.apis) then is_one_of ev.api opts.apis else passes opts.api ev.api

unfoldable pub match : Event → ListOpts → Bool
match ev opts =
    match_api ev opts
    && passes opts.action ev.action
    && passes opts.method ev.method
    && passes opts.decision ev.decision
    && (is_empty opts.path_prefix || has_prefix ev.url opts.path_prefix)
    && (opts.since == 0 || not (ltb ev.timestamp opts.since))
    && (opts.until == 0 || not (ltb opts.until ev.timestamp))
    && elim opts.subject [ none ↦ true | some s ↦ str_eq ev.subject s ]

unfoldable pub summary : Event → Summary
summary ev = record {
  id = ev.id;
  timestamp = ev.timestamp;
  subject = ev.subject;
  method = ev.method;
  url = ev.url;
  api = ev.api;
  action = ev.action;
  decision = ev.decision;
  policy = ev.policy;
  upstream_status = ev.upstream_status;
  latency_ms = ev.latency_ms;
}
