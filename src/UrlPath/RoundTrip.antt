-- ===== src/UrlPath/RoundTrip.antt =====
-- Rendering and splitting request paths (internal/runtime/compiled/path.go) undo one another.
use bouncer.Base.{
  ℕ, ◌≡◌, refl, ap, ◌∙◌, ◌≢◌, Option, none, some, List, [], ◌∷◌, ◌++◌, map, arith, ◌+◌, ◌*◌, ◌==◌,
  if◌then◌else◌, Str, bytes, Lacks, All, split_on, join, replace_all,
}
use bouncer.UrlPath.{
  split_path, path_unescape, unescape_all, split_escaped_path, escape_segment, join_segments,
  is_hex, unhex, ◌>>=◌, split_nonempty,
}

Lacks-append : (c : ℕ) (s t : Str) → Lacks c s → Lacks c t → Lacks c (s ++ t)
Lacks-append c [] t h k = k
Lacks-append c (x ∷ s) t h k = (h.0, Lacks-append c s t h.1 k)

replace_all-Lacks : (c : ℕ) (by s : Str) → Lacks c by → Lacks c (replace_all c by s)
unfolding replace_all
replace_all-Lacks c by [] h = tt
replace_all-Lacks c by (x ∷ s) h =
    ground (arith, replace_all-Lacks c by s h, Lacks-append c by (replace_all c by s) h)

escape_segment-Lacks : (s : Str) → Lacks b'/' (escape_segment s)
unfolding escape_segment
escape_segment-Lacks s =
    replace_all-Lacks b'/' (bytes "%2F") (replace_all b'%' (bytes "%25") s) (omega arith)

-- Splitting at a byte that no part holds finds the parts again.
split_on-append :
    (c : ℕ) (s rest : Str) → Lacks c s → split_on c (s ++ (c ∷ rest)) ≡ s ∷ split_on c rest
unfolding split_on
split_on-append c [] rest h = ground arith
split_on-append c (x ∷ s) rest h = ground (arith, split_on-append c s rest h.1)

split_on_of_Lacks : (c : ℕ) (s : Str) → Lacks c s → split_on c s ≡ s ∷ []
unfolding split_on
split_on_of_Lacks c [] h = refl
split_on_of_Lacks c (x ∷ s) h = ground (arith, split_on_of_Lacks c s h.1)

split_on-join :
    (c : ℕ) (s : Str) (ss : List Str)
    → All (Lacks c) (s ∷ ss)
    → split_on c (join c (s ∷ ss)) ≡ s ∷ ss
unfolding join
split_on-join c s [] h = split_on_of_Lacks c s h.0
split_on-join c s (t ∷ ss) h =
    split_on-append c s (join c (t ∷ ss)) h.0 ∙ ap (λ r. s ∷ r) (split_on-join c t ss h.1)

-- Decoding an escaped segment gives it back.
abbrev escape_byte : ℕ → Str
escape_byte x = if x == b'%' then bytes "%25" else if x == b'/' then bytes "%2F" else x ∷ []

escape_segment-cons : (x : ℕ) (s : Str) → escape_segment (x ∷ s) ≡ escape_byte x ++ escape_segment s
unfolding escape_segment replace_all
escape_segment-cons x s = ground arith

path_unescape-plain :
    (x : ℕ) (s : Str) → x ≢ b'%' → path_unescape (x ∷ s) ≡ (path_unescape s >>= λ t. some (x ∷ t))
unfolding path_unescape
path_unescape-plain x [] h = ground arith
path_unescape-plain x (d ∷ []) h = ground arith
path_unescape-plain x (d ∷ e ∷ s) h = ground arith

path_unescape-escape_byte :
    (x : ℕ) (s : Str) → path_unescape (escape_byte x ++ s) ≡ (path_unescape s >>= λ t. some (x ∷ t))
unfolding path_unescape is_hex unhex
path_unescape-escape_byte x s = ground (arith, path_unescape-plain x s)

path_unescape-escape_segment : (s : Str) → path_unescape (escape_segment s) ≡ some s
path_unescape-escape_segment [] = unfold escape_segment replace_all path_unescape in refl
path_unescape-escape_segment (x ∷ s) =
    rw (escape_segment-cons, path_unescape-escape_byte, path_unescape-escape_segment s) refl

unescape_all-escape : (ss : List Str) → unescape_all (map escape_segment ss) ≡ some ss
unfolding unescape_all
unescape_all-escape [] = refl
unescape_all-escape (s ∷ ss) = rw (path_unescape-escape_segment s, unescape_all-escape ss) refl

split_nonempty_lem : (s : Str) → s ≢ [] → split_nonempty s ≡ split_on b'/' s
split_nonempty_lem [] h = absurd (h refl)
split_nonempty_lem (c ∷ s) h = refl

escape_byte-ne-nil : (x : ℕ) (s : Str) → escape_byte x ++ s ≢ []
escape_byte-ne-nil x s e = ground arith

append-cons-ne-nil : (s : Str) (c : ℕ) (t : Str) → s ++ (c ∷ t) ≢ []
append-cons-ne-nil [] c t e = cc
append-cons-ne-nil (x ∷ s) c t e = cc

-- The list that no request path splits into: one empty segment.
abbrev pub lone_empty : List Str
lone_empty = [] ∷ []

join-ne-nil :
    (s : Str) (ss : List Str) → s ∷ ss ≢ lone_empty → join b'/' (map escape_segment (s ∷ ss)) ≢ []
unfolding join
join-ne-nil [] [] h = absurd (h refl)
join-ne-nil (x ∷ s) [] h = rw escape_segment-cons (escape_byte-ne-nil x (escape_segment s))
join-ne-nil s (t ∷ ss) h =
    append-cons-ne-nil (escape_segment s) b'/' (join b'/' (map escape_segment (t ∷ ss)))

All-escape_segment : (ss : List Str) → All (Lacks b'/') (map escape_segment ss)
All-escape_segment [] = tt
All-escape_segment (s ∷ ss) = (escape_segment-Lacks s, All-escape_segment ss)

split_path-join_segments :
    (ss : List Str) → ss ≢ lone_empty → split_path (join_segments ss) ≡ map escape_segment ss
split_path-join_segments [] h = unfold split_path join_segments in refl
split_path-join_segments (s ∷ ss) h =
    unfold split_path join_segments in
    (split_nonempty_lem _ (join-ne-nil s ss h)
      ∙ split_on-join b'/' (escape_segment s) (map escape_segment ss) (All-escape_segment (s ∷ ss)))

pub split_escaped_path-join_segments :
    (ss : List Str) → ss ≢ lone_empty → split_escaped_path (join_segments ss) ≡ some ss
unfolding split_escaped_path
split_escaped_path-join_segments ss h = rw (split_path-join_segments ss h) (unescape_all-escape ss)

-- No path splits into one empty segment.
bind-cons-ne-nil : (o : Option Str) (c : ℕ) → (o >>= λ t. some (c ∷ t)) ≢ some []
bind-cons-ne-nil none c e = cc
bind-cons-ne-nil (some t) c e = cc

path_unescape-nil : (s : Str) → path_unescape s ≡ some [] → s ≡ []
unfolding path_unescape
path_unescape-nil [] h = refl
path_unescape-nil (c ∷ []) h = ground arith
path_unescape-nil (c ∷ d ∷ []) h = ground arith
path_unescape-nil (c ∷ d ∷ e ∷ s) h = ground (
  arith,
  bind-cons-ne-nil (path_unescape s) (unhex d * 16 + unhex e),
  bind-cons-ne-nil (path_unescape (d ∷ e ∷ s)) c,
)

split_on-ne-nil : (c : ℕ) (s : Str) → split_on c s ≢ []
unfolding split_on
split_on-ne-nil c [] e = cc
split_on-ne-nil c (x ∷ s) e = ground arith

split_on-ne-lone_empty : (c x : ℕ) (s : Str) → split_on c (x ∷ s) ≢ lone_empty
unfolding split_on
split_on-ne-lone_empty c x s e = ground (arith, split_on-ne-nil c s)

split_path-ne-lone_empty : (p : Str) → split_path p ≢ lone_empty
unfolding split_path
split_path-ne-lone_empty [] e = cc
split_path-ne-lone_empty (c ∷ []) e = ground (arith, split_on-ne-lone_empty b'/' c [])
split_path-ne-lone_empty (c ∷ d ∷ p) e =
    ground (arith, split_on-ne-lone_empty b'/' c (d ∷ p), split_on-ne-lone_empty b'/' d p)

unescape_all-lone_empty : (ss : List Str) → unescape_all ss ≡ some lone_empty → ss ≡ lone_empty
unfolding unescape_all
unescape_all-lone_empty [] h = cc
unescape_all-lone_empty (s ∷ []) h = ground (arith, path_unescape-nil s)
unescape_all-lone_empty (s ∷ t ∷ ss) h = ground arith

pub split_escaped_path-ne-lone_empty :
    (p : Str) (ss : List Str) → split_escaped_path p ≡ some ss → ss ≢ lone_empty
unfolding split_escaped_path
split_escaped_path-ne-lone_empty p ss h e =
    split_path-ne-lone_empty p (unescape_all-lone_empty (split_path p) (rw e at h))

-- The rendered path splits into the segments that it was rendered from, for every request path.
pub join_segments_round_trip :
    (p : Str) (ss : List Str)
    → split_escaped_path p ≡ some ss
    → split_escaped_path (join_segments ss) ≡ some ss
join_segments_round_trip p ss h =
    split_escaped_path-join_segments ss (split_escaped_path-ne-lone_empty p ss h)

-- Two request paths that split and whose segments render alike have the same segments.
join_segments_unambiguous :
    (p q : Str) (ss ts : List Str)
    → split_escaped_path p ≡ some ss
    → split_escaped_path q ≡ some ts
    → join_segments ss ≡ join_segments ts
    → ss ≡ ts
join_segments_unambiguous p q ss ts hp hq e =
    cc (e, join_segments_round_trip p ss hp, join_segments_round_trip q ts hq)
