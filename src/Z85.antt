-- ===== src/Z85.antt =====
-- The length-framed Base-85 codec (internal/auth/z85/z85.go). A byte slice is a list of numbers.
pub mod RoundTrip
use bouncer.Base.{
  ℕ, zero, suc, ◌+◌, ◌-◌, ◌*◌, ◌/◌, ◌%◌, ◌^◌, Bool, Option, none, some, not, List, [], ◌∷◌, ◌++◌,
  ltb, ◌==◌, if◌then◌else◌, length, get_elem?, take, drop, replicate, Str, bytes, Outcome, ok, err,
  ◌>>=◌, ◌>>◌, guard,
}

abbrev pub alphabet : Str
alphabet =
    bytes "0123456789abcdefghijklmnopqrstuvwxyzABCDEFGHIJKLMNOPQRSTUVWXYZ.-:+=^!/*?&<>()[]{}@%$#"

abbrev set_byte : List ℕ → ℕ → ℕ → List ℕ
set_byte [] i v = []
set_byte (x ∷ xs) zero v = v ∷ xs
set_byte (x ∷ xs) (suc i) v = x ∷ set_byte xs i v

-- The loop of `init` over the alphabet.
fill : ℕ → Str → List ℕ → List ℕ
fill i [] table = table
fill i (c ∷ cs) table = fill (i + 1) cs (set_byte table c i)

unfoldable pub decoder : List ℕ
unfolding fill
decoder = fill 0 alphabet (replicate 256 0xFF)

-- `table[i]` at an index that is in range; `none` would be Go's panic.
abbrev pub at : List ℕ → ℕ → ℕ
at table i = elim (get_elem? table i) [ none ↦ 0 | some x ↦ x ]

-- `alphabet[d]` and `decoder[c]`
unfoldable pub digit_char : ℕ → ℕ
digit_char d = at alphabet d

unfoldable pub digit_value : ℕ → ℕ
unfolding decoder
digit_value c = at decoder c

-- `uint32(a)<<24 | uint32(b)<<16 | uint32(c)<<8 | uint32(d)`, whose bits do not overlap
abbrev pub word : ℕ → ℕ → ℕ → ℕ → ℕ
word a b c d = a * 2 ^ 24 + b * 2 ^ 16 + c * 2 ^ 8 + d

-- The loop that fills `chunk` from its last byte to its first; `j` bytes are left.
unfoldable pub chunk_loop : ℕ → ℕ → Str → Str
chunk_loop zero v chunk = chunk
chunk_loop (suc j) v chunk = chunk_loop j (v / 85) (digit_char (v % 85) ∷ chunk)

-- The loop of `Encode`; the buffer is a multiple of 4 long, so the last clause meets only [].
unfoldable pub encode_words : List ℕ → Str
encode_words (a ∷ b ∷ c ∷ d ∷ buf) = chunk_loop 5 (word a b c d) [] ++ encode_words buf
encode_words _ = []

abbrev pub pad_count : ℕ → ℕ
pad_count n = (4 - (n + 1) % 4) % 4

unfoldable pub encode : List ℕ → Str
encode input = let pad = pad_count (length input) in encode_words (pad ∷ (input ++ replicate pad 0))

pub data DecodeError : Type 0 where
  empty_input bad_length invalid_pad : DecodeError
  invalid_character : ℕ → DecodeError

-- The inner loop of `Decode`: `v = v*85 + uint32(d)`.
unfoldable pub decode_chunk : Str → ℕ → Outcome DecodeError ℕ
decode_chunk [] v = ok v
decode_chunk (c ∷ cs) v =
    let d = digit_value c in
    let rest = decode_chunk cs ((v * 85 + d) % 2 ^ 32) in
    if d == 0xFF then err (invalid_character c) else rest

-- `byte(v>>24), byte(v>>16), byte(v>>8), byte(v)`
abbrev pub word_bytes : ℕ → List ℕ
word_bytes v = (v / 2 ^ 24 % 256) ∷ (v / 2 ^ 16 % 256) ∷ (v / 2 ^ 8 % 256) ∷ (v % 256) ∷ []

-- The outer loop of `Decode`; the input is a multiple of 5 long.
unfoldable pub decode_words : Str → Outcome DecodeError (List ℕ)
decode_words (a ∷ b ∷ c ∷ d ∷ e ∷ s) = do
  v ← decode_chunk (a ∷ b ∷ c ∷ d ∷ e ∷ []) 0
  raw ← decode_words s
  ok (word_bytes v ++ raw)
decode_words _ = ok []

-- `raw[1 : len(raw)-pad]`; `raw` has at least four bytes here, so the bounds are in range.
unfoldable pub unframe : List ℕ → Outcome DecodeError (List ℕ)
unframe raw =
    let pad = at raw 0 in
    if ltb 3 pad then err invalid_pad else ok (drop 1 (take (length raw - pad) raw))

unfoldable pub decode : Str → Outcome DecodeError (List ℕ)
decode s = do
  guard (not (length s == 0)) empty_input
  guard (length s % 5 == 0) bad_length
  raw ← decode_words s
  unframe raw
