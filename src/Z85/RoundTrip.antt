-- ===== src/Z85/RoundTrip.antt =====
-- Decoding undoes encoding, for byte strings of every length.
use bouncer.Base.{
  ℕ, zero, suc, ◌+◌, ◌-◌, ◌*◌, ◌/◌, ◌%◌, ◌^◌, ◌<◌, ◌≤◌, ◌≡◌, refl, ap, ◌∙◌, Bool, true, ◌&&◌, List,
  [], ◌∷◌, ◌++◌, arith, ◌==◌, length, length-append, length-replicate, take, replicate, All,
  All-append, Str, Outcome, ok, ◌>>=◌,
}
use bouncer.Z85.{
  digit_char, digit_value, word, chunk_loop, encode_words, pad_count, encode, decode_chunk,
  word_bytes, decode_words, unframe, decode, DecodeError,
}

abbrev pub IsByte : ℕ → Type 0
IsByte b = b < 256

-- The test holds of each of the first `k` numbers.
each_of : (ℕ → Bool) → ℕ → Bool
each_of test zero = true
each_of test (suc k) = each_of test k && test k

each_of-get : (test : ℕ → Bool) (k i : ℕ) → i < k → each_of test k ≡ true → test i ≡ true
unfolding each_of
each_of-get test zero i below h = absurd (omega arith)
each_of-get test (suc k) i below h = ground (arith, each_of-get test k i)

digit_table : each_of (λ d. digit_value (digit_char d) == d) 85 ≡ true
unfolding each_of digit_char digit_value
digit_table = refl

-- The decoder's table inverts the alphabet.
digit_value-digit_char : (d : ℕ) → d < 85 → digit_value (digit_char d) ≡ d
digit_value-digit_char d h =
    ground (arith, each_of-get (λ e. digit_value (digit_char e) == e) 85 d h digit_table)

decode_chunk-cons :
    (d : ℕ) (cs : Str) (v : ℕ)
    → d < 85
    → decode_chunk (digit_char d ∷ cs) v ≡ decode_chunk cs ((v * 85 + d) % 2 ^ 32)
unfolding decode_chunk
decode_chunk-cons d cs v h = ground (arith, digit_value-digit_char d)

-- One more digit of a word, with no wrap-around.
decode_chunk-digit :
    (q : ℕ) (cs : Str)
    → q < 2 ^ 32
    → decode_chunk (digit_char (q % 85) ∷ cs) (q / 85) ≡ decode_chunk cs q
decode_chunk-digit q cs h =
    decode_chunk-cons (q % 85) cs (q / 85) (omega arith) ∙ ap (decode_chunk cs) (omega arith)

decode_chunk-chunk_loop : (v : ℕ) → v < 2 ^ 32 → decode_chunk (chunk_loop 5 v []) 0 ≡ ok v
unfolding chunk_loop
decode_chunk-chunk_loop v h =
    let top : ◌≡◌ {A = ℕ} 0 (v / 85 / 85 / 85 / 85 / 85) = omega arith in
    ap (decode_chunk (chunk_loop 5 v [])) top
    ∙ decode_chunk-digit (v / 85 / 85 / 85 / 85) _ (omega arith)
    ∙ decode_chunk-digit (v / 85 / 85 / 85) _ (omega arith)
    ∙ decode_chunk-digit (v / 85 / 85) _ (omega arith)
    ∙ decode_chunk-digit (v / 85) _ (omega arith)
    ∙ decode_chunk-digit v _ h
    ∙ unfold decode_chunk in refl

word_bytes-word :
    (a b c d : ℕ)
    → IsByte a
    → IsByte b
    → IsByte c
    → IsByte d
    → word_bytes (word a b c d) ≡ a ∷ b ∷ c ∷ d ∷ []
word_bytes-word a b c d ha hb hc hd = ground arith

decode_words-step :
    (v : ℕ) (s : Str)
    → v < 2 ^ 32
    → decode_words (chunk_loop 5 v [] ++ s) ≡ (decode_words s >>= λ raw. ok (word_bytes v ++ raw))
unfolding chunk_loop decode_words
decode_words-step v s h = rw (decode_chunk-chunk_loop v h) refl

encode_words-step :
    (a b c d : ℕ) (buf : List ℕ) {r t : Outcome DecodeError (List ℕ)}
    → decode_words (chunk_loop 5 (word a b c d) [] ++ encode_words buf) ≡ r
    → r ≡ t
    → decode_words (encode_words (a ∷ b ∷ c ∷ d ∷ buf)) ≡ t
unfolding encode_words
encode_words-step a b c d buf e f = e ∙ f

-- The words of the framed buffer are decoded to the bytes they were built from.
decode_words-encode_words :
    (k : ℕ) (buf : List ℕ)
    → length buf ≡ 4 * k
    → All IsByte buf
    → decode_words (encode_words buf) ≡ ok buf
decode_words-encode_words zero [] len h = unfold decode_words encode_words in refl
decode_words-encode_words zero (_ ∷ _) len h = absurd (omega arith)
decode_words-encode_words (suc k) (a ∷ b ∷ c ∷ d ∷ buf) len (ha, (hb, (hc, (hd, h)))) =
    let ih = decode_words-encode_words k buf (omega arith) h in
    let fits : word a b c d < 2 ^ 32 = omega arith in
    let step = decode_words-step (word a b c d) (encode_words buf) fits in
    encode_words-step a b c d buf step
      (rw ih (ap (λ (x : List ℕ). ok (x ++ buf)) (word_bytes-word a b c d ha hb hc hd)))
decode_words-encode_words (suc k) (a ∷ b ∷ c ∷ []) len h = absurd (omega arith)
decode_words-encode_words (suc k) (a ∷ b ∷ []) len h = absurd (omega arith)
decode_words-encode_words (suc k) (a ∷ []) len h = absurd (omega arith)
decode_words-encode_words (suc k) [] len h = absurd (omega arith)

replicate-IsByte : (n : ℕ) → All IsByte (replicate n 0)
replicate-IsByte zero = tt
replicate-IsByte (suc n) = (omega arith, replicate-IsByte n)

take-length-append : (xs ys : List ℕ) (n : ℕ) → n ≡ length xs → take n (xs ++ ys) ≡ xs
take-length-append [] ys zero e = refl
take-length-append [] ys (suc n) e = absurd (omega arith)
take-length-append (x ∷ xs) ys zero e = absurd (omega arith)
take-length-append (x ∷ xs) ys (suc n) e =
    ap (λ r. x ∷ r) (take-length-append xs ys n (omega arith))

abbrev frame : ℕ → List ℕ → List ℕ
frame pad input = pad ∷ (input ++ replicate pad 0)

length-frame : (pad : ℕ) (input : List ℕ) → length (frame pad input) ≡ suc (length input) + pad
length-frame pad input =
    omega (arith, length-append input (replicate pad 0), length-replicate {0} {A = ℕ} pad 0)

unframe-frame : (pad : ℕ) (input : List ℕ) → pad ≤ 3 → unframe (frame pad input) ≡ ok input
unfolding unframe
unframe-frame pad input h =
    let kept : length (frame pad input) - pad ≡ suc (length input) =
      omega (arith, length-frame pad input) in
    rw kept (ground (arith, take-length-append input (replicate pad 0) (length input)))

frame-IsByte :
    (pad : ℕ) (input : List ℕ) → pad ≤ 3 → All IsByte input → All IsByte (frame pad input)
frame-IsByte pad input h k =
    (omega arith, All-append IsByte input (replicate pad 0) k (replicate-IsByte pad))

length-encode_words :
    (k : ℕ) (buf : List ℕ) → length buf ≡ 4 * k → length (encode_words buf) ≡ 5 * k
unfolding encode_words chunk_loop
length-encode_words zero [] len = refl
length-encode_words zero (_ ∷ _) len = absurd (omega arith)
length-encode_words (suc k) (a ∷ b ∷ c ∷ d ∷ buf) len =
    omega (arith, length-encode_words k buf (omega arith))
length-encode_words (suc k) (a ∷ b ∷ c ∷ []) len = absurd (omega arith)
length-encode_words (suc k) (a ∷ b ∷ []) len = absurd (omega arith)
length-encode_words (suc k) (a ∷ []) len = absurd (omega arith)
length-encode_words (suc k) [] len = absurd (omega arith)

-- The number of words of the frame.
frame_words :
    (input : List ℕ)
    → length (frame (pad_count (length input)) input) ≡ 4 * ((length input + 4) / 4)
frame_words input = omega (arith, length-frame (pad_count (length input)) input)

-- Decoding an encoded list of bytes, of any length, gives the list back.
pub decode-encode : (input : List ℕ) → All IsByte input → decode (encode input) ≡ ok input
unfolding decode encode
decode-encode input h =
    let pad = pad_count (length input) in
    let words = (length input + 4) / 4 in
    let len = length-encode_words words (frame pad input) (frame_words input) in
    let size : (length (encode_words (frame pad input)) ≡ 5 * words) = len in
    let raw =
      decode_words-encode_words words (frame pad input) (frame_words input)
        (frame-IsByte pad input (omega arith) h) in
    rw (size, raw) (ground (arith, unframe-frame pad input))

-- The encoding of n bytes has five characters for each four bytes of the frame, which is the pad
-- count, the n bytes and the padding: 5 * ⌈(n + 1) / 4⌉ characters.
pub length-encode : (input : List ℕ) → length (encode input) ≡ 5 * ((length input + 4) / 4)
unfolding encode
length-encode input = length-encode_words ((length input + 4) / 4) _ (frame_words input)
