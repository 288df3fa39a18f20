-- ===== src/Template/Segments.antt =====
-- Parsing one segment: which texts are parameters, and which are literals.
use bouncer.Base.{
  ℕ, suc, ◌-◌, ◌≡◌, ◌⊎◌, refl, ap, true, false, [], ◌∷◌, ◌++◌, arith, if◌then◌else◌, length,
  length-append, take, drop, Str, contains_byte, ok,
}
use bouncer.Template.{
  PathSeg, is_letter, is_digit, rest_ok, is_identifier, byte_at, parse_segment, is_empty,
}

-- The text of a rule: `{name}` for a parameter, else the literal itself.
abbrev pub render : PathSeg → Str
render rule = if is_empty rule.param then rule.literal else b'{' ∷ (rule.param ++ (b'}' ∷ []))

-- `{identifier}`, or a literal with no brace.
abbrev pub IsWellFormed : PathSeg → Type 0
IsWellFormed rule =
    ((rule.literal ≡ []) × (is_identifier rule.param ≡ true))
    ⊎ ((rule.param ≡ [])
        × (contains_byte b'{' rule.literal ≡ false)
        × (contains_byte b'}' rule.literal ≡ false))

-- The last byte, split off.
pub take-append-last :
    (c : ℕ) (s : Str) → byte_at s (length s - 1) c ≡ true → s ≡ take (length s - 1) s ++ (c ∷ [])
take-append-last c [] h = cc
take-append-last c (x ∷ []) h = ground arith
take-append-last c (x ∷ y ∷ s) h =
    let len : length (x ∷ y ∷ s) - 1 ≡ suc (length (y ∷ s) - 1) = omega arith in
    let tail : byte_at (y ∷ s) (length (y ∷ s) - 1) c ≡ true = rw len at h in
    rw len (ap (λ t. x ∷ t) (take-append-last c (y ∷ s) tail))

drop-take-cons :
    (x y : ℕ) (s : Str)
    → drop 1 (take (length (x ∷ y ∷ s) - 1) (x ∷ y ∷ s)) ≡ take (length (y ∷ s) - 1) (y ∷ s)
drop-take-cons x y s =
    let len : length (x ∷ y ∷ s) - 1 ≡ suc (length (y ∷ s) - 1) = omega arith in rw len

byte_at-last-cons :
    (x y : ℕ) (s : Str) (c : ℕ)
    → byte_at (x ∷ y ∷ s) (length (x ∷ y ∷ s) - 1) c ≡ byte_at (y ∷ s) (length (y ∷ s) - 1) c
byte_at-last-cons x y s c =
    let len : length (x ∷ y ∷ s) - 1 ≡ suc (length (y ∷ s) - 1) = omega arith in rw len

pub parse_segment-param :
    (seg name : Str)
    → parse_segment seg ≡ ok (name, true)
    → (seg ≡ b'{' ∷ (name ++ (b'}' ∷ []))) × (is_identifier name ≡ true)
unfolding parse_segment
parse_segment-param [] name h = ground arith
parse_segment-param (x ∷ []) name h = ground arith
parse_segment-param (x ∷ y ∷ s) name h =
    ground
      (arith, drop-take-cons x y s, byte_at-last-cons x y s b'}', take-append-last b'}' (y ∷ s))

pub parse_segment-literal :
    (seg name : Str)
    → parse_segment seg ≡ ok (name, false)
    → (contains_byte b'{' seg ≡ false) × (contains_byte b'}' seg ≡ false)
unfolding parse_segment
parse_segment-literal seg name h = ground arith

-- The other direction: the text of a well-formed rule parses to it.
rest_ok-Lacks :
    (c : ℕ) (s : Str)
    → is_letter c ≡ false
    → is_digit c ≡ false
    → rest_ok s ≡ true
    → contains_byte c s ≡ false
unfolding rest_ok contains_byte
rest_ok-Lacks c [] l d h = refl
rest_ok-Lacks c (x ∷ s) l d h = ground (arith, rest_ok-Lacks c s l d, ap is_letter, ap is_digit)

identifier-contains_byte :
    (c : ℕ) (s : Str)
    → is_letter c ≡ false
    → is_digit c ≡ false
    → is_identifier s ≡ true
    → contains_byte c s ≡ false
unfolding is_identifier contains_byte
identifier-contains_byte c [] l d h = cc
identifier-contains_byte c (x ∷ s) l d h = ground (arith, rest_ok-Lacks c s l d)

take-length-append : (s t : Str) → take (length s) (s ++ t) ≡ s
take-length-append [] t = refl
take-length-append (x ∷ s) t = ap (λ r. x ∷ r) (take-length-append s t)

byte_at-length : (s : Str) (c : ℕ) → byte_at (s ++ (c ∷ [])) (length s) c ≡ true
byte_at-length [] c = ground arith
byte_at-length (x ∷ s) c = byte_at-length s c

abbrev pub braced : Str → Str
braced name = b'{' ∷ (name ++ (b'}' ∷ []))

length-braced : (name : Str) → length (braced name) - 1 ≡ suc (length name)
length-braced name = omega (arith, length-append {0} name (b'}' ∷ []))

pub parse_segment-braced :
    (name : Str) → is_identifier name ≡ true → parse_segment (braced name) ≡ ok (name, true)
unfolding parse_segment
parse_segment-braced name h =
    let lacks_open : contains_byte b'{' name ≡ false =
      identifier-contains_byte b'{' name (unfold is_letter in refl) (unfold is_digit in refl) h in
    let lacks_close : contains_byte b'}' name ≡ false =
      identifier-contains_byte b'}' name (unfold is_letter in refl) (unfold is_digit in refl) h in
    rw
      (
        length-braced name,
        take-length-append name (b'}' ∷ []),
        byte_at-length name b'}',
        lacks_open,
        lacks_close,
        h,
      )
      (unfold contains_byte in ground (arith, length-append name (b'}' ∷ [])))

pub parse_segment-plain :
    (s : Str)
    → contains_byte b'{' s ≡ false
    → contains_byte b'}' s ≡ false
    → parse_segment s ≡ ok ([], false)
unfolding parse_segment
parse_segment-plain s h k = rw (h, k)
