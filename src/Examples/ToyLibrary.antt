-- ===== src/Examples/ToyLibrary.antt =====
-- Concrete functions in place of what internal/auth/auth.go calls, which have the laws of those
-- packages. Nothing of them is secure: a sealed text shows its key, and tokens carry no signature.
use bouncer.Base.{
  ℕ, zero, suc, ◌+◌, ◌≡◌, ◌≢◌, refl, sym, ap, ◌∙◌, Bool, true, false, Option, none, some, List, [],
  ◌∷◌, ◌++◌, arith, if◌then◌else◌, length, take, drop, replicate, All, All-append, Str, bytes,
  str_eq, str_eq_iff, Outcome, ok, err, ◌>>=◌, subst, ok-injective,
}
use bouncer.Base.Int.{ℤ, pos, negsuc}
use bouncer.Z85.RoundTrip.{IsByte}
use bouncer.Auth.Records.{JwtClaims}
use bouncer.Auth.Library.{Method, ed25519, other_method}
use bouncer.Auth.Sealed.{take-append, drop-append}

-- A list of numbers in the bytes 0 and 1.
abbrev pub unary : Str → Str
unary [] = []
unary (n ∷ s) = replicate n 1 ++ (0 ∷ unary s)

abbrev pub count_up : ℕ → Str → Str
count_up n [] = []
count_up n (zero ∷ s) = n ∷ count_up 0 s
count_up n (suc _ ∷ s) = count_up (n + 1) s

count_up-replicate :
    (n m : ℕ) (s : Str) → count_up m (replicate n 1 ++ (0 ∷ s)) ≡ (m + n) ∷ count_up 0 s
count_up-replicate zero m s = ap (λ k. k ∷ count_up 0 s) (omega arith)
count_up-replicate (suc n) m s =
    count_up-replicate n (m + 1) s ∙ ap (λ k. k ∷ count_up 0 s) (omega arith)

count_up-unary : (s : Str) → count_up 0 (unary s) ≡ s
count_up-unary [] = refl
count_up-unary (n ∷ s) =
    count_up-replicate n 0 (unary s)
    ∙ ap (λ k. k ∷ count_up 0 (unary s)) (omega arith)
    ∙ ap (λ t. n ∷ t) (count_up-unary s)

ones-IsByte : (n : ℕ) → All IsByte (replicate n 1)
ones-IsByte zero = tt
ones-IsByte (suc n) = (omega arith, ones-IsByte n)

pub unary-IsByte : (s : Str) → All IsByte (unary s)
unary-IsByte [] = tt
unary-IsByte (n ∷ s) =
    All-append IsByte (replicate n 1) (0 ∷ unary s) (ones-IsByte n) (omega arith, unary-IsByte s)

-- A text with its length before it.
abbrev pub framed : Str → Str → Str
framed s rest = length s ∷ (s ++ rest)

unfoldable pub unframed : Str → Outcome Str (Str × Str)
unframed [] = err (bytes "short")
unframed (n ∷ s) = ok (take n s, drop n s)

pub unframed-framed : (s rest : Str) → unframed (framed s rest) ≡ ok (s, rest)
unfolding unframed
unframed-framed s rest = rw (take-append s rest, drop-append s rest) refl

abbrev pub open_sealed : Str → Str × Str → Outcome Str Str
open_sealed key (k, text) = if str_eq k key then ok text else err (bytes "authentication failed")

abbrev pub toy_seal : Str → Str → Str → Str
toy_seal key nonce text = unary (framed key text)

abbrev pub toy_unseal : Str → Str → Str → Outcome Str Str
toy_unseal key nonce sealed = unframed (count_up 0 sealed) >>= open_sealed key

pub toy_unseal-seal :
    (key other nonce text : Str)
    → toy_unseal other nonce (toy_seal key nonce text) ≡ open_sealed other (key, text)
toy_unseal-seal key other nonce text =
    ap (λ s. unframed s >>= open_sealed other) (count_up-unary (framed key text))
    ∙ ap (λ o. o >>= open_sealed other) (unframed-framed key text)

pub unseal-other :
    (key other nonce text : Str)
    → other ≢ key
    → (e : Str) × (toy_unseal other nonce (toy_seal key nonce text) ≡ err e)
unseal-other key other nonce text h = (
  bytes "authentication failed",
  toy_unseal-seal key other nonce text ∙ ground (arith, str_eq_iff key other),
)

-- Numbers in two words, with a third kind for one that is absent.
abbrev pub int_words : ℤ → Str → Str
int_words (pos n) rest = 0 ∷ n ∷ rest
int_words (negsuc n) rest = 1 ∷ n ∷ rest

abbrev pub date_words : Option ℤ → Str → Str
date_words none rest = 2 ∷ 0 ∷ rest
date_words (some z) rest = int_words z rest

abbrev pub read_date : Str → Outcome Str (Option ℤ × Str)
read_date (zero ∷ n ∷ rest) = ok (some (pos n), rest)
read_date (suc zero ∷ n ∷ rest) = ok (some (negsuc n), rest)
read_date (suc (suc k) ∷ n ∷ rest) = ok (none, rest)
read_date _ = err (bytes "short")

read_date-words : (d : Option ℤ) (rest : Str) → read_date (date_words d rest) ≡ ok (d, rest)
read_date-words none rest = refl
read_date-words (some (pos n)) rest = refl
read_date-words (some (negsuc n)) rest = refl

abbrev pub flag_word : Bool → ℕ
flag_word true = 1
flag_word false = 0

abbrev pub read_flag : Str → Bool
read_flag (zero ∷ _) = false
read_flag _ = true

read_flag-word : (b : Bool) (s : Str) → read_flag (flag_word b ∷ s) ≡ b
read_flag-word true s = refl
read_flag-word false s = refl

-- The claims in order, but for what they are given here; only those of one audience and with the
-- usual dates are signed.
abbrev pub write_claims : JwtClaims → Str → ℤ → ℤ → Str
write_claims c aud iat nbf = framed c.registered.issuer (
    framed aud (
      framed c.registered.subject (
        date_words (some iat) (
          date_words (some nbf) (
            date_words c.registered.expires_at
              (framed c.typ (framed c.enc (flag_word c.admin ∷ []))))))))

abbrev pub write_if : JwtClaims → List Str → Option ℤ → Option ℤ → Outcome Str Str
write_if c (aud ∷ []) (some iat) (some nbf) = ok (write_claims c aud iat nbf)
write_if c _ _ _ = err (bytes "not signed")

abbrev pub toy_sign : Str → JwtClaims → Outcome Str Str
toy_sign key c = write_if c c.registered.audience c.registered.issued_at c.registered.not_before

abbrev pub read_claims : Str → Outcome Str JwtClaims
read_claims token = do
  (iss, r0) ← unframed token
  (aud, r1) ← unframed r0
  (sub, r2) ← unframed r1
  (iat, r3) ← read_date r2
  (nbf, r4) ← read_date r3
  (exp, r5) ← read_date r4
  (typ, r6) ← unframed r5
  (enc, r7) ← unframed r6
  ok (record {
    registered = record {
      issuer = iss;
      audience = aud ∷ [];
      subject = sub;
      issued_at = iat;
      not_before = nbf;
      expires_at = exp;
    };
    typ = typ;
    enc = enc;
    admin = read_flag r7;
  })

abbrev pub with_dates : JwtClaims → List Str → Option ℤ → Option ℤ → JwtClaims
with_dates c aud iat nbf = record c {
  registered = record c.registered { audience = aud; issued_at = iat; not_before = nbf };
}

read-write :
    (c : JwtClaims) (aud : Str) (iat nbf : ℤ)
    → read_claims (write_claims c aud iat nbf) ≡ ok (with_dates c (aud ∷ []) (some iat) (some nbf))
read-write c aud iat nbf =
    let tail : Str = flag_word c.admin ∷ [] in
    let enc : Str = framed c.enc tail in
    let typ : Str = framed c.typ enc in
    let exp : Str = date_words c.registered.expires_at typ in
    let begun : Str = date_words (some nbf) exp in
    let issued : Str = date_words (some iat) begun in
    let subject : Str = framed c.registered.subject issued in
    rw
      (
        unframed-framed c.registered.issuer (framed aud subject),
        unframed-framed aud subject,
        unframed-framed c.registered.subject issued,
        read_date-words (some iat) begun,
        read_date-words (some nbf) exp,
        read_date-words c.registered.expires_at typ,
        unframed-framed c.typ enc,
        unframed-framed c.enc tail,
        read_flag-word c.admin [],
      )
      refl

read-write_if :
    (c : JwtClaims) (aud : List Str) (iat nbf : Option ℤ) (token : Str)
    → write_if c aud iat nbf ≡ ok token
    → read_claims token ≡ ok (with_dates c aud iat nbf)
read-write_if c (aud ∷ []) (some iat) (some nbf) token h =
    subst (λ t. read_claims t ≡ ok (with_dates c (aud ∷ []) (some iat) (some nbf))) (ok-injective h)
      (read-write c aud iat nbf)
read-write_if c [] iat nbf token h = cc
read-write_if c (aud ∷ x ∷ auds) iat nbf token h = cc
read-write_if c (aud ∷ []) none nbf token h = cc
read-write_if c (aud ∷ []) (some iat) none token h = cc

pub read-sign :
    (key : Str) (c : JwtClaims) (token : Str) → toy_sign key c ≡ ok token → read_claims token ≡ ok c
read-sign key c token h =
    read-write_if c c.registered.audience c.registered.issued_at c.registered.not_before token h

abbrev pub toy_method : Str → Method
toy_method [] = other_method (bytes "none")
toy_method (_ ∷ _) = ed25519

written-method :
    (c : JwtClaims) (aud : List Str) (iat nbf : Option ℤ) (token : Str)
    → write_if c aud iat nbf ≡ ok token
    → toy_method token ≡ ed25519
written-method c (aud ∷ []) (some iat) (some nbf) token h = ap toy_method (sym (ok-injective h))
written-method c [] iat nbf token h = cc
written-method c (aud ∷ x ∷ auds) iat nbf token h = cc
written-method c (aud ∷ []) none nbf token h = cc
written-method c (aud ∷ []) (some iat) none token h = cc

pub sign-method :
    (key : Str) (c : JwtClaims) (token : Str)
    → toy_sign key c ≡ ok token
    → toy_method token ≡ ed25519
sign-method key c token h =
    written-method c c.registered.audience c.registered.issued_at c.registered.not_before token h
