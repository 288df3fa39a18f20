-- ===== src/Examples/ToyLaws.antt =====
-- The concrete library behind the examples of internal/auth/auth.go, and that it has the laws.
use bouncer.Base.{
  List, [], ◌∷◌, map, ◌≡◌, refl, sym, ap, ◌∙◌, Bool, true, ◌&&◌, Option, none, some, arith, ◌==◌,
  ==_iff, if◌then◌else◌, length, replicate, length-replicate, Str, bytes, str_eq, str_eq_iff,
  str_eq_refl, Outcome, ok, ◌>>=◌, subst, ok-injective, not, ◌↔◌, guard, ◌>>◌, >>=-eq-ok,
  guard-eq-ok,
}
use bouncer.Base.Int.{ℤ, pos, ◌+ℤ◌, ◌-ℤ◌, +ℤ-parts, le_int, lt_int}
use bouncer.Auth.Records.{RegisteredClaims, JwtClaims, second}
use bouncer.Auth.Library.{
  Library, Laws, Method, ed25519, ParserOptions, Parsed, Admits, claims_as_read, is_member,
  IsUnexpired, HasBegun,
}
use bouncer.Examples.ToyLibrary.{
  toy_seal, toy_method, toy_unseal, toy_sign, read_claims, toy_unseal-seal, unseal-other,
  unary-IsByte, read-sign, sign-method, framed,
}

abbrev before : ParserOptions → Option ℤ → ℤ → Bool
before o none now = not o.expiration_required
before o (some exp) now = lt_int now (exp +ℤ o.leeway)

abbrev since : ParserOptions → Option ℤ → ℤ → Bool
since o none now = true
since o (some nbf) now = le_int (nbf -ℤ o.leeway) now

abbrev is_admitted : ParserOptions → RegisteredClaims → ℤ → Bool
is_admitted o c now =
    (before o c.expires_at now && since o c.not_before now)
    && (str_eq c.issuer o.issuer && is_member o.audience c.audience)

before_iff :
    (o : ParserOptions) (d : Option ℤ) (now : ℤ) → (before o d now ≡ true) ↔ IsUnexpired o d now
before_iff o none now = ground arith
before_iff o (some exp) now = ground arith

since_iff : (o : ParserOptions) (d : Option ℤ) (now : ℤ) → (since o d now ≡ true) ↔ HasBegun o d now
since_iff o none now = ((λ h. tt), (λ h. refl))
since_iff o (some nbf) now = ground arith

abbrev toy_parse : ParserOptions → (Method → Outcome Str Str) → ℤ → Str → Outcome Str Parsed
toy_parse o get_key now token = do
  key ← get_key (toy_method token)
  c ← read_claims token
  guard (is_admitted o c.registered now) (bytes "claims")
  ok (record { claims = c; valid = true })

abbrev pub toy_library : Library
toy_library = record {
  hkdf = λ ikm salt info size. ok (replicate size (length info));
  key_from_seed = λ seed. seed;
  public_key = λ key. key;
  new_aead = λ key. if length key == 32 then none else some (bytes "bad key length");
  nonce_size = 2;
  seal = toy_seal;
  unseal = toy_unseal;
  numeric_date = λ t. t;
  sign = toy_sign;
  parse = toy_parse;
  parse_unverified = λ token. read_claims token >>= λ c. ok c.registered;
  method_of = toy_method;
  to_text = λ s. s;
}

parse-read :
    (o : ParserOptions) (get_key : Method → Outcome Str Str) (now : ℤ) (token : Str) (p : Parsed)
    → toy_parse o get_key now token ≡ ok p
    → (key : Str) × (get_key (toy_method token) ≡ ok key)
      × (read_claims token ≡ ok p.claims)
      × (is_admitted o p.claims.registered now ≡ true)
parse-read o get_key now token p h =
    let (key, k, r0) = >>=-eq-ok (get_key (toy_method token)) _ h in
    let (c, e, r1) = >>=-eq-ok (read_claims token) _ r0 in
    let (u, g, r2) = >>=-eq-ok (guard (is_admitted o c.registered now) (bytes "claims")) _ r1 in
    let same : c ≡ p.claims = ap (λ x. x.claims) (ok-injective r2) in
    (
      key,
      k,
      e ∙ ap ok same,
      subst (λ (x : JwtClaims). is_admitted o x.registered now ≡ true) same
          (guard-eq-ok (is_admitted o c.registered now) (bytes "claims") g),
    )

both : (a b : Bool) → (a && b) ≡ true → (a ≡ true) × (b ≡ true)
both a b h = ground arith

is_admitted_iff :
    (o : ParserOptions) (c : RegisteredClaims) (now : ℤ)
    → (is_admitted o c now ≡ true) ↔ Admits o c now
is_admitted_iff o c now =
    let (b0, b1) = before_iff o c.expires_at now in
    let (s0, s1) = since_iff o c.not_before now in
    let (i0, i1) = str_eq_iff c.issuer o.issuer in
    (
      (λ h.
          let (dates, names) = both _ _ h in
          let (d0, d1) = both _ _ dates in
          let (n0, n1) = both _ _ names in
          record { unexpired = b0 d0; begun = s0 d1; issuer = i0 n0; audience = n1 }),
      (λ a. rw (b1 a.unexpired, s1 a.begun, i1 a.issuer, a.audience) refl),
    )

map-id : (xs : List Str) → map (λ s. s) xs ≡ xs
map-id [] = refl
map-id (x ∷ xs) = ap (λ l. x ∷ l) (map-id xs)

-- Here JSON keeps every string.
as_read : (c : JwtClaims) → claims_as_read toy_library c ≡ c
as_read c =
    ap (λ a. record c { registered = record c.registered { audience = a } })
      (map-id c.registered.audience)

parse-sign :
    (o : ParserOptions) (get_key : Method → Outcome Str Str) (key : Str) (c : JwtClaims)
    (token : Str) (now : ℤ)
    → toy_sign key c ≡ ok token
    → get_key ed25519 ≡ ok key
    → Admits o c.registered now
    → toy_parse o get_key now token ≡ ok (record { claims = c; valid = true })
parse-sign o get_key key c token now s k a =
    rw
      (
        sign-method key c token s,
        k,
        read-sign key c token s,
        (is_admitted_iff o c.registered now).1 a,
      )
      refl

pub toy-Laws : Laws toy_library
toy-Laws = record {
  hkdf-length =
      λ ikm salt info size out h. rw (← (ok-injective h)) (length-replicate size (length info));
  new_aead-length = λ key h. rw ((==_iff (length key) 32).1 h) refl;
  seal-IsByte = λ key nonce text. unary-IsByte (framed key text);
  unseal-seal = λ key nonce text. toy_unseal-seal key key nonce text ∙ rw (str_eq_refl key) refl;
  unseal-seal_ne = λ key other nonce text h. unseal-other key other nonce text h;
  to_text-ascii = λ s h. refl;
  to_text-ne-empty = λ s h. h;
  numeric_date-le = λ t. omega arith;
  numeric_date-lt = λ t. omega (arith, +ℤ-parts t (pos second));
  parse-sign = λ o get_key key c token now s k a.
      parse-sign o get_key key c token now s k
        (subst (λ (x : JwtClaims). Admits o x.registered now) (as_read c) a)
      ∙ ap (λ x. ok (record { claims = x; valid = true })) (sym (as_read c));
  parse-inv = λ o get_key key c token now p s h.
      let (_, _, e, admitted) = parse-read o get_key now token p h in
      let same = ok-injective (sym e ∙ read-sign key c token s) in
      (
        same ∙ sym (as_read c),
        subst (λ (x : JwtClaims). Admits o x.registered now) (sym (as_read c))
            ((is_admitted_iff o c.registered now).0
              (subst (λ (x : JwtClaims). is_admitted o x.registered now ≡ true) same admitted)),
      );
  parse-method = λ o get_key token now p h.
      let (key, k, _, _) = parse-read o get_key now token p h in (key, k);
  parse_unverified-sign = λ key c token s.
      ap (λ o. o >>= λ c. ok c.registered) (read-sign key c token s)
      ∙ ap (λ (x : JwtClaims). ok x.registered) (sym (as_read c));
}
