-- ===== src/Proxy/Connection.antt =====
-- Which names a `Connection` field lists (connectionNamedHeaders of internal/server/proxy.go).
use bouncer.Base.{
  ◌≡◌, ◌≢◌, ◌⊎◌, inl, inr, refl, sym, ap, ◌∙◌, subst, true, List, [], ◌∷◌, ◌++◌, arith, Among,
  Among-append_left, Among-append_right, Str, bytes, str_eq, str_eq_iff, split_on, Bool-cases,
  true-ne-false,
}
use bouncer.Proxy.Headers.{
  Fields, canonical_key, trim_space, values, is_one_of, named_in, named_in_all,
  connection_named_headers,
}

-- A part of a `Connection` value of the client, between commas and without the space around it, is
-- the name in canonical form.
abbrev pub ConnectionNames : Fields → Str → Type 0
ConnectionNames client name =
    (v : Str) × (part : Str) × Among v (values (bytes "Connection") client)
    × Among part (split_on b',' v)
    × (canonical_key (trim_space part) ≡ name)
    × (name ≢ [])

Among-append-inv {ℓ} :
    {A : Type ℓ} (a : A) (xs ys : List A) → Among a (xs ++ ys) → Among a xs ⊎ Among a ys
Among-append-inv a [] ys h = inr h
Among-append-inv a (x ∷ xs) ys (inl e) = inl (inl e)
Among-append-inv a (x ∷ xs) ys (inr h) = elim (Among-append-inv a xs ys h) [
  | inl b ↦ inl (inr b)
  | inr b ↦ inr b
]

pub is_one_of-Among : (s : Str) (xs : List Str) → is_one_of s xs ≡ true → Among s xs
unfolding is_one_of
is_one_of-Among s [] h = absurd (true-ne-false (sym h))
is_one_of-Among s (x ∷ xs) h = elim (Bool-cases (str_eq x s)) [
  | inl e ↦ inl ((str_eq_iff x s).0 e)
  | inr e ↦ inr (is_one_of-Among s xs (rw (e, is_one_of) at h))
]

pub Among-is_one_of : (s : Str) (xs : List Str) → Among s xs → is_one_of s xs ≡ true
unfolding is_one_of
Among-is_one_of s [] h = elim h [ ]
Among-is_one_of s (x ∷ xs) (inl e) = ground (arith, str_eq_iff x s)
Among-is_one_of s (x ∷ xs) (inr h) = ground (arith, Among-is_one_of s xs h)

named_in-Among :
    (parts : List Str) (name : Str)
    → Among name (named_in parts)
    → (part : Str) × Among part parts × (canonical_key (trim_space part) ≡ name) × (name ≢ [])
unfolding named_in
named_in-Among [] name h = elim h [ ]
named_in-Among (p ∷ parts) name h = elim (Bool-cases (str_eq (canonical_key (trim_space p)) [])) [
  | inl e ↦
      let (part, a, k, n) = named_in-Among parts name (rw (e, named_in) at h) in (part, inr a, k, n)
  | inr e ↦
      let split : (canonical_key (trim_space p) ≡ name) ⊎ Among name (named_in parts) =
        rw (e, named_in) at h in
      elim split [
        | inl k ↦ (p, inl refl, k, λ z. true-ne-false (sym ((str_eq_iff _ []).1 (k ∙ z)) ∙ e))
        | inr a ↦ let (part, b, k, n) = named_in-Among parts name a in (part, inr b, k, n)
      ]
]

Among-named_in :
    (parts : List Str) (name part : Str)
    → Among part parts
    → canonical_key (trim_space part) ≡ name
    → name ≢ []
    → Among name (named_in parts)
unfolding named_in
Among-named_in [] name part h k n = elim h [ ]
Among-named_in (p ∷ parts) name part (inl e) k n =
    elim (Bool-cases (str_eq (canonical_key (trim_space p)) [])) [
      | inl z ↦
          absurd (n (sym (ap (λ x. canonical_key (trim_space x)) e ∙ k) ∙ (str_eq_iff _ []).0 z))
      | inr z ↦ rw (z, named_in) (inl (ap (λ x. canonical_key (trim_space x)) e ∙ k))
    ]
Among-named_in (p ∷ parts) name part (inr h) k n =
    elim (Bool-cases (str_eq (canonical_key (trim_space p)) [])) [
      | inl z ↦ rw (z, named_in) (Among-named_in parts name part h k n)
      | inr z ↦ rw (z, named_in) (inr (Among-named_in parts name part h k n))
    ]

named_in_all-Among :
    (vs : List Str) (name : Str)
    → Among name (named_in_all vs)
    → (v : Str) × (part : Str) × Among v vs
      × Among part (split_on b',' v)
      × (canonical_key (trim_space part) ≡ name)
      × (name ≢ [])
unfolding named_in_all
named_in_all-Among [] name h = elim h [ ]
named_in_all-Among (v ∷ vs) name h =
    elim (Among-append-inv name (named_in (split_on b',' v)) (named_in_all vs) h) [
      | inl a ↦ let (part, b, k, n) = named_in-Among _ name a in (v, part, inl refl, b, k, n)
      | inr a ↦
          let (u, part, i, b, k, n) = named_in_all-Among vs name a in (u, part, inr i, b, k, n)
    ]

Among-named_in_all :
    (vs : List Str) (name v part : Str)
    → Among v vs
    → Among part (split_on b',' v)
    → canonical_key (trim_space part) ≡ name
    → name ≢ []
    → Among name (named_in_all vs)
unfolding named_in_all
Among-named_in_all [] name v part i b k n = elim i [ ]
Among-named_in_all (u ∷ vs) name v part (inl e) b k n =
    Among-append_left name (named_in (split_on b',' u)) (named_in_all vs)
      (Among-named_in _ name part (subst (λ x. Among part (split_on b',' x)) (sym e) b) k n)
Among-named_in_all (u ∷ vs) name v part (inr i) b k n =
    Among-append_right name (named_in (split_on b',' u)) (named_in_all vs)
      (Among-named_in_all vs name v part i b k n)

pub connection-names :
    (client : Fields) (name : Str)
    → is_one_of name (connection_named_headers client) ≡ true
    → ConnectionNames client name
unfolding connection_named_headers
connection-names client name h =
    let (v, part, i, b, k, n) =
      named_in_all-Among (values (bytes "Connection") client) name (is_one_of-Among name _ h) in
    (v, part, i, b, k, n)

pub names-connection :
    (client : Fields) (name : Str)
    → ConnectionNames client name
    → is_one_of name (connection_named_headers client) ≡ true
unfolding connection_named_headers
names-connection client name (v, part, i, b, k, n) =
    Among-is_one_of name _
      (Among-named_in_all (values (bytes "Connection") client) name v part i b k n)
