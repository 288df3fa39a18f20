-- ===== src/Template/Matching.antt =====
-- What a template matches, and what it captures.
use bouncer.Base.{
  ℕ, zero, suc, ◌≡◌, ◌≢◌, ◌↔◌, ◌⊎◌, inl, inr, refl, ap, true, false, some, List, [], ◌∷◌, arith,
  ==_iff, length, get_elem?, All, Str, str_eq, str_eq_iff,
}
use bouncer.Base.Dict.{Dict, lookup, insert, lookup-insert}
use bouncer.Messages.{Request}
use bouncer.Template.{PathSeg, PathTemplate, match_segs, match, is_empty}

-- A rule accepts a segment: it is a parameter, or the segment is its literal.
abbrev pub Accepts : PathSeg → Str → Type 0
Accepts rule seg = (rule.param ≢ []) ⊎ (rule.literal ≡ seg)

-- The rules and the segments pair off, and each rule accepts its segment.
abbrev pub Fits : List PathSeg → List Str → Type 0
Fits [] [] = Unit
Fits [] (_ ∷ _) = ⊥
Fits (_ ∷ _) [] = ⊥
Fits (rule ∷ rules) (seg ∷ segs) = Accepts rule seg × Fits rules segs

pub is_empty-cases :
    (s : Str) → ((is_empty s ≡ true) × (s ≡ [])) ⊎ ((is_empty s ≡ false) × (s ≢ []))
is_empty-cases [] = inl (refl, refl)
is_empty-cases (x ∷ s) = inr (refl, λ e. cc)

match_segs-Fits :
    (rules : List PathSeg) (segs : List Str) (params found : Dict Str)
    → length segs ≡ length rules
    → match_segs rules segs params ≡ some found
    → Fits rules segs
unfolding match_segs
match_segs-Fits [] [] params found len h = tt
match_segs-Fits [] (_ ∷ _) params found len h = cc
match_segs-Fits (_ ∷ _) [] params found len h = cc
match_segs-Fits (rule ∷ rules) (seg ∷ segs) params found len h = ground (
  arith,
  is_empty-cases rule.param,
  str_eq_iff rule.literal seg,
  match_segs-Fits rules segs params found,
  match_segs-Fits rules segs (insert rule.param seg params) found,
)

match_segs_of_Fits :
    (rules : List PathSeg) (segs : List Str) (params : Dict Str)
    → Fits rules segs
    → (found : Dict Str) × (match_segs rules segs params ≡ some found)
unfolding match_segs
match_segs_of_Fits [] [] params h = (params, refl)
match_segs_of_Fits [] (_ ∷ _) params h = absurd h
match_segs_of_Fits (_ ∷ _) [] params h = absurd h
match_segs_of_Fits (rule ∷ rules) (seg ∷ segs) params (a, h) = elim (is_empty-cases rule.param) [
  | inl (e, is_nil) ↦
      let literal : str_eq rule.literal seg ≡ true = ground (arith, str_eq_iff rule.literal seg) in
      rw (e, literal) (match_segs_of_Fits rules segs params h)
  | inr (e, _) ↦ rw e (match_segs_of_Fits rules segs (insert rule.param seg params) h)
]

Fits-length :
    (rules : List PathSeg) (segs : List Str) → Fits rules segs → length segs ≡ length rules
Fits-length [] [] h = refl
Fits-length [] (_ ∷ _) h = absurd h
Fits-length (_ ∷ _) [] h = absurd h
Fits-length (rule ∷ rules) (seg ∷ segs) (_, h) = ap suc (Fits-length rules segs h)

-- A template matches exactly the requests with its method whose segments pair off with its rules,
-- each parameter standing for one segment and each literal for itself.
pub match_iff :
    {B : Type 0} (t : PathTemplate) (req : Request B)
    → ((req.method ≡ t.method) × Fits t.segs req.path_segments)
      ↔ ((params : Dict Str) × (match t req ≡ some params))
unfolding match
match_iff t req = (
  (λ (m, fits).
      rw
        (
          (str_eq_iff req.method t.method).1 m,
          (==_iff (length req.path_segments) (length t.segs)).1
              (Fits-length t.segs req.path_segments fits),
        )
        (match_segs_of_Fits t.segs req.path_segments [] fits)),
  (λ (params, h). matched params h),
)
  where
    matched :
        (params : Dict Str)
        → match t req ≡ some params
        → (req.method ≡ t.method) × Fits t.segs req.path_segments
    matched params h =
        ground (
          arith,
          str_eq_iff req.method t.method,
          match_segs-Fits t.segs req.path_segments [] params,
        )

-- No rule captures under the name.
abbrev pub IsFresh : Str → List PathSeg → Type 0
IsFresh name rules = All (λ rule. rule.param ≢ name) rules

-- Each parameter name occurs once.
abbrev pub HasDistinctParams : List PathSeg → Type 0
HasDistinctParams [] = Unit
HasDistinctParams (rule ∷ rules) =
    (rule.param ≢ [] → IsFresh rule.param rules) × HasDistinctParams rules

lookup-insert_ne :
    (k j : Str) (v : Str) (m : Dict Str) → k ≢ j → lookup j (insert k v m) ≡ lookup j m
lookup-insert_ne k j v m h = ground (arith, lookup-insert k j v m, str_eq_iff k j)

lookup-insert_self : (k v : Str) (m : Dict Str) → lookup k (insert k v m) ≡ some v
lookup-insert_self k v m = ground (arith, lookup-insert k k v m, str_eq_iff k k)

lookup-match_segs_fresh :
    (name : Str) (rules : List PathSeg) (segs : List Str) (params found : Dict Str)
    → IsFresh name rules
    → match_segs rules segs params ≡ some found
    → lookup name found ≡ lookup name params
unfolding match_segs
lookup-match_segs_fresh name [] segs params found f h = cc
lookup-match_segs_fresh name (rule ∷ rules) [] params found f h = cc
lookup-match_segs_fresh name (rule ∷ rules) (seg ∷ segs) params found f h = ground (
  arith,
  lookup-match_segs_fresh name rules segs params found f.1,
  lookup-match_segs_fresh name rules segs (insert rule.param seg params) found f.1,
  lookup-insert_ne rule.param name seg params f.0,
)

lookup-match_segs :
    (rules : List PathSeg) (segs : List Str) (params found : Dict Str) (i : ℕ) (rule : PathSeg)
    → HasDistinctParams rules
    → match_segs rules segs params ≡ some found
    → get_elem? rules i ≡ some rule
    → rule.param ≢ []
    → lookup rule.param found ≡ get_elem? segs i
unfolding match_segs
lookup-match_segs [] segs params found i rule d h g n = cc
lookup-match_segs (r ∷ rules) [] params found i rule d h g n = cc
lookup-match_segs (r ∷ rules) (seg ∷ segs) params found zero rule d h g n = ground (
  arith,
  is_empty-cases r.param,
  lookup-match_segs_fresh r.param rules segs (insert r.param seg params) found,
  lookup-insert_self r.param seg params,
)
lookup-match_segs (r ∷ rules) (seg ∷ segs) params found (suc i) rule d h g n = ground (
  arith,
  lookup-match_segs rules segs params found i rule,
  lookup-match_segs rules segs (insert r.param seg params) found i rule,
)

-- In a template whose parameter names are distinct, what a match captures under a parameter's
-- name is the request's segment at that parameter's place.
pub match_captures :
    {B : Type 0} (t : PathTemplate) (req : Request B) (params : Dict Str) (i : ℕ) (rule : PathSeg)
    → HasDistinctParams t.segs
    → match t req ≡ some params
    → get_elem? t.segs i ≡ some rule
    → rule.param ≢ []
    → lookup rule.param params ≡ get_elem? req.path_segments i
unfolding match
match_captures t req params i rule d h g n =
    ground (arith, lookup-match_segs t.segs req.path_segments [] params i rule)
