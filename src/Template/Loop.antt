-- ===== src/Template/Loop.antt =====
-- The loop of the template parser over the segments accepts exactly the well-formed rules.
use bouncer.Base.{
  ◌≡◌, ◌≢◌, ◌↔◌, inl, inr, refl, ap, sym, ◌∙◌, true, false, List, [], ◌∷◌, map, arith, All, Str,
  str_eq_iff, str_eq_refl, subst, ok-injective, Outcome-cases, >>=-eq-ok, ok, err, ◌>>=◌,
  Bool-cases,
}
use bouncer.Template.Segments.{
  render, IsWellFormed, parse_segment-param, parse_segment-literal, braced, parse_segment-braced,
  parse_segment-plain,
}
use bouncer.Template.Matching.{IsFresh, HasDistinctParams}
use bouncer.Template.{
  PathSeg, TemplateError, is_identifier, parse_segment, is_seen, duplicate_param, parse_segments,
  is_empty,
}

-- No parameter of the rules is in the set.
abbrev pub IsUnseen : List Str → List PathSeg → Type 0
IsUnseen seen rules = All (λ rule. rule.param ≢ [] → is_seen rule.param seen ≡ false) rules

IsUnseen-cons :
    (name : Str) (seen : List Str) (rules : List PathSeg)
    → name ≢ []
    → IsUnseen (name ∷ seen) rules ↔ (IsFresh name rules × IsUnseen seen rules)
unfolding is_seen
IsUnseen-cons name seen [] n = (λ _. (tt, tt), λ _. tt)
IsUnseen-cons name seen (rule ∷ rules) n =
    let ih = IsUnseen-cons name seen rules n in
    (
      λ (h, hs). (
        ((λ e. cc (h (λ e'. n (sym e ∙ e')), str_eq_refl rule.param, e)), (ih.0 hs).0),
        ((λ m. ground (arith, h m)), (ih.0 hs).1),
      ),
      λ ((f, fs), (u, us)).
          ((λ m. ground (arith, u m, str_eq_iff name rule.param, f)), ih.1 (fs, us)),
    )

-- What parsing the raw segments after the names in `seen` yields.
abbrev pub IsParse : List Str → List Str → List PathSeg → Type 0
IsParse seen raws segs =
    (map render segs ≡ raws) × All IsWellFormed segs × HasDistinctParams segs × IsUnseen seen segs

identifier-ne-nil : (name : Str) → is_identifier name ≡ true → name ≢ []
unfolding is_identifier
identifier-ne-nil [] h = λ e. cc
identifier-ne-nil (x ∷ s) h = λ e. cc

abbrev param_rule : Str → PathSeg
param_rule name = record { literal = []; param = name }

abbrev literal_rule : Str → PathSeg
literal_rule raw = record { literal = raw; param = [] }

render-param_rule : (name : Str) → name ≢ [] → render (param_rule name) ≡ braced name
render-param_rule [] h = absurd (h refl)
render-param_rule (x ∷ s) h = refl

IsParse-param :
    (name raw : Str) (raws seen : List Str) (rest : List PathSeg)
    → parse_segment raw ≡ ok (name, true)
    → is_seen name seen ≡ false
    → IsParse (name ∷ seen) raws rest
    → IsParse seen (raw ∷ raws) (param_rule name ∷ rest)
IsParse-param name raw raws seen rest p u (m, w, d, unseen) =
    let (text, ident) = parse_segment-param raw name p in
    let n = identifier-ne-nil name ident in
    let (fresh, rest_unseen) = (IsUnseen-cons name seen rest n).0 unseen in
    (
      cc (m, text, render-param_rule name n),
      (inl (refl, ident), w),
      ((λ _. fresh), d),
      ((λ _. u), rest_unseen),
    )

IsParse-literal :
    (name raw : Str) (raws seen : List Str) (rest : List PathSeg)
    → parse_segment raw ≡ ok (name, false)
    → IsParse seen raws rest
    → IsParse seen (raw ∷ raws) (literal_rule raw ∷ rest)
IsParse-literal name raw raws seen rest p (m, w, d, unseen) =
    let (no_open, no_close) = parse_segment-literal raw name p in
    (
      ap (λ r. raw ∷ r) m,
      (inr (refl, no_open, no_close), w),
      ((λ n. absurd (n refl)), d),
      ((λ n. absurd (n refl)), unseen),
    )

parse_segments-param :
    (name raw : Str) (raws seen : List Str)
    → parse_segment raw ≡ ok (name, true)
    → is_seen name seen ≡ false
    → parse_segments seen (raw ∷ raws)
      ≡ (parse_segments (name ∷ seen) raws >>= λ rest. ok (param_rule name ∷ rest))
unfolding parse_segments
parse_segments-param name raw raws seen p u = rw (p, u)

parse_segments-literal :
    (name raw : Str) (raws seen : List Str)
    → parse_segment raw ≡ ok (name, false)
    → parse_segments seen (raw ∷ raws)
      ≡ (parse_segments seen raws >>= λ rest. ok (literal_rule raw ∷ rest))
unfolding parse_segments
parse_segments-literal name raw raws seen p = rw p

parse_segments-duplicate :
    (name raw : Str) (raws seen : List Str)
    → parse_segment raw ≡ ok (name, true)
    → is_seen name seen ≡ true
    → parse_segments seen (raw ∷ raws) ≡ err (duplicate_param name)
unfolding parse_segments
parse_segments-duplicate name raw raws seen p u = rw (p, u)

step_param :
    (name raw : Str) (raws seen : List Str) (segs : List PathSeg)
    → ((rest : List PathSeg)
        → parse_segments (name ∷ seen) raws ≡ ok rest
        → IsParse (name ∷ seen) raws rest)
    → parse_segment raw ≡ ok (name, true)
    → parse_segments seen (raw ∷ raws) ≡ ok segs
    → IsParse seen (raw ∷ raws) segs
step_param name raw raws seen segs ih p h = elim (Bool-cases (is_seen name seen)) [
  | inl dup ↦ cc (parse_segments-duplicate name raw raws seen p dup)
  | inr new ↦
      let (rest, r, e) =
        >>=-eq-ok (parse_segments (name ∷ seen) raws) _
          (sym (parse_segments-param name raw raws seen p new) ∙ h) in
      subst (IsParse seen (raw ∷ raws)) (ok-injective e)
        (IsParse-param name raw raws seen rest p new (ih rest r))
]

step_literal :
    (name raw : Str) (raws seen : List Str) (segs : List PathSeg)
    → ((rest : List PathSeg) → parse_segments seen raws ≡ ok rest → IsParse seen raws rest)
    → parse_segment raw ≡ ok (name, false)
    → parse_segments seen (raw ∷ raws) ≡ ok segs
    → IsParse seen (raw ∷ raws) segs
step_literal name raw raws seen segs ih p h =
    let (rest, r, e) =
      >>=-eq-ok (parse_segments seen raws) _
        (sym (parse_segments-literal name raw raws seen p) ∙ h) in
    subst (IsParse seen (raw ∷ raws)) (ok-injective e)
      (IsParse-literal name raw raws seen rest p (ih rest r))

parse_segments-nil : (seen : List Str) → parse_segments seen [] ≡ ok []
unfolding parse_segments
parse_segments-nil seen = refl

parse_segments-err :
    (raw : Str) (raws seen : List Str) (e : TemplateError)
    → parse_segment raw ≡ err e
    → parse_segments seen (raw ∷ raws) ≡ err e
unfolding parse_segments
parse_segments-err raw raws seen e p = rw p

pub parse_segments-IsParse :
    (raws seen : List Str) (segs : List PathSeg)
    → parse_segments seen raws ≡ ok segs
    → IsParse seen raws segs
parse_segments-IsParse [] seen segs h =
    subst (IsParse seen []) (ok-injective (sym (parse_segments-nil seen) ∙ h)) (refl, tt, tt, tt)
parse_segments-IsParse (raw ∷ raws) seen segs h = elim (Outcome-cases (parse_segment raw)) [
  | inl ((name, true), p) ↦
      step_param name raw raws seen segs (parse_segments-IsParse raws (name ∷ seen)) p h
  | inl ((name, false), p) ↦
      step_literal name raw raws seen segs (parse_segments-IsParse raws seen) p h
  | inr (e, p) ↦ cc (parse_segments-err raw raws seen e p)
]

-- A well-formed rule, by its two shapes.
rule-eq-param : (rule : PathSeg) → rule.literal ≡ [] → rule ≡ param_rule rule.param
rule-eq-param rule e = cc

rule-eq-literal : (rule : PathSeg) → rule.param ≡ [] → rule ≡ literal_rule rule.literal
rule-eq-literal rule e = cc

pub parse_segments_of_rules :
    (segs : List PathSeg) (seen : List Str)
    → All IsWellFormed segs
    → HasDistinctParams segs
    → IsUnseen seen segs
    → parse_segments seen (map render segs) ≡ ok segs
parse_segments_of_rules [] seen w d u = unfold parse_segments in refl
parse_segments_of_rules (rule ∷ segs) seen (inl (l, i), w) (d, ds) (u, us) =
    let n = identifier-ne-nil rule.param i in
    let text : render rule ≡ braced rule.param =
      rw (rule-eq-param rule l) (render-param_rule rule.param n) in
    let rest =
      parse_segments_of_rules segs (rule.param ∷ seen) w ds
        ((IsUnseen-cons rule.param seen segs n).1 (d n, us)) in
    rw
      (
        text,
        parse_segments-param rule.param (braced rule.param) (map render segs) seen
            (parse_segment-braced rule.param i) (u n),
        rest,
      )
      (cc (rule-eq-param rule l))
parse_segments_of_rules (rule ∷ segs) seen (inr (l, no_open, no_close), w) (d, ds) (u, us) =
    let text : render rule ≡ rule.literal = rw (rule-eq-literal rule l) refl in
    let rest = parse_segments_of_rules segs seen w ds us in
    rw
      (
        text,
        parse_segments-literal [] rule.literal (map render segs) seen
            (parse_segment-plain rule.literal no_open no_close),
        rest,
      )
      (cc (rule-eq-literal rule l))

pub is_empty-false {ℓ} : {A : Type ℓ} (l : List A) → l ≢ [] → is_empty l ≡ false
is_empty-false [] h = absurd (h refl)
is_empty-false (x ∷ l) h = refl

pub is_empty-ne-nil {ℓ} : {A : Type ℓ} (l : List A) → is_empty l ≡ false → l ≢ []
is_empty-ne-nil [] h = λ e. cc
is_empty-ne-nil (x ∷ l) h = λ e. cc
