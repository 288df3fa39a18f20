-- ===== src/Template/Parsing.antt =====
-- The template parser accepts exactly the well-formed templates.
use bouncer.Base.{
  ◌≡◌, ◌≢◌, ◌↔◌, refl, ap, sym, ◌∙◌, List, [], ◌∷◌, map, arith, All, Str, to_upper, ok,
}
use bouncer.Template.Segments.{render, IsWellFormed}
use bouncer.UrlPath.{split_path}
use bouncer.Template.Matching.{HasDistinctParams}
use bouncer.Template.{PathSeg, PathTemplate, is_seen, parse_segments, parse_path_template}
use bouncer.Template.Loop.{
  IsUnseen, parse_segments-IsParse, parse_segments_of_rules, is_empty-false, is_empty-ne-nil,
}

split_path-nil : split_path [] ≡ []
unfolding split_path
split_path-nil = refl

parse_path_template-eq :
    (method path : Str) (segs : List PathSeg)
    → method ≢ []
    → split_path path ≢ []
    → parse_segments [] (split_path path) ≡ ok segs
    → parse_path_template method path ≡ ok (record { method = to_upper method; segs = segs })
unfolding parse_path_template
parse_path_template-eq method path segs m s h =
    let p : path ≢ [] = λ e. s (ap split_path e ∙ split_path-nil) in
    rw (is_empty-false method m, is_empty-false path p, is_empty-false (split_path path) s, h)

parse_path_template-inv :
    (method path : Str) (t : PathTemplate)
    → parse_path_template method path ≡ ok t
    → (method ≢ [])
      × (split_path path ≢ [])
      × (t.method ≡ to_upper method)
      × (parse_segments [] (split_path path) ≡ ok t.segs)
unfolding parse_path_template
parse_path_template-inv method path t h =
    ground (arith, is_empty-ne-nil method, is_empty-ne-nil (split_path path))

IsUnseen-nil : (rules : List PathSeg) → IsUnseen [] rules
unfolding is_seen
IsUnseen-nil [] = tt
IsUnseen-nil (rule ∷ rules) = ((λ _. refl), IsUnseen-nil rules)

map-ne-nil : (rules : List PathSeg) → rules ≢ [] → map render rules ≢ []
map-ne-nil [] h e = h refl
map-ne-nil (rule ∷ rules) h e = cc

-- Parsing gives a template exactly if the method is not empty and the template has at least one rule,
-- the upper-case method, and rules that render to the segments that the path is split into: each rule
-- is `{identifier}` or a literal without braces, and no parameter name occurs twice.
pub parse_path_template_iff :
    (method path : Str) (t : PathTemplate)
    → (parse_path_template method path ≡ ok t) ↔ (
        (method ≢ [])
        × (t.segs ≢ [])
        × (t.method ≡ to_upper method)
        × (map render t.segs ≡ split_path path)
        × All IsWellFormed t.segs
        × HasDistinctParams t.segs)
parse_path_template_iff method path t = (
  (λ h.
      let (m, s, upper, parsed) = parse_path_template-inv method path t h in
      let (texts, w, d, _) = parse_segments-IsParse (split_path path) [] t.segs parsed in
      (m, (λ e. s (sym texts ∙ ap (map render) e)), upper, texts, w, d)),
  (λ (m, n, upper, texts, w, d).
      let parsed : parse_segments [] (split_path path) ≡ ok t.segs =
        rw (← texts) (parse_segments_of_rules t.segs [] w d (IsUnseen-nil t.segs)) in
      cc (
        upper,
        parse_path_template-eq method path t.segs m (λ e. map-ne-nil t.segs n (texts ∙ e)) parsed,
      )),
)
