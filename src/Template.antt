-- ===== src/Template.antt =====
-- Path templates (internal/runtime/compiled/path.go): `PathTemplate`, its parser and its matcher.
pub mod Segments
pub mod Loop
pub mod Parsing
pub mod Matching
use mathlib.Core.List.{reverse}
use bouncer.Base.{
  ℕ, zero, suc, ◌-◌, ◌<◌, ◌≡◌, Bool, true, false, not, ◌&&◌, ◌||◌, Option, none, some, List, [],
  ◌∷◌, ◌++◌, leb, ltb, ◌==◌, if◌then◌else◌, length, Str, str_eq, contains_byte, to_upper, Outcome,
  ok, err, ◌>>=◌, ◌>>◌, guard, take, drop, get_elem?,
}
use bouncer.Base.Dict.{Dict, insert}
use bouncer.Messages.{Request}
use bouncer.UrlPath.{split_path}

-- `param` is empty for a literal segment, and `literal` for a parameter.
pub record PathSeg : Type 0 where
  pub literal : Str
  pub param : Str

pub record PathTemplate : Type 0 where
  pub method : Str
  pub segs : List PathSeg

pub data TemplateError : Type 0 where
  method_empty path_empty no_segments unmatched_brace nested_brace invalid_param : TemplateError
  duplicate_param : Str → TemplateError

is_letter : ℕ → Bool
is_letter c = c == b'_' || leb b'a' c && leb c b'z' || leb b'A' c && leb c b'Z'

is_digit : ℕ → Bool
is_digit c = leb b'0' c && leb c b'9'

-- The loop of `isIdentifier`, from the second byte on.
rest_ok : Str → Bool
rest_ok [] = true
rest_ok (c ∷ s) = (is_letter c || is_digit c) && rest_ok s

unfoldable pub is_identifier : Str → Bool
unfolding is_letter is_digit rest_ok
is_identifier [] = false
is_identifier (c ∷ s) = is_letter c && rest_ok s

-- `seg[i] == c`, where `i` is in range
abbrev pub byte_at : Str → ℕ → ℕ → Bool
byte_at s i c = elim (get_elem? s i) [ none ↦ false | some x ↦ x == c ]

-- Go's `(name, isParam)`.
unfoldable pub parse_segment : Str → Outcome TemplateError (Str × Bool)
parse_segment seg =
    let body = drop 1 (take (length seg - 1) seg) in
    if not (contains_byte b'{' seg) && not (contains_byte b'}' seg)
    then ok ([], false)
    else if ltb (length seg) 2
        || not (byte_at seg 0 b'{')
        || not (byte_at seg (length seg - 1) b'}')
    then err unmatched_brace
    else if contains_byte b'{' body || contains_byte b'}' body
    then err nested_brace
    else if not (is_identifier body)
    then err invalid_param
    else ok (body, true)

-- Membership in the `seen` set.
unfoldable pub is_seen : Str → List Str → Bool
unfolding str_eq
is_seen name [] = false
is_seen name (s ∷ seen) = str_eq s name || is_seen name seen

add_segment : List Str → Str → Str × Bool → Outcome TemplateError (PathSeg × List Str)
unfolding is_seen
add_segment seen raw (name, true) =
    if is_seen name seen
    then err (duplicate_param name)
    else ok (record { literal = []; param = name }, name ∷ seen)
add_segment seen raw (name, false) = ok (record { literal = raw; param = [] }, seen)

-- The loop of `ParsePathTemplate` over the raw segments.
unfoldable pub parse_segments : List Str → List Str → Outcome TemplateError (List PathSeg)
unfolding add_segment parse_segment
parse_segments seen [] = ok []
parse_segments seen (raw ∷ raws) = do
  parsed ← parse_segment raw
  (seg, seen') ← add_segment seen raw parsed
  segs ← parse_segments seen' raws
  ok (seg ∷ segs)

abbrev pub is_empty {ℓ} : {A : Type ℓ} → List A → Bool
is_empty [] = true
is_empty (_ ∷ _) = false

unfoldable pub parse_path_template : Str → Str → Outcome TemplateError PathTemplate
parse_path_template method path = do
  guard (not (is_empty method)) method_empty
  guard (not (is_empty path)) path_empty
  let raws = split_path path
  guard (not (is_empty raws)) no_segments
  segs ← parse_segments [] raws
  ok (record { method = to_upper method; segs = segs })

-- The loop of `Match`; the lengths are equal there, so the second clause is not reached.
match_segs : List PathSeg → List Str → Dict Str → Option (Dict Str)
unfolding insert str_eq
match_segs [] segs params = some params
match_segs (rule ∷ rules) [] params = none
match_segs (rule ∷ rules) (seg ∷ segs) params =
    let captured = match_segs rules segs (insert rule.param seg params) in
    let same = match_segs rules segs params in
    if not (is_empty rule.param) then captured else if str_eq rule.literal seg then same else none

-- `none` is Go's `(nil, false)`; the nil map of a template with no parameter is the empty one.
unfoldable pub match : {B : Type 0} → PathTemplate → Request B → Option (Dict Str)
unfolding match_segs
match t req =
    if not (str_eq req.method t.method)
    then none
    else if not (length req.path_segments == length t.segs)
    then none
    else match_segs t.segs req.path_segments []
