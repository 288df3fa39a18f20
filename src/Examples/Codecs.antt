-- ===== src/Examples/Codecs.antt =====
-- Example runs of the path code (internal/runtime/compiled/path.go) and of the codec
-- (internal/auth/z85/z85.go).
use bouncer.Base.{
  ℕ, ◌≡◌, ◌≢◌, ◌↔◌, refl, some, List, [], ◌∷◌, map, All, Str, bytes, to_upper, ok, arith,
}
use bouncer.Base.Dict.{Dict, lookup}
use bouncer.Messages.{Request}
use bouncer.UrlPath.{split_path, split_escaped_path, join_segments}
use bouncer.UrlPath.RoundTrip.{join_segments_round_trip}
use bouncer.Template.{PathTemplate, parse_path_template, match}
use bouncer.Template.Segments.{render, IsWellFormed}
use bouncer.Template.Matching.{Fits, HasDistinctParams, match_iff, match_captures}
use bouncer.Template.Parsing.{parse_path_template_iff}
use bouncer.Z85.{encode, decode}
use bouncer.Z85.RoundTrip.{decode-encode}

abbrev escaped_path : Str
escaped_path = bytes "/a%2Fb/c"

abbrev escaped_segments : List Str
escaped_segments = bytes "a/b" ∷ bytes "c" ∷ []

escaped_path-splits : split_escaped_path escaped_path ≡ some escaped_segments
unfolding split_escaped_path
escaped_path-splits = refl

join_segments_round_trip_example :
    split_escaped_path (join_segments escaped_segments) ≡ some escaped_segments
join_segments_round_trip_example =
    join_segments_round_trip escaped_path escaped_segments escaped_path-splits

abbrev file_template : PathTemplate
file_template = record {
  method = bytes "GET";
  segs =
      record { literal = bytes "files"; param = [] }
      ∷ record { literal = []; param = bytes "id" }
      ∷ [];
}

parse_path_template_iff_example :
    (parse_path_template (bytes "get") (bytes "/files/{id}") ≡ ok file_template) ↔ (
      (bytes "get" ≢ [])
      × (file_template.segs ≢ [])
      × (file_template.method ≡ to_upper (bytes "get"))
      × (map render file_template.segs ≡ split_path (bytes "/files/{id}"))
      × All IsWellFormed file_template.segs
      × HasDistinctParams file_template.segs)
parse_path_template_iff_example =
    parse_path_template_iff (bytes "get") (bytes "/files/{id}") file_template

abbrev file_request : Request Unit
file_request = record {
  method = bytes "GET";
  path = bytes "/files/7";
  path_segments = bytes "files" ∷ bytes "7" ∷ [];
  query = [];
  body = tt;
}

abbrev file_captures : Dict Str
file_captures = (bytes "id", bytes "7") ∷ []

file_request-match : match file_template file_request ≡ some file_captures
unfolding match
file_request-match = refl

match_iff_example :
    ((file_request.method ≡ file_template.method)
      × Fits file_template.segs file_request.path_segments)
    ↔ ((params : Dict Str) × (match file_template file_request ≡ some params))
match_iff_example = match_iff file_template file_request

file_template-HasDistinctParams : HasDistinctParams file_template.segs
file_template-HasDistinctParams = (λ n. absurd (n refl), (λ n. tt, tt))

match_captures_example : lookup (bytes "id") file_captures ≡ some (bytes "7")
match_captures_example =
    match_captures file_template file_request file_captures 1
      (record { literal = []; param = bytes "id" }) file_template-HasDistinctParams
      file_request-match refl (λ e. cc)

abbrev three_bytes : List ℕ
three_bytes = 0 ∷ 200 ∷ 255 ∷ []

decode-encode_example : decode (encode three_bytes) ≡ ok three_bytes
decode-encode_example = decode-encode three_bytes (omega arith, (omega arith, (omega arith, tt)))
