-- ===== src/Proxy/Body.antt =====
-- The request that policies see (buildPolicyRequest, parseRequestBody, parseFormBody and
-- parseMultipartBody of internal/server/proxy.go; DropJSONNulls of internal/apiclient/http.go). The
-- decoders of the standard library and the conversion into a protocol value are parameters.
use bouncer.Base.{
  ℕ, Bool, true, false, Option, none, some, List, [], ◌∷◌, ◌++◌, map, ltb, ◌==◌, ◌||◌, ◌&&◌,
  if◌then◌else◌, length, Str, bytes, str_eq, to_upper, Outcome, ok, err, ◌>>=◌, map_err,
}
use bouncer.Base.Dict.{Dict, lookup, insert}
use bouncer.Messages.{Request}
use bouncer.UrlPath.{join_segments}

-- A JSON value; a number is its text.
mutual
  pub data Json : Type 0 where
    null : Json
    boolean : Bool → Json
    number : Str → Json
    text : Str → Json
    array : Items → Json
    object : Members → Json

  pub data Items : Type 0 where
    nil : Items
    cons : Json → Items → Items

  pub data Members : Type 0 where
    end : Members
    member : Str → Json → Members → Members

abbrev pub is_null : Json → Bool
is_null null = true
is_null _ = false

unfoldable mutual
  pub drop_json_nulls : Json → Json
  drop_json_nulls (object ms) = object (drop_members ms)
  drop_json_nulls (array xs) = array (drop_items xs)
  drop_json_nulls null = null
  drop_json_nulls (boolean b) = boolean b
  drop_json_nulls (number n) = number n
  drop_json_nulls (text s) = text s

  pub drop_items : Items → Items
  drop_items nil = nil
  drop_items (cons x xs) = cons (drop_json_nulls x) (drop_items xs)

  pub drop_members : Members → Members
  drop_members end = end
  drop_members (member k v ms) =
      let rest = drop_members ms in
      let kept = member k (drop_json_nulls v) rest in if is_null v then rest else kept

-- A part of a multipart body; what its reader gives is its content, or an error.
pub record Part : Type 0 where
  pub form_name : Str
  pub file_name : Str
  pub content_type : Str
  pub content : Outcome Str Str

pub data BodyError : Type 0 where
  invalid_json invalid_form to_value_failed multipart_failed : Str → BodyError
  part_failed : Str → Str → BodyError
  missing_boundary : BodyError

-- mime, encoding/json, mime/multipart, net/url and structpb. The reader of parts ends, or fails after
-- some parts. `decimal` is the text of a number; `no_body` is nil.
pub record Decoders (B : Type 0) : Type 0 where
  pub parse_media_type : Str → Str × Str
  pub decode_json : Str → Outcome Str Json
  pub read_parts : Str → Str → List Part × Option Str
  pub parse_query : Str → Outcome Str (List (Str × List Str))
  pub to_value : Json → Outcome Str B
  pub decimal : ℕ → Str
  pub no_body : B

unfoldable pub items_of : List Json → Items
items_of [] = nil
items_of (x ∷ xs) = cons x (items_of xs)

-- One entry stands for itself, several for a list.
unfoldable pub one_or_list : List Json → Json
unfolding items_of
one_or_list (x ∷ []) = x
one_or_list xs = array (items_of xs)

unfoldable pub members_of : List (Str × List Json) → Members
members_of [] = end
members_of ((k, xs) ∷ rest) = member k (one_or_list xs) (members_of rest)

module _ {B : Type 0} (d : Decoders B) where
  unfoldable pub parse_json_body : Str → Outcome BodyError B
  parse_json_body body = do
    v ← map_err invalid_json (d.decode_json body)
    map_err to_value_failed (d.to_value (drop_json_nulls v))

  abbrev text_values : List (Str × List Str) → List (Str × List Json)
  text_values = map (λ e. (e.0, map text e.1))

  unfoldable pub parse_form_body : Str → Outcome BodyError B
  unfolding members_of one_or_list
  parse_form_body body = do
    values ← map_err invalid_form (d.parse_query body)
    map_err to_value_failed (d.to_value (object (members_of (text_values values))))

  abbrev file_type : Str → Str
  file_type [] = bytes "application/octet-stream"
  file_type (c ∷ s) = c ∷ s

  -- The entry of a part: its text, or what is told of a file.
  unfoldable pub part_entry : Part → Outcome BodyError Json
  part_entry p = do
    content ← map_err (part_failed p.form_name) p.content
    ok (
        if str_eq p.file_name []
        then text content
        else object (
            member (bytes "filename") (text p.file_name) (
              member (bytes "content_type") (text (file_type p.content_type))
                (member (bytes "size") (number (d.decimal (length content))) end))))

  -- `collect[name] = append(collect[name], entry)`
  unfoldable pub collect_entry : Str → Json → Dict (List Json) → Dict (List Json)
  collect_entry name entry collected = elim (lookup name collected) [
    | none ↦ insert name (entry ∷ []) collected
    | some entries ↦ insert name (entries ++ (entry ∷ [])) collected
  ]

  -- The loop over the parts; a part with no name is read and dropped.
  unfoldable pub collect_parts : List Part → Dict (List Json) → Outcome BodyError (Dict (List Json))
  collect_parts [] collected = ok collected
  collect_parts (p ∷ parts) collected = do
    entry ← part_entry p
    collect_parts parts
        (if str_eq p.form_name [] then collected else collect_entry p.form_name entry collected)

  unfoldable pub parse_multipart_body : Str → Str → Outcome BodyError B
  parse_multipart_body body boundary =
      if str_eq boundary []
      then err missing_boundary
      else let (parts, failure) = d.read_parts body boundary in
        (do
          collected ← collect_parts parts []
          _ ← elim (failure) [ none ↦ ok (tt {0}) | some e ↦ err (multipart_failed e) ]
          map_err to_value_failed (d.to_value (object (members_of collected))))

  unfoldable pub parse_request_body : Str → Str → Outcome BodyError B
  parse_request_body content_type [] = ok d.no_body
  parse_request_body content_type (c ∷ body) =
      let (media_type, boundary) = d.parse_media_type content_type in
      if str_eq media_type (bytes "application/x-www-form-urlencoded")
      then parse_form_body (c ∷ body)
      else if str_eq media_type (bytes "multipart/form-data")
      then parse_multipart_body (c ∷ body) boundary
      else parse_json_body (c ∷ body)

-- The order of strings, byte by byte
unfoldable pub str_leb : Str → Str → Bool
str_leb [] t = true
str_leb (a ∷ s) [] = false
str_leb (a ∷ s) (b ∷ t) = ltb a b || (a == b && str_leb s t)

unfoldable pub insert_key : Str × List Str → List (Str × List Str) → List (Str × List Str)
insert_key e [] = e ∷ []
insert_key e (x ∷ xs) =
    let rest = insert_key e xs in if str_leb e.0 x.0 then e ∷ x ∷ xs else x ∷ rest

unfoldable pub sort_keys : List (Str × List Str) → List (Str × List Str)
sort_keys [] = []
sort_keys (e ∷ entries) = insert_key e (sort_keys entries)

-- The pairs of the query in the order of their keys.
unfoldable pub query_pairs : List (Str × List Str) → List (Str × Str)
query_pairs [] = []
query_pairs ((k, vs) ∷ entries) = map (λ v. (k, v)) vs ++ query_pairs entries

unfoldable pub build_policy_request :
    {B : Type 0}
    → Decoders B
    → Str
    → List Str
    → List (Str × List Str)
    → Str
    → Str
    → Outcome BodyError (Request B)
build_policy_request d method path_segs query content_type body = do
  value ← parse_request_body d content_type body
  ok (record {
    method = to_upper method;
    path = join_segments path_segs;
    path_segments = path_segs;
    query = query_pairs (sort_keys query);
    body = value;
  })
