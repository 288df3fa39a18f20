-- ===== src/Examples/Refreshes.antt =====
-- Examples of POST /token (internal/server/oauth/oauth.go), on the concrete library: the upstream gives
-- an access token for an hour and a new refresh token.
use bouncer.Base.{
  ℕ, ◌*◌, ◌-◌, ◌≡◌, ◌≢◌, refl, ap, ◌∙◌, false, none, some, [], ◌∷◌, ◌++◌, arith, inr, bytes, str_eq,
  ok, err, Among,
}
use bouncer.Base.Int.{ℤ, pos, ◌+ℤ◌, ◌-ℤ◌, ◌≤ℤ◌, scale, wrap, sub_time}
use bouncer.Auth.Records.{RefreshToken, second}
use bouncer.Auth.Issue.{claims_for, sign_encrypted, issue_access_token, issue_refresh_token}
use bouncer.Auth.Sealing.{encrypt_creds}
use bouncer.Auth.Verify.{verify_access_token, verify_refresh_token}
use bouncer.Auth.RoundTrip.{verify_refresh_token-issued, refresh_expiry}
use bouncer.Oauth.Records.{
  UpstreamTokens, UpstreamRequest, TokenResponse, Web, Form, Inbound, form_get,
}
use bouncer.Oauth.Exchange.{
  validate_token_url, validate_parsed, exchange, receive, upstream_request, err_oauth,
}
use bouncer.Oauth.Response.{
  OauthHandler, Readings, Nonces, access_ttl, rotated_refresh_ttl, issue_access, rotate,
  issue_response,
}
use bouncer.Oauth.Handler.{is_exhausted, read_form, read_request, serve_http}
use bouncer.Oauth.Upstream.{serve_http-read, read_request-verified}
use bouncer.Oauth.Errors.{serve_http-errors, upstream_errors, response_errors}
use bouncer.Oauth.Lifetimes.{issue_response-outlived, issue_response-usable, forwarded}
use bouncer.Oauth.Rotation.{issue_response-rotated, renewed}
use bouncer.Examples.ToyLaws.{toy_library, toy-Laws}
use bouncer.Examples.Tokens.{
  access_codec, access_codec-laws, refresh_codec, refresh_codec-laws, secret, server_keys, derived,
  drawn_nonce, drawn_nonce-IsNonce, value, renewal,
}

abbrev handler : OauthHandler
handler = record { keys = server_keys; refresh_ttl = pos 0 }

abbrev tokens : UpstreamTokens
tokens = record { access_token = bytes "x"; refresh_token = bytes "n"; expires_in = pos 3600 }

-- The token of an earlier issue, which ends at second 9,000.
abbrev holder : RefreshToken
holder = record {
  subject = bytes "bob";
  creds = renewal;
  admin = false;
  expires_at = some (pos (9000 * second));
}

abbrev at_second : ℕ → ℤ
at_second n = pos (n * second)

abbrev readings : Readings
readings = record {
  verified = at_second 1000;
  compared = at_second 1000;
  access_issued = at_second 1001;
  rotated = at_second 1002;
  refresh_issued = at_second 1002;
}

abbrev nonces : Nonces
nonces = record { access = drawn_nonce; refresh = drawn_nonce }

abbrev empty_response : TokenResponse
empty_response = record {
  access_token = [];
  token_type = [];
  expires_in = pos 0;
  refresh_token = [];
}

abbrev given : TokenResponse
given =
    value
      (issue_response toy_library access_codec refresh_codec handler holder tokens readings nonces)
      empty_response

issued_response :
    issue_response toy_library access_codec refresh_codec handler holder tokens readings nonces
    ≡ ok given
unfolding issue_response access_ttl scale wrap issue_access rotate rotated_refresh_ttl sub_time
    issue_access_token issue_refresh_token sign_encrypted encrypt_creds claims_for ◌+ℤ◌ ◌-ℤ◌ str_eq
issued_response = refl

issue_response-outlived_example :
    verify_access_token toy_library access_codec server_keys given.access_token (at_second 4601)
    ≢ ok (record { subject = []; creds = forwarded holder tokens; admin = false })
issue_response-outlived_example =
    issue_response-outlived toy_library toy-Laws access_codec refresh_codec handler holder tokens
      readings nonces given 3600 (at_second 4601)
      (record { subject = []; creds = forwarded holder tokens; admin = false }) issued_response refl
      (unfold ◌+ℤ◌ in omega arith)

issue_response-usable_example :
    (verify_access_token toy_library access_codec server_keys given.access_token (at_second 4600)
      ≡ ok (record { subject = bytes "bob"; creds = forwarded holder tokens; admin = false }))
    × (given.expires_in ≡ pos (3600 - 30))
issue_response-usable_example =
    issue_response-usable toy_library toy-Laws access_codec refresh_codec access_codec-laws secret
      handler holder tokens readings nonces given 3600 (at_second 4600) derived drawn_nonce-IsNonce
      issued_response refl (omega arith) (omega arith) (omega arith) (unfold ◌+ℤ◌ in omega arith)

-- The rotated token, which lives for the seconds that were left to the first.
abbrev left : ℤ
left = pos (7998 * second)

issued_rotated :
    issue_refresh_token toy_library refresh_codec server_keys
      (bytes "bob")
      (renewed holder tokens)
      left
      false
      (at_second 1002)
      drawn_nonce
    ≡ ok given.refresh_token
unfolding issue_response access_ttl scale wrap issue_access rotate rotated_refresh_ttl sub_time
    issue_access_token issue_refresh_token sign_encrypted encrypt_creds claims_for ◌+ℤ◌ ◌-ℤ◌ str_eq
issued_rotated = refl

abbrev rotated_token : RefreshToken
rotated_token = record {
  subject = bytes "bob";
  creds = renewed holder tokens;
  admin = false;
  expires_at = refresh_expiry toy_library left (at_second 1002);
}

verified_rotated :
    verify_refresh_token toy_library refresh_codec server_keys given.refresh_token (at_second 2000)
    ≡ ok rotated_token
verified_rotated =
    verify_refresh_token-issued toy_library toy-Laws refresh_codec refresh_codec-laws secret
      server_keys (bytes "bob") (renewed holder tokens) left false (at_second 1002) (at_second 2000)
      drawn_nonce given.refresh_token derived drawn_nonce-IsNonce (λ e. cc) issued_rotated
      (omega arith) (inr (unfold ◌+ℤ◌ in omega arith))

not_empty : given.refresh_token ≢ []
unfolding issue_response access_ttl scale wrap issue_access rotate rotated_refresh_ttl sub_time
    issue_access_token issue_refresh_token sign_encrypted encrypt_creds claims_for ◌+ℤ◌ ◌-ℤ◌ str_eq
not_empty e = cc

issue_response-rotated_example :
    (rotated_token.subject ≡ holder.subject)
    × (rotated_token.admin ≡ holder.admin)
    × (rotated_token.creds ≡ renewed holder tokens)
    × ((exp' : ℤ) × (rotated_token.expires_at ≡ some exp')
        × (exp' ≤ℤ (at_second 9000 +ℤ (at_second 1002 -ℤ at_second 1002))))
issue_response-rotated_example =
    issue_response-rotated toy_library toy-Laws access_codec refresh_codec refresh_codec-laws
      handler holder tokens readings nonces given (at_second 9000) (at_second 2000) rotated_token
      issued_response not_empty refl (omega arith) drawn_nonce-IsNonce verified_rotated

-- An upstream that cannot be reached.
abbrev web : Web
web = record {
  parse_url = λ raw. ok (record { scheme = bytes "https"; host = bytes "u"; hostname = bytes "u" });
  parse_ip = λ host. none;
  new_request_error = λ url. none;
  do_request = λ req. err (bytes "refused");
  quote = λ s. s;
  read_tokens = λ text. err (bytes "no JSON");
}

abbrev form : Form
form =
    (bytes "grant_type", bytes "refresh_token") ∷ (bytes "refresh_token", given.refresh_token) ∷ []

abbrev inbound : Inbound
inbound = record { method = bytes "POST"; parse_form = λ limit. ok form }

abbrev later_readings : Readings
later_readings = record {
  verified = at_second 2000;
  compared = at_second 2000;
  access_issued = at_second 2000;
  rotated = at_second 2000;
  refresh_issued = at_second 2000;
}

abbrev sent : UpstreamRequest
sent = upstream_request (renewed holder tokens) [] []

form_read : read_form toy_library access_codec refresh_codec web inbound ≡ ok form
unfolding read_form form_get issue_response access_ttl scale wrap issue_access rotate
    rotated_refresh_ttl sub_time issue_access_token issue_refresh_token sign_encrypted encrypt_creds
    claims_for ◌+ℤ◌ ◌-ℤ◌ str_eq
form_read = refl

found : form_get form (bytes "refresh_token") ≡ given.refresh_token
unfolding form_get str_eq
found = refl

read_ok :
    read_request toy_library access_codec refresh_codec web handler inbound later_readings
    ≡ ok (form, rotated_token)
unfolding is_exhausted form_get str_eq ◌+ℤ◌
read_ok =
    read_request-verified toy_library access_codec refresh_codec web handler inbound later_readings
      form rotated_token form_read
      (ap (λ s. verify_refresh_token toy_library refresh_codec server_keys s (at_second 2000)) found
        ∙ verified_rotated)
      refl

was_sent :
    (serve_http toy_library access_codec refresh_codec web handler inbound later_readings nonces).1
    ≡ sent ∷ []
unfolding exchange validate_token_url validate_parsed str_eq form_get
was_sent =
    ap (λ y. y.1)
      (serve_http-read toy_library access_codec refresh_codec web handler inbound later_readings
        nonces form rotated_token read_ok)

has_failed :
    (serve_http toy_library access_codec refresh_codec web handler inbound later_readings nonces).0
    ≡ err (err_oauth 503 (bytes "temporarily_unavailable") (bytes "upstream unreachable"))
unfolding exchange validate_token_url validate_parsed receive str_eq form_get
has_failed =
    ap (λ y. y.0)
      (serve_http-read toy_library access_codec refresh_codec web handler inbound later_readings
        nonces form rotated_token read_ok)

serve_http-errors_example :
    Among
      (err_oauth 503 (bytes "temporarily_unavailable") (bytes "upstream unreachable"))
      (upstream_errors ++ response_errors)
serve_http-errors_example =
    serve_http-errors toy_library access_codec refresh_codec web handler inbound later_readings
      nonces sent []
      (err_oauth 503 (bytes "temporarily_unavailable") (bytes "upstream unreachable")) was_sent
      has_failed
