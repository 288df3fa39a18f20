-- ===== src/Examples/Requests.antt =====
-- An example of the data plane (internal/server/proxy.go): an agent with an access token reads a file
-- of an API whose one policy permits it.
use bouncer.Base.{◌*◌, ◌≡◌, ◌⊎◌, refl, true, false, none, [], ◌∷◌, ◌++◌, bytes, str_eq, ok, err}
use bouncer.Base.Int.{ℤ, pos}
use bouncer.Auth.Records.{Header, AccessToken, second}
use bouncer.Models.{permit}
use bouncer.Proxy.Headers.{Fields, values, forwarded_fields, apply_credentials, canonical_key}
use bouncer.Proxy.Outbound.{IsWithheld, outbound-values}
use bouncer.Proxy.Credentials.{apply_credentials-values}
use bouncer.Proxy.Body.{Decoders}
use bouncer.Proxy.Records.{ServedApi, Server, Inbound, read_body, Outbound, Plane}
use bouncer.Examples.Evaluation.{constants, read_action, policy_on}
use bouncer.Examples.Tokens.{server_keys, access_jwt, upstream}

abbrev decoders : Decoders (Unit {0})
decoders = record {
  parse_media_type = λ s. (s, []);
  decode_json = λ s. err (bytes "no JSON");
  read_parts = λ body boundary. ([], none);
  parse_query = λ s. ok [];
  to_value = λ v. ok tt;
  decimal = λ n. [];
  no_body = tt;
}

abbrev plane : Plane constants
plane = record {
  principal_of = λ subject kind. subject;
  world_of = λ creds. 0;
  upstream_status = λ e. none;
  new_request_error = λ method target. none;
  send = λ out. ok (record { status = 200; fields = [] });
}

abbrev drive : ServedApi constants
drive = record {
  name = bytes "d";
  metas = (bytes "file", tt) ∷ [];
  actions = read_action ∷ [];
  store = record { deny = []; permit = policy_on (bytes "p") permit true ∷ [] };
  access_denied_status = 0;
  auth_optional = false;
  base_url = record {
    site = bytes "https://u";
    path = bytes "/v";
    raw_path = [];
    raw_query = [];
    fragment = [];
  };
}

abbrev server : Server constants
server = record {
  keys = server_keys;
  routes = record { segments = bytes "f" ∷ []; api_name = bytes "d"; source = bytes "/f" } ∷ [];
  apis = drive ∷ [];
}

-- The client sends a cookie and an extra field, which are stripped.
abbrev client : Fields
client =
    (bytes "Authorization", bytes "Bearer " ++ access_jwt)
    ∷ (bytes "Cookie", bytes "c")
    ∷ (bytes "Connection", bytes "X-A")
    ∷ (bytes "X-A", bytes "1")
    ∷ (bytes "X-B", bytes "2")
    ∷ []

abbrev inbound : Inbound
inbound = record {
  method = bytes "GET";
  escaped_path = bytes "/f";
  raw_query = [];
  query = [];
  fields = client;
  body = read_body [];
}

abbrev out : Outbound
out = record {
  method = bytes "GET";
  target = record {
    site = bytes "https://u";
    path = bytes "/v/f";
    raw_path = bytes "/v/f";
    raw_query = [];
    fragment = [];
  };
  body = [];
  fields = (bytes "X-B", bytes "2") ∷ (bytes "Authorization", bytes "Bearer x") ∷ [];
}

abbrev later : ℤ
later = pos (1080 * second)

abbrev agent : AccessToken
agent = record { subject = bytes "bob"; creds = upstream; admin = false }

outbound-values_example :
    (IsWithheld client (bytes "Cookie")
      × (values (bytes "Cookie") (apply_credentials upstream (forwarded_fields client)) ≡ []))
    ⊎ (¬ IsWithheld client (bytes "Cookie")
        × (values (bytes "Cookie") (apply_credentials upstream (forwarded_fields client))
            ≡ values (bytes "Cookie") client))
outbound-values_example =
    outbound-values upstream client (bytes "Cookie") (unfold canonical_key str_eq in (refl, tt))

abbrev bearer : Header
bearer = record { name = bytes "Authorization"; value = bytes "Bearer x" }

apply_credentials-values_example :
    values
      (canonical_key (bytes "Authorization"))
      (apply_credentials upstream (forwarded_fields client))
    ≡ bytes "Bearer x" ∷ []
apply_credentials-values_example =
    apply_credentials-values upstream client [] bearer [] (unfold str_eq in refl) tt
