-- ===== src/Server/Forward.antt =====
-- The responses of crates/proxy-server/src/lib.rs and `forward_to_provider`. What `reqwest` and the
-- timeout make of a POST is a `SendResult`; how an `http::StatusCode` prints is an argument.
pub mod Codes
use rpceth.Base.{
  ℕ, Bool, Option, none, some, List, [], ◌∷◌, ◌++◌, Text, codes, Dict, get, leb, ◌&&◌, ◌||◌,
  unwrap_or, if◌then◌else◌, true, false,
}
use rpceth.Provider.{ProviderHandle}
use rpceth.Http.{is_success}
use rpceth.Json.{Json, null, number, string, object, end, field, member}

pub data ReadResult : Type 0 where
  bytes : List ℕ → ReadResult
  read_failed : Text → ReadResult

-- The timeout, a transport error with its message, or an answer: its status, its headers and what
-- reading its body gives.
pub data SendResult : Type 0 where
  timed_out : SendResult
  send_failed : Text → SendResult
  answered : ℕ → Dict Text → ReadResult → SendResult

pub record ProviderResponse : Type 0 where
  pub status : ℕ
  pub headers : Dict Text
  pub body : List ℕ

-- `Result<ProviderResponse, String>`
pub data Forwarded : Type 0 where
  ok : ProviderResponse → Forwarded
  err : Text → Forwarded

-- What is sent to a provider. `serde_json::to_vec` of a `Value` does not fail.
pub record Post : Type 0 where
  pub url : Text
  pub headers : List (Text × Text)
  pub body : Json

unfoldable pub post_to : ProviderHandle → Json → Text → Post
post_to provider request trace_id = record {
  url = provider.url;
  headers = (codes "content-type", codes "application/json") ∷ (codes "x-xray-id", trace_id) ∷ [];
  body = request;
}

module _ (status_text : ℕ → Text) where
  -- What `forward_to_provider` makes of what comes back.
  unfoldable pub receive : SendResult → Forwarded
  unfolding is_success
  receive timed_out = err (codes "provider request timed out")
  receive (send_failed message) = err message
  receive (answered status headers (read_failed message)) =
      if is_success status
      then err message
      else err (codes "provider returned status " ++ status_text status)
  receive (answered status headers (bytes body)) =
      if is_success status
      then ok (record { status = status; headers = headers; body = body })
      else err (codes "provider returned status " ++ status_text status)

  -- `send` is what a POST with a timeout comes to.
  unfoldable pub forward_to_provider :
      (Post → ℕ → SendResult) → ProviderHandle → Json → Text → ℕ → Forwarded
  unfolding post_to receive
  forward_to_provider send provider request trace_id timeout =
      receive (send (post_to provider request trace_id) timeout)

pub data Body : Type 0 where
  raw : List ℕ → Body
  json : Json → Body

-- `Builder::header` appends, so a name may stand twice.
pub record Response : Type 0 where
  pub status : ℕ
  pub headers : List (Text × Text)
  pub body : Body

json_headers : Text → List (Text × Text)
json_headers trace_id =
    (codes "content-type", codes "application/json") ∷ (codes "x-trace-id", trace_id) ∷ []

unfoldable pub build_success_response : ProviderResponse → Text → Response
unfolding json_headers
build_success_response provider_response trace_id = record {
  status = provider_response.status;
  headers = elim (get (codes "content-type") provider_response.headers) [
    | none ↦ json_headers trace_id
    | some value ↦ json_headers trace_id ++ (codes "content-type", value) ∷ []
  ];
  body = raw provider_response.body;
}

-- The payload of an error: the request's id is given back, or null.
unfoldable pub error_payload : Json → Text → Text → Json
error_payload request code message = object (
    field (codes "jsonrpc") (string (codes "2.0")) (
      field (codes "id") (unwrap_or null (member (codes "id") request)) (
        field (codes "error")
          (object
            (field (codes "code") (number code) (field (codes "message") (string message) end)))
          end)))

unfoldable pub build_error_response : Json → Text → Option Text → Response
unfolding json_headers error_payload
build_error_response request trace_id last_error = record {
  status = 502;
  headers = json_headers trace_id;
  body = json (
      error_payload request (codes "-32001") (unwrap_or (codes "all providers failed") last_error));
}

-- The argument is the chain that `ChainError::Unsupported` names.
unfoldable pub build_chain_error_response : Json → Text → Text → Response
unfolding json_headers error_payload
build_chain_error_response request trace_id chain = record {
  status = 400;
  headers = json_headers trace_id;
  body = json (error_payload request (codes "-32602") (codes "unsupported chain: " ++ chain));
}

-- `str::contains`
is_prefix : Text → Text → Bool
is_prefix [] s = true
is_prefix (c ∷ p) [] = false
is_prefix (c ∷ p) (d ∷ s) = leb c d && leb d c && is_prefix p s

unfoldable pub has_substring : Text → Text → Bool
unfolding is_prefix
has_substring needle [] = is_prefix needle []
has_substring needle (c ∷ s) = is_prefix needle (c ∷ s) || has_substring needle s

unfoldable pub classify_error : Text → Text
unfolding has_substring
classify_error message =
    if has_substring (codes "timed out") message
    then codes "timeout"
    else (if has_substring (codes "status 4") message
        then codes "client"
        else (if has_substring (codes "status 5") message then codes "server" else codes "other"))
