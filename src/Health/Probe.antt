-- ===== src/Health/Probe.antt =====
-- crates/proxy-core/src/health/probe.rs. A POST of a node's `reqwest` client is a `Reply`: the
-- error of `send`, or a status and what `json` makes of the body (an error, or the `result` field).
-- `elapsed k` is what the k-th place of the code that calls `start.elapsed()` gets, in the order of
-- the text; `u64::from_str_radix` is that of the standard library.
pub mod Hex
pub mod History
pub mod Results
use rpceth.Base.{
  ℕ, ◌+◌, ◌-◌, ◌*◌, ◌^◌, Bool, true, false, Option, none, some, List, [], ◌∷◌, Text, codes, leb,
  ltb, ◌==◌, ◌&&◌, ◌⊎◌, inl, inr, unwrap_or, if◌then◌else◌,
}
use rpceth.Provider.{ProviderId, ProviderHandle}
use rpceth.Http.{is_success}
use rpceth.Json.{Json, natural, string, object_of, array_of}
use rpceth.Float.{Float, one_f}
use rpceth.Health.{
  ProbeSuccess, ProbeFailureKind, FailureReason, http, transport, invalid_payload, ProbeResult, ok,
  err,
}

pub data Reply : Type 0 where
  unreachable : (message : Text) → Reply
  replied : (status : ℕ) → Text ⊎ Option Text → Reply

-- `char::to_digit(16)`
unfoldable pub hex_digit : ℕ → Option ℕ
hex_digit c =
    if leb b'0' c && leb c b'9'
    then some (c - b'0')
    else (if leb b'a' c && leb c b'f'
        then some (c - b'a' + 10)
        else (if leb b'A' c && leb c b'F' then some (c - b'A' + 10) else none))

-- One more digit, unless the value overflows.
unfoldable pub push_digit : Option ℕ → ℕ → Option ℕ
unfolding hex_digit
push_digit none c = none
push_digit (some acc) c = elim (hex_digit c) [
  | none ↦ none
  | some d ↦ if ltb (acc * 16 + d) (2 ^ 64) then some (acc * 16 + d) else none
]

unfoldable pub push_digits : Option ℕ → Text → Option ℕ
push_digits acc [] = acc
push_digits acc (c ∷ s) = push_digits (push_digit acc c) s

-- `u64::from_str_radix(s, 16)`: a leading `+` is allowed, no digits are not.
unfoldable pub from_str_radix : Text → Option ℕ
unfolding push_digits push_digit
from_str_radix [] = none
from_str_radix (c ∷ []) = push_digits (some 0) (c ∷ [])
from_str_radix (c ∷ d ∷ s) =
    if c == b'+' then push_digits (some 0) (d ∷ s) else push_digits (some 0) (c ∷ d ∷ s)

-- `trim_start_matches("0x")` removes the prefix as often as it stands there.
unfoldable pub trim_start_0x : Text → Text
trim_start_0x [] = []
trim_start_0x (c ∷ []) = c ∷ []
trim_start_0x (c ∷ d ∷ s) =
    let rest = trim_start_0x s in if c == b'0' && d == b'x' then rest else c ∷ d ∷ s

-- `u64::from_str_radix(hex.trim_start_matches("0x"), 16).unwrap_or_default()`
unfoldable pub quantity : Text → ℕ
unfolding from_str_radix trim_start_0x
quantity hex = unwrap_or 0 (from_str_radix (trim_start_0x hex))

-- The body of a JSON-RPC request without parameters.
abbrev pub rpc_request : Text → ℕ → Json
rpc_request method id = object_of (
    (codes "jsonrpc", string (codes "2.0"))
    ∷ (codes "method", string method)
    ∷ (codes "params", array_of [])
    ∷ (codes "id", natural id)
    ∷ [])

unfoldable pub chain_id_req : Json
chain_id_req = rpc_request (codes "eth_chainId") 1

unfoldable pub block_req : Json
block_req = rpc_request (codes "eth_blockNumber") 2

-- One of the two requests: its `result` as text, or the failure. The places of `elapsed` are counted
-- from `at` on.
unfoldable pub ask : ProviderId → (ℕ → ℕ) → ℕ → Reply → ProbeFailureKind ⊎ Text
ask id elapsed at (unreachable message) =
    inl (record { provider = id; latency = some (elapsed at); reason = transport message })
ask id elapsed at (replied status payload) =
    if is_success status
    then elim payload [
      | inl message ↦ inl (record {
        provider = id;
        latency = some (elapsed (at + 2));
        reason = invalid_payload message;
      })
      | inr result ↦ inr (unwrap_or [] result)
    ]
    else inl (record { provider = id; latency = some (elapsed (at + 1)); reason = http status })

module _ (fl : Float) where
  open fl use {F}

  -- From the replies to the two requests, the second of which is sent only after the first succeeds.
  unfoldable pub conclude : ProviderHandle → (ℕ → ℕ) → Reply → Reply → ProbeResult F
  unfolding ask quantity
  conclude provider elapsed chain_id_reply block_reply =
      elim (ask provider.id elapsed 0 chain_id_reply) [
        | inl failure ↦ err failure
        | inr chain_id_hex ↦ elim (ask provider.id elapsed 3 block_reply) [
          | inl failure ↦ err failure
          | inr block_hex ↦ ok (record {
            provider = provider.id;
            latency = elapsed 6;
            block_number = quantity block_hex;
            chain_id = quantity chain_id_hex;
            method_support_score = one_f fl;
          })
        ]
      ]

  -- `post url body` is what comes of a POST.
  unfoldable pub probe : ProviderHandle → (ℕ → ℕ) → (Text → Json → Reply) → ProbeResult F
  unfolding conclude chain_id_req block_req
  probe provider elapsed post =
      conclude provider elapsed (post provider.url chain_id_req) (post provider.url block_req)
