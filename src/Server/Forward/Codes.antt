-- ===== src/Server/Forward/Codes.antt =====
-- The code that `classify_error` of crates/proxy-server/src/lib.rs gives to what
-- `forward_to_provider` reports of an answer.
use rpceth.Base.{
  ℕ, ◌+◌, ◌/◌, ◌≡◌, refl, ap, arith, false, ◌&&◌, ◌||◌, leb, ltb, Option, none, some, [], ◌∷◌, ◌++◌,
  Text, codes, if◌then◌else◌, Bool-cases, inl, inr,
}
use rpceth.Http.{is_success}
use rpceth.Server.Forward.{
  SendResult, timed_out, send_failed, answered, bytes, read_failed, Forwarded, ok, err, receive,
  has_substring, is_prefix, classify_error,
}

-- How `http::StatusCode` prints: three digits, and a reason that is none of the texts looked for.
pub record Prints (status_text : ℕ → Text) (status : ℕ) : Type 0 where
  pub rest : Text
  pub digits : status_text status ≡ (48 + status / 100) ∷ rest
  pub no_timeout : has_substring (codes "timed out") (status_text status) ≡ false
  pub no_status_4 : has_substring (codes "status 4") (status_text status) ≡ false
  pub no_status_5 : has_substring (codes "status 5") (status_text status) ≡ false

-- The class of a failing status, and of a timeout; `none` for a success.
abbrev pub class_of : ℕ → Text
class_of status =
    if leb 400 status && ltb status 500
    then codes "client"
    else (if leb 500 status && ltb status 600 then codes "server" else codes "other")

has_timed_out :
    (text : Text)
    → has_substring (codes "timed out") (codes "provider returned status " ++ text)
      ≡ has_substring (codes "timed out") text
unfolding has_substring is_prefix
has_timed_out text = refl

has_status :
    (d : ℕ) (text : Text)
    → has_substring (codes "status " ++ d ∷ []) (codes "provider returned status " ++ text)
      ≡ (is_prefix (d ∷ []) text || has_substring (codes "status " ++ d ∷ []) text)
unfolding has_substring is_prefix
has_status d text = refl

-- The test on the first digit, as it computes.
starts_with_4 :
    (status : ℕ) (rest : Text)
    → (is_prefix (52 ∷ []) ((48 + status / 100) ∷ rest) || false)
      ≡ (leb 400 status && ltb status 500)
unfolding is_prefix
starts_with_4 status rest = ground arith

starts_with_5 :
    (status : ℕ) (rest : Text)
    → (is_prefix (53 ∷ []) ((48 + status / 100) ∷ rest) || false)
      ≡ (leb 500 status && ltb status 600)
unfolding is_prefix
starts_with_5 status rest = ground arith

classify_error-status :
    (text rest : Text) (status : ℕ)
    → text ≡ (48 + status / 100) ∷ rest
    → has_substring (codes "timed out") text ≡ false
    → has_substring (codes "status 4") text ≡ false
    → has_substring (codes "status 5") text ≡ false
    → classify_error (codes "provider returned status " ++ text) ≡ class_of status
unfolding classify_error is_prefix
classify_error-status text rest status digits no_timeout no_4 no_5 =
    rw
      (
        has_timed_out text,
        has_status 52 text,
        has_status 53 text,
        no_timeout,
        no_4,
        no_5,
        digits,
        starts_with_4 status rest,
        starts_with_5 status rest,
      )
      refl

-- The code under which a failure is counted, and none for a success.
abbrev pub code_of : Forwarded → Option Text
code_of (ok response) = none
code_of (err message) = some (classify_error message)

-- A timeout, or an answer whose status prints as it should and, if it is a success, is read whole.
abbrev pub IsAnswer : (ℕ → Text) → SendResult → Type 0
IsAnswer status_text timed_out = Unit
IsAnswer status_text (send_failed message) = ⊥
IsAnswer status_text (answered status headers (read_failed message)) =
    (is_success status ≡ false) × Prints status_text status
IsAnswer status_text (answered status headers (bytes body)) = Prints status_text status

abbrev pub code_for : SendResult → Option Text
code_for timed_out = some (codes "timeout")
code_for (send_failed message) = none
code_for (answered status headers body) =
    if leb 200 status && ltb status 300 then none else some (class_of status)

module _ (status_text : ℕ → Text) where
  refused_code :
      (status : ℕ)
      → Prints status_text status
      → classify_error (codes "provider returned status " ++ status_text status) ≡ class_of status
  refused_code status p =
      classify_error-status (status_text status) p.rest status p.digits p.no_timeout p.no_status_4
        p.no_status_5

  -- What `classify_error` makes of the error of a POST: `timeout` for a timeout, and for an answer
  -- whose status is not a success `client` for 400 to 499, `server` for 500 to 599 and `other` for
  -- the rest; an answer with a status of success whose body is read gives no error. A transport
  -- error and a body that cannot be read are left out, as their messages are the HTTP client's.
  -- The status is assumed to print as its digits, with a text in which none of the messages looked
  -- for stands.
  pub receive-code :
      (result : SendResult)
      → IsAnswer status_text result
      → code_of (receive status_text result) ≡ code_for result
  unfolding receive is_success classify_error has_substring is_prefix
  receive-code timed_out p = refl
  receive-code (send_failed message) p = elim p [ ]
  receive-code (answered status headers (read_failed message)) (failing, prints) =
      rw (failing, receive) (ap some (refused_code status prints))
  receive-code (answered status headers (bytes body)) prints =
      elim (Bool-cases (is_success status)) [
        | inl success ↦ rw (success, receive) refl
        | inr failing ↦ rw (failing, receive) (ap some (refused_code status prints))
      ]
