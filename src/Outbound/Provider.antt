-- ===== src/Outbound/Provider.antt =====
-- backend/app/elevenlabs/service.py: `initiate_outbound_call`. What `httpx` gives is a parameter.
use Prim.Native.String.{String}
use text.Mathlib.Text.{◌==◌ as str_eq}
use qora.Base.{
  ℕ, Bool, Option, none, some, List, [], ◌∷◌, ◌&&◌, ◌||◌, leb, ltb, ◌==◌, if◌then◌else◌,
}
use qora.Store.Rows.{
  Scalar, null, string, other, Metadata, ErrorDetail, http_status, json_parse_error,
  missing_call_id, network_error, read_timeout, timeout,
}

-- the body of a response: no JSON, JSON but no object, or an object (empty for no content)
pub data Reply : Type 0 where
  malformed : Reply
  not_object : Reply
  parsed : Metadata → Reply

-- what one POST ends in: a response with its status, or an exception
pub data Exchange : Type 0 where
  responded : ℕ → Reply → Exchange
  connect_timeout read_timed_out write_timeout pool_timeout : Exchange
  network_failure other_timeout other_exception : Exchange

-- Python's `str.lower`, and the key that stands for a non-empty string
pub record Strings : Type 0 where
  pub lower : String → String
  pub key_of : String → ℕ

pub data Category : Type 0 where
  transient permanent no_answer unknown : Category

-- `OutboundCallResult`, or an exception that the method lets through
pub data CallResult : Type 0 where
  accepted : ℕ → Metadata → CallResult
  failure : Category → ErrorDetail → CallResult
  raised : CallResult

-- `body.get(name)`
abbrev pub get_value : String → Metadata → Option Scalar
get_value name [] = none
get_value name ((k, v) ∷ m) = let rest = get_value name m in if str_eq k name then some v else rest

-- the linkage identifier: a string, or a truthy value that `OutboundCallResult` refuses
pub data Identifier : Type 0 where
  named : ℕ → Identifier
  refused : Identifier

-- `body.get(_field) or None`
abbrev identifier : Strings → Option Scalar → Option Identifier
identifier lib none = none
identifier lib (some null) = none
identifier lib (some (string t)) = if str_eq t "" then none else some (named (lib.key_of t))
identifier lib (some (other truth t)) = if truth then some refused else none

abbrev first_identifier : Strings → List String → Metadata → Option Identifier
first_identifier lib [] body = none
first_identifier lib (name ∷ names) body = elim (identifier lib (get_value name body)) [
  | some i ↦ some i
  | none ↦ first_identifier lib names body
]

abbrev linkage_fields : List String
linkage_fields = "call_id" ∷ "conversation_id" ∷ "sip_call_id" ∷ []

-- `_NO_ANSWER_STATUSES`
abbrev is_no_answer : String → Bool
is_no_answer t = str_eq t "no_answer" || (str_eq t "ring_timeout" || str_eq t "no_pickup")

abbrev accept : Identifier → Metadata → CallResult
accept (named k) body = accepted k body
accept refused body = raised

-- `body.get("status", "")`; `.lower()` of what is no string is an `AttributeError`
abbrev by_status : Strings → Identifier → Metadata → Option Scalar → CallResult
by_status lib i body none = accept i body
by_status lib i body (some (string t)) =
    if is_no_answer (lib.lower t) then failure no_answer ErrorDetail.no_answer else accept i body
by_status lib i body (some _) = raised

unfoldable read_reply : Strings → Reply → CallResult
read_reply lib malformed = failure permanent json_parse_error
read_reply lib not_object = raised
read_reply lib (parsed body) = elim (first_identifier lib linkage_fields body) [
  | none ↦ failure permanent missing_call_id
  | some i ↦ by_status lib i body (get_value "status" body)
]

-- `response.is_success`
abbrev is_success : ℕ → Bool
is_success code = leb 200 code && ltb code 300

unfoldable pub initiate_outbound_call : Strings → Exchange → CallResult
unfolding read_reply
initiate_outbound_call lib (responded code reply) =
    if is_success code
    then read_reply lib reply
    else if code == 429 || leb 500 code
    then failure transient (http_status code)
    else failure permanent (http_status code)
initiate_outbound_call lib connect_timeout = failure transient network_error
initiate_outbound_call lib read_timed_out = failure unknown read_timeout
initiate_outbound_call lib write_timeout = failure unknown read_timeout
initiate_outbound_call lib pool_timeout = failure unknown read_timeout
initiate_outbound_call lib network_failure = failure transient network_error
initiate_outbound_call lib other_timeout = failure unknown timeout
initiate_outbound_call lib other_exception = raised
