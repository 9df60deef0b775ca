-- ===== src/TestReceiver.antt =====
-- test-receiver/index.ts, with `verify` of worker/signature.ts: a receiver that checks the signature of
-- every webhook, logs it, and answers as its routes say. Numbers in texts are read by `Number`, a
-- parameter; a rate is the number of its 2 ^ -53.
pub mod Accepts
pub mod Flap
use Prim.Native.String
use text.Mathlib.Text.{starts_with}
use webhook_delivery_engine.Prelude.{
  is_some, length, ◌&&◌, false, true, ◌∷◌, not, ◌+◌, [], ◌==◌, none, ltb, some, str_eq, where_rows,
  ◌++◌, Bool, String, or_else, List, Option, if◌then◌else◌, ℕ,
}
use webhook_delivery_engine.Worker.Signature.{decimal, Codec}

-- What `Number` makes of a text: NaN, or a natural number.
pub record Platform : Type 0 where
  pub codec : Codec
  pub from_hex : String → List ℕ
  -- `timingSafeEqual`: `none` where it throws.
  pub timing_safe_equal : List ℕ → List ℕ → Option Bool
  pub to_number : String → Option ℕ
  pub parse_json : String → Bool

-- String(n) of such a number
abbrev pub number_text : Option ℕ → String
number_text none = "NaN"
number_text (some n) = decimal n

-- The payload that `sign` gets, with the text of any number.
abbrev pub sign_text : Codec → String → String → String → String
sign_text k secret timestamp raw_body =
    k.hmac_sha256_hex secret (String.◌++◌ timestamp (String.◌++◌ "." raw_body))

-- `none` where `timingSafeEqual` throws.
unfoldable pub verify : Platform → String → Option ℕ → String → String → Option Bool
verify p secret timestamp_seconds raw_body signature_hex =
    let expected = p.from_hex (sign_text p.codec secret (number_text timestamp_seconds) raw_body) in
    let actual = p.from_hex signature_hex in
    if not (length expected == length actual)
    then some false
    else p.timing_safe_equal expected actual

-- The headers are `none` where they are missing.
pub record WebhookRequest : Type 0 where
  pub webhook_id : Option String
  pub attempt : Option String
  pub timestamp : Option String
  pub signature : Option String
  pub raw_body : String
  pub path : String

-- A body that is no JSON is logged as its text; an empty one as null.
pub data LoggedBody : Type 0 where
  null_body : LoggedBody
  json_body text_body : String → LoggedBody

pub record LoggedRequest : Type 0 where
  pub id : Option String
  pub attempt : Option (Option ℕ)
  pub ts : Option (Option ℕ)
  pub path : String
  pub body : LoggedBody
  pub valid_signature : Bool
  pub received_at : ℕ

pub record ChaosConfig : Type 0 where
  pub error_rate : ℕ
  pub timeout_rate : ℕ
  pub slow_drip_ms : ℕ

-- The module's variables; a Map's newest entry of a key counts.
pub record Receiver : Type 0 where
  pub request_log : List LoggedRequest
  pub flap_counts : List (String × ℕ)
  pub chaos_config : ChaosConfig

abbrev pub no_chaos : ChaosConfig
no_chaos = record { error_rate = 0; timeout_rate = 0; slow_drip_ms = 0 }

abbrev pub filled : Option String → Option String
filled none = none
filled (some s) = if str_eq s "" then none else some s

-- `Number(header)` of a header that is there and not empty
abbrev pub header_number : Platform → Option String → Option (Option ℕ)
header_number p none = none
header_number p (some s) = some (p.to_number s)

-- Without the prefix `sha256=`, if it is there.
unfoldable pub signature_hex : Option String → String
signature_hex none = ""
signature_hex (some s) = if starts_with s "sha256=" then String.slice s 7 (String.len s) else s

-- The `catch` takes what `verify` throws as an invalid signature.
abbrev pub has_valid_signature :
    Platform → String → Option String → Option String → String → String → Bool
has_valid_signature p secret (some id) (some ts) hex raw_body =
    if str_eq hex "" then false else or_else (verify p secret (p.to_number ts) raw_body hex) false
has_valid_signature p secret _ _ hex raw_body = false

abbrev pub logged_body : Platform → String → LoggedBody
logged_body p raw_body =
    if str_eq raw_body ""
    then null_body
    else if p.parse_json raw_body
    then json_body raw_body
    else text_body raw_body

-- The entry that `logRequest` makes.
unfoldable pub log_entry : Platform → String → ℕ → WebhookRequest → LoggedRequest
unfolding verify signature_hex
log_entry p secret now req = record {
  id = req.webhook_id;
  attempt = header_number p (filled req.attempt);
  ts = header_number p (filled req.timestamp);
  path = req.path;
  body = logged_body p req.raw_body;
  valid_signature =
      has_valid_signature p secret (filled req.webhook_id) (filled req.timestamp)
        (signature_hex req.signature) req.raw_body;
  received_at = now;
}

-- What a client sees of an answer.
pub data ReceiverReply : Type 0 where
  invalid_signature ok_true chaos_error reset_true no_reply : ReceiverReply
  -- The status, for /fail
  failed_with : ℕ → ReceiverReply
  -- 200 after so many milliseconds
  delayed_ok : ℕ → ReceiverReply
  -- 503 with the failure's number and how many there will be
  flap_failure : ℕ → ℕ → ReceiverReply
  -- 200 with the failures before it
  recovered : ℕ → ReceiverReply
  -- 200 in four chunks over so many milliseconds
  drip : ℕ → ReceiverReply
  requests : List LoggedRequest → ReceiverReply

abbrev pub reply_status : ReceiverReply → Option ℕ
reply_status invalid_signature = some 401
reply_status ok_true = some 200
reply_status chaos_error = some 500
reply_status reset_true = some 200
reply_status no_reply = none
reply_status (failed_with status) = some status
reply_status (delayed_ok ms) = some 200
reply_status (flap_failure n total) = some 503
reply_status (recovered n) = some 200
reply_status (drip ms) = some 200
reply_status (requests rows) = some 200

-- Number(text) || default
abbrev pub number_or : ℕ → Option ℕ → ℕ
number_or default none = default
number_or default (some n) = if n == 0 then default else n

abbrev pub map_get : String → List (String × ℕ) → Option ℕ
map_get key [] = none
map_get key ((k, n) ∷ rest) = if str_eq k key then some n else map_get key rest

-- The three knobs of a query, where they are finite numbers.
pub record ChaosQuery : Type 0 where
  pub error_rate : Option ℕ
  pub timeout_rate : Option ℕ
  pub slow_drip_ms : Option ℕ

abbrev pub chaos_answer : ChaosConfig → ℕ → ReceiverReply
chaos_answer c roll =
    if ltb roll c.timeout_rate
    then no_reply
    else if ltb roll (c.timeout_rate + c.error_rate)
    then chaos_error
    else if ltb 0 c.slow_drip_ms
    then drip c.slow_drip_ms
    else ok_true

abbrev pub with_knobs : ChaosQuery → ChaosConfig → ChaosConfig
with_knobs q c = record {
  error_rate = or_else q.error_rate c.error_rate;
  timeout_rate = or_else q.timeout_rate c.timeout_rate;
  slow_drip_ms = or_else q.slow_drip_ms c.slow_drip_ms;
}

-- The routes; `flap` and the other path parameters are the texts' numbers, a roll is `Math.random()`.
pub data ReceiverCall : Type 0 where
  ok_call : WebhookRequest → ReceiverCall
  fail_call timeout_call flap_call : Option ℕ → WebhookRequest → ReceiverCall
  chaos_call : ChaosQuery → ℕ → WebhookRequest → ReceiverCall
  requests_call : Option String → ReceiverCall
  reset_call : ReceiverCall

abbrev pub flap_answer : String → ℕ → ℕ → Receiver → ReceiverReply × Receiver
flap_answer key failures_before_success prior_failures s =
    if ltb prior_failures failures_before_success
    then (
      flap_failure (prior_failures + 1) failures_before_success,
      record s { flap_counts = (key, prior_failures + 1) ∷ s.flap_counts },
    )
    else (recovered prior_failures, s)

abbrev pub logged_as : Option String → LoggedRequest → Bool
logged_as none entry = true
logged_as (some id) entry = str_eq (or_else entry.id "") id && is_some entry.id

module _ (p : Platform) (secret : String) where
  -- What a route does once the request is logged, unless the signature is refused.
  abbrev pub if_valid :
      WebhookRequest
      → ℕ
      → (LoggedRequest → Receiver → ReceiverReply × Receiver)
      → Receiver
      → ReceiverReply × Receiver
  if_valid req now answer s =
      let entry = log_entry p secret now req in
      let s' = record s { request_log = s.request_log ++ (entry ∷ []) } in
      if not entry.valid_signature then (invalid_signature, s') else answer entry s'

  unfoldable pub handle : ReceiverCall → ℕ → Receiver → ReceiverReply × Receiver
  handle (ok_call req) now = if_valid req now λ entry s. (ok_true, s)
  handle (fail_call status req) now =
      if_valid req now λ entry s. (failed_with (number_or 500 status), s)
  handle (timeout_call ms req) now = if_valid req now λ entry s. (delayed_ok (number_or 0 ms), s)
  handle (flap_call n req) now = if_valid req now λ entry s.
      let key = or_else entry.id "unknown" in
      flap_answer key (number_or 0 n) (or_else (map_get key s.flap_counts) 0) s
  handle (chaos_call q roll req) now = if_valid req now λ entry s.
      let c = with_knobs q s.chaos_config in (chaos_answer c roll, record s { chaos_config = c })
  handle (requests_call webhook_id) now =
      λ s. (requests (where_rows (logged_as webhook_id) s.request_log), s)
  handle reset_call now =
      λ s. (reset_true, record { request_log = []; flap_counts = []; chaos_config = no_chaos })
