-- ===== src/Worker/Signature.antt =====
-- worker/signature.ts and shared/headers.ts. JSON.stringify of the body and the HMAC are parameters.
pub mod Decimal
use Prim.Native.String
use webhook_delivery_engine.Prelude.{
  ℕ, zero, suc, ◌+◌, ◌/◌, ◌%◌, ◌==◌, if◌then◌else◌, get_elem?, or_else, List, [], ◌∷◌, String, ◌≡◌,
  refl,
}
use webhook_delivery_engine.Exec.{WebhookHeaders}

pub record OutboundBody : Type 0 where
  pub event_id : ℕ
  pub event_type : String
  pub created_at : ℕ
  pub payload : String

pub record Codec : Type 0 where
  pub stringify : OutboundBody → String
  pub hmac_sha256_hex : String → String → String

abbrev pub digits : List String
digits = "0" ∷ "1" ∷ "2" ∷ "3" ∷ "4" ∷ "5" ∷ "6" ∷ "7" ∷ "8" ∷ "9" ∷ []

abbrev pub digit : ℕ → String
digit n = or_else (get_elem? digits n) ""

unfoldable pub decimal_fuel : ℕ → ℕ → String
decimal_fuel zero n = ""
decimal_fuel (suc fuel) n =
    let more = decimal_fuel fuel (n / 10) in
    if n / 10 == 0 then digit n else String.◌++◌ more (digit (n % 10))

-- String(n); every division by 10 uses one unit of fuel at most.
unfoldable pub decimal : ℕ → String
unfolding decimal_fuel
decimal n = decimal_fuel (n + 1) n

unfoldable pub sign : Codec → String → ℕ → String → String
unfolding decimal
sign k secret timestamp_seconds raw_body =
    k.hmac_sha256_hex secret (String.◌++◌ (decimal timestamp_seconds) (String.◌++◌ "." raw_body))

-- `x-webhook-signature` is `sha256=` and the signature; `content-type` is constant.
unfoldable pub build_webhook_headers : ℕ → ℕ → ℕ → String → WebhookHeaders
build_webhook_headers delivery_id attempt timestamp_seconds signature_hex = record {
  webhook_id = delivery_id;
  attempt = attempt;
  timestamp = timestamp_seconds;
  signature = String.◌++◌ "sha256=" signature_hex;
}

decimal_tests : (decimal 1781430000 ≡ "1781430000") × (decimal 0 ≡ "0")
unfolding decimal
decimal_tests = (refl, refl)
