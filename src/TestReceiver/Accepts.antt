-- ===== src/TestReceiver/Accepts.antt =====
-- Which requests the receiver accepts: those that the worker signs with its secret, and no others but
-- for their spelling in hex.
use Prim.Native.String
use text.Mathlib.TextPositions.{slice-append_right, len-append, starts_with-append}
use webhook_delivery_engine.Prelude.{
  inr, inl, none, ◌==◌, Bool, Bool-cases, Option, ◌≢◌, length, false, str_eq, refl, ==_refl, true,
  ◌≡◌, some, String, List, ℕ,
}
use webhook_delivery_engine.TestReceiver.{
  log_entry, WebhookRequest, Platform, signature_hex, verify,
}
use webhook_delivery_engine.Worker.Signature.{build_webhook_headers, decimal, sign}
use webhook_delivery_engine.Exec.{Post}
use webhook_delivery_engine.Worker.Processor.{outbound}
use webhook_delivery_engine.Db.Deliveries.{DeliveryForWorker}
use webhook_delivery_engine.Worker.Signature.Decimal.{decimal-filled}

-- What is documented of `timingSafeEqual`: it throws where the lengths differ, and compares otherwise.
pub record IsTimingSafeEqual (f : List ℕ → List ℕ → Option Bool) : Type 0 where
  pub throws : (xs ys : List ℕ) → (length xs == length ys) ≡ false → f xs ys ≡ none
  pub equal : (xs ys : List ℕ) → xs ≡ ys → f xs ys ≡ some true
  pub unequal : (xs ys : List ℕ) → (length xs == length ys) ≡ true → xs ≢ ys → f xs ys ≡ some false

-- `verify` never throws: it answers true where the signature's bytes are those of the signature that
-- `sign` makes of the timestamp and the body with the same secret, and false where they are not, also
-- where their number differs, if timingSafeEqual does as it is documented.
pub verify-sign :
    (p : Platform) (law : IsTimingSafeEqual p.timing_safe_equal) (secret : String) (ts : ℕ)
    (body hex : String)
    → let expected = p.from_hex (sign p.codec secret ts body) in
      (expected ≡ p.from_hex hex → verify p secret (some ts) body hex ≡ some true)
      × (expected ≢ p.from_hex hex → verify p secret (some ts) body hex ≡ some false)
unfolding verify sign
verify-sign p law secret ts body hex = (
  λ same. rw same (rw (==_refl (length (p.from_hex hex))) (law.equal _ _ refl)),
  λ other.
      elim (Bool-cases
        (length (p.from_hex (sign p.codec secret ts body)) == length (p.from_hex hex))) [
          | inl long ↦ rw long (law.unequal _ _ long other)
          | inr short ↦ rw short refl
        ],
)

-- How a request of the worker arrives.
abbrev pub arrives : (ℕ → String) → String → Post → WebhookRequest
arrives uuid_text path post = record {
  webhook_id = some (uuid_text post.headers.webhook_id);
  attempt = some (decimal post.headers.attempt);
  timestamp = some (decimal post.headers.timestamp);
  signature = some post.headers.signature;
  raw_body = post.body;
  path = path;
}

signature_hex-prefix : (hex : String) → signature_hex (some (String.◌++◌ "sha256=" hex)) ≡ hex
unfolding signature_hex
signature_hex-prefix hex =
    rw (starts_with-append "sha256=" hex, len-append "sha256=" hex)
      (slice-append_right "sha256=" hex)

module _ (p : Platform) (law : IsTimingSafeEqual p.timing_safe_equal) (uuid_text : ℕ → String)
    (uuid-filled : (id : ℕ) → str_eq (uuid_text id) "" ≡ false)
    (hmac-filled : (secret text : String)
      → str_eq (p.codec.hmac_sha256_hex secret text) "" ≡ false) where
  -- A request that the worker builds and signs with the receiver's secret is logged with a valid signature,
  -- if `Number` reads its timestamp back, neither an id's text nor an HMAC is ever empty, and
  -- timingSafeEqual does as it is documented.
  pub outbound-accepted :
      (delivery_id ts now : ℕ) (d : DeliveryForWorker) (path : String)
      → p.to_number (decimal ts) ≡ some ts
      → (log_entry p d.signing_secret now
          (arrives uuid_text path (outbound p.codec delivery_id d ts))).valid_signature
        ≡ true
  unfolding log_entry outbound build_webhook_headers sign
  outbound-accepted delivery_id ts now d path reads =
      rw
        (uuid-filled delivery_id, decimal-filled ts, signature_hex-prefix _, hmac-filled _ _, reads)
        (rw ((verify-sign p law d.signing_secret ts _ _).0 refl) refl)
