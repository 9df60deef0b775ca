-- ===== src/Tests/World.antt =====
-- A small world: one endpoint, one event with its delivery, and a process that meets two faults.
use webhook_delivery_engine.Prelude.{
  ℕ, ◌+◌, ◌*◌, true, false, ◌==◌, if◌then◌else◌, none, some, List, [], ◌∷◌, arith,
}
use webhook_delivery_engine.Db.{
  Db, Delivery, Status, pending, delivering, failed, Actor, Reason, AttemptOutcome, ErrorMessage,
  find_delivery,
}
use webhook_delivery_engine.Db.Rows.{numbers, down_from, last_status, has_success}
use webhook_delivery_engine.Db.Audit.{IsAudited}
use webhook_delivery_engine.Db.Attempts.{RecordAttemptInput}
use webhook_delivery_engine.Db.Deliveries.{DeliveryForWorker}
use webhook_delivery_engine.Exec.{Inputs, Shared, fine, reply_lost, refused, Thrown}
use webhook_delivery_engine.Api.Events.{EventRequest}
use webhook_delivery_engine.Queue.{Job, original}
use webhook_delivery_engine.Worker.Signature.{Codec}
use webhook_delivery_engine.Tests.Memory.{memory, local_queue, empty_keys}
use Prim.Native.String

abbrev pub row : Status → ℕ → Delivery
row status count = record {
  id = 7;
  event_id = 3;
  endpoint_id = 1;
  status = status;
  attempt_count = count;
  next_attempt_at = none;
  enqueued = false;
  created_at = 0;
  updated_at = 0;
}

-- The tables after the ingestion of one event.
abbrev pub tables : Db
tables = record {
  endpoints =
      record {
        id = 1;
        client_id = "acme";
        url = "https://acme.test/hook";
        signing_secret = "whsec";
        is_active = true;
        created_at = 0;
      }
      ∷ [];
  events =
      record {
        id = 3;
        client_id = "acme";
        idempotency_key = "k1";
        event_type = "order.created";
        payload = "{}";
        received_at = 0;
      }
      ∷ [];
  deliveries = row pending 0 ∷ [];
  attempts = [];
  transitions =
      record {
        delivery_id = 7;
        from_status = none;
        to_status = pending;
        reason = Reason.created;
        actor = Actor.api;
        created_at = 0;
      }
      ∷ [];
}

pub tables-IsAudited : IsAudited tables
unfolding numbers down_from last_status has_success find_delivery
tables-IsAudited = record {
  numbered = λ id. ground arith;
  traced = λ id. ground arith;
  proved = λ id e. ground arith;
}

abbrev pub with_rows : List Delivery → Shared memory local_queue
with_rows ds = record {
  db = record tables { deliveries = ds };
  redis = empty_keys;
  queue = [];
  dlq_queue = [];
  posts = [];
  alerts = [];
}

abbrev pub world : Shared memory local_queue
world = with_rows (row pending 0 ∷ [])

abbrev pub reset : Thrown
reset = record {
  is_error = true;
  name = "Error";
  message = "read ECONNRESET";
  code = some "ECONNRESET";
}

-- A second between commands; the receiver answers 200; one command loses its reply, a later one is
-- refused.
abbrev pub inputs : Inputs
inputs = record {
  time = λ n. n * 1000;
  random = λ n. 4_000_000;
  token = λ n. 5;
  endpoint_uuid = λ n. n + 300;
  event_uuid = λ n. n + 100;
  delivery_uuid = λ n. n + 200;
  response = λ n. (200, []);
  beats = λ n. 1;
  job_counts = λ n. (some 10, none);
  locked = λ n id. false;
  add_fails = λ n id. none;
  faults = λ n. if n == 9 then reply_lost reset else (if n == 12 then refused reset else fine);
}

abbrev pub codec : Codec
codec = record {
  stringify = λ body. body.payload;
  hmac_sha256_hex = λ secret text. String.◌++◌ secret text;
}

abbrev pub job : Job
job = record { id = original 7; delivery_id = 7; attempts_made = 1 }

abbrev pub last_job : Job
last_job = record { id = original 7; delivery_id = 7; attempts_made = 5 }

abbrev pub first_attempt : RecordAttemptInput
first_attempt = record {
  delivery_id = 7;
  attempt_number = 1;
  outcome = AttemptOutcome.timeout;
  http_status = none;
  response_body = none;
  error_message = some (ErrorMessage.text "Headers Timeout Error");
  latency_ms = 10_000;
  started_at = 0;
  finished_at = 10_000;
  from_status = delivering;
  to_status = failed;
  reason = Reason.timeout 10_000;
  next_attempt_at = some 20_000;
}

abbrev pub request : EventRequest
request = record {
  idempotency_key = some (record { text = "k2"; units = 2 });
  content_length = some 80;
  body =
      some
        (record { endpoint_id = 1; event_type = "order.paid"; payload = "{}"; payload_bytes = 2 });
}

-- What a worker reads of the delivery when four attempts have failed.
abbrev pub seen : DeliveryForWorker
seen = record {
  id = 7;
  status = delivering;
  attempt_count = 4;
  endpoint_id = 1;
  endpoint_url = "https://acme.test/hook";
  signing_secret = "whsec";
  endpoint_active = true;
  event_id = 3;
  event_type = "order.created";
  payload = "{}";
  received_at = 0;
}
