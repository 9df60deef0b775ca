-- ===== src/Tests/Services.antt =====
-- The receiver, the memo, the scripts and the routes of endpoints and statistics at concrete inputs.
use Prim.Native.String.compare.{cons-nil}
use webhook_delivery_engine.Prelude.{
  inr, inl, Bool-cases, ◌&&◌, ==_refl, arith, ◌≢◌, ◌*◌, Option, ◌==◌, refl, str_eq, ◌<◌, length,
  ◌↔◌, if◌then◌else◌, ◌∷◌, ◌≡◌, false, none, some, [], ◌+◌, true, Bool, List, String, ℕ,
}
use webhook_delivery_engine.TestReceiver.{
  ok_call, no_chaos, flap_call, reset_call, log_entry, WebhookRequest, Platform, handle, verify,
  Receiver,
}
use webhook_delivery_engine.Memo.Fresh.{
  started_count-settled_count, answer_call-fresh, in_flight, WasResolved, settled_count, memo_after,
  started_count,
}
use webhook_delivery_engine.Api.Stats.{db_stats}
use webhook_delivery_engine.Api.Endpoints.{post_endpoints, patch_endpoint, CreateBody, PatchBody}
use webhook_delivery_engine.Worker.Signature.{sign, decimal}
use webhook_delivery_engine.Redis.Scripts.{eval_script, ScriptServer}
use webhook_delivery_engine.Exec.Keeps.{Keeps}
use webhook_delivery_engine.Api.Events.Refused.{post_events-refused, first_failing}
use webhook_delivery_engine.Exec.{
  endpoint_not_found, refused, fine, calm, app_error, storage_unavailable, Run, Result, Inputs, Env,
  thrown, err, start, ok, smooth, Thrown,
}
use webhook_delivery_engine.Redis.Scripts.Reload.{
  eval_script-run, loaded, from_then_on, IsScriptServer,
}
use webhook_delivery_engine.TestReceiver.Accepts.{
  IsTimingSafeEqual, verify-sign, outbound-accepted, arrives,
}
use webhook_delivery_engine.Tests.World.{request, world, seen, inputs, codec, tables, reset}
use webhook_delivery_engine.Memo.{resolved, called, answer_call, MemoEvent, memo_step}
use webhook_delivery_engine.Tests.Texts.{tally_size, tally}
use webhook_delivery_engine.TestReceiver.Flap.{
  flap_codes-failures_then_successes, failures_then_successes, flap_codes, TimedCall,
}
use webhook_delivery_engine.Queue.{original}
use webhook_delivery_engine.Db.{pending, find_delivery, find_event, Endpoint, find_endpoint, Status}
use webhook_delivery_engine.Worker.Processor.{outbound}
use webhook_delivery_engine.Api.Stats.Counts.{db_stats-counts, count_status, get_count}
use webhook_delivery_engine.Api.Endpoints.Rows.{
  IsPatch, patch_endpoint-patched, post_endpoints-IsSecure, IsSecure,
}
use webhook_delivery_engine.Tests.Memory.{local_queue, memory}
use webhook_delivery_engine.ExplainCheck.{no_plans, plan_and, plan_node, PlanNode, check_plans}
use webhook_delivery_engine.ExplainCheck.Scans.{check_plans-scans, SomeHasScan}
use webhook_delivery_engine.Api.Events.{
  post_events, EventReply, IdempotencyKey, EventRequest, EventBody,
}
use webhook_delivery_engine.Db.Ingest.{has_delivery, event_of_key}
use webhook_delivery_engine.Config.{defaults}
use webhook_delivery_engine.Api.Events.Accepted.{post_events-post_events, params_of, stored}

-- A comparison that throws where the lengths differ.
abbrev bytes_eq : List ℕ → List ℕ → Bool
bytes_eq [] [] = true
bytes_eq (x ∷ xs) (y ∷ ys) = (x == y) && bytes_eq xs ys
bytes_eq _ _ = false

abbrev compare_bytes : List ℕ → List ℕ → Option Bool
compare_bytes xs ys = if length xs == length ys then some (bytes_eq xs ys) else none

bytes_eq_refl : (xs : List ℕ) → bytes_eq xs xs ≡ true
bytes_eq_refl [] = refl
bytes_eq_refl (x ∷ xs) = rw (==_refl x, bytes_eq_refl xs) refl

bytes_eq-eq : (xs ys : List ℕ) → bytes_eq xs ys ≡ true → xs ≡ ys
bytes_eq-eq [] [] h = refl
bytes_eq-eq [] (y ∷ ys) h = ground arith
bytes_eq-eq (x ∷ xs) [] h = ground arith
bytes_eq-eq (x ∷ xs) (y ∷ ys) h = ground (arith, bytes_eq-eq xs ys)

compare_bytes-IsTimingSafeEqual : IsTimingSafeEqual compare_bytes
compare_bytes-IsTimingSafeEqual = record {
  throws = λ xs ys other. rw other refl;
  equal = λ xs ys e. rw e (rw (==_refl (length ys), bytes_eq_refl ys) refl);
  unequal = λ xs ys long other. elim (Bool-cases (bytes_eq xs ys)) [
    | inl e ↦ absurd (other (bytes_eq-eq xs ys e))
    | inr e ↦ rw (long, e) refl
  ];
}

-- An HMAC that is never empty, and bytes that tell the texts' sizes.
abbrev platform : Platform
platform = record {
  codec = record codec { hmac_sha256_hex = λ secret text. String.◌∷◌ "h" text };
  from_hex = λ s. tally_size s ∷ [];
  timing_safe_equal = compare_bytes;
  to_number = λ s. if str_eq s "1781430000" then some 1_781_430_000 else none;
  parse_json = λ s. true;
}

abbrev uuid_text : ℕ → String
uuid_text id = String.◌∷◌ "u" (tally id)

verify-sign_example :
    let expected = platform.from_hex (sign platform.codec "whsec" 5 "{}") in
    (expected ≡ platform.from_hex "ff" → verify platform "whsec" (some 5) "{}" "ff" ≡ some true)
    × (expected ≢ platform.from_hex "ff" → verify platform "whsec" (some 5) "{}" "ff" ≡ some false)
verify-sign_example = verify-sign platform compare_bytes-IsTimingSafeEqual "whsec" 5 "{}" "ff"

outbound-accepted_example :
    (log_entry platform "whsec" 0
      (arrives uuid_text "/ok" (outbound platform.codec 7 seen 1_781_430_000))).valid_signature
    ≡ true
unfolding decimal
outbound-accepted_example =
    outbound-accepted platform compare_bytes-IsTimingSafeEqual uuid_text
      (λ id. rw (cons-nil "u" (tally id)) refl) (λ secret text. rw (cons-nil "h" text) refl) 7
      1_781_430_000 0 seen "/ok" refl

abbrev webhook : WebhookRequest
webhook = arrives uuid_text "/flap/2" (outbound platform.codec 7 seen 1_781_430_000)

abbrev flaps : List TimedCall
flaps =
    (flap_call (some 2) webhook, 1)
    ∷ (ok_call webhook, 2)
    ∷ (flap_call (some 2) webhook, 3)
    ∷ (flap_call (some 2) webhook, 4)
    ∷ []

abbrev receiver : Receiver
receiver = record { request_log = []; flap_counts = ("u", 9) ∷ []; chaos_config = no_chaos }

flap_codes-failures_then_successes_example :
    let s = (handle platform "whsec" reset_call 0 receiver).1 in
    flap_codes platform "whsec" (uuid_text 7) flaps s
    ≡ failures_then_successes 2 (length (flap_codes platform "whsec" (uuid_text 7) flaps s))
flap_codes-failures_then_successes_example =
    flap_codes-failures_then_successes platform "whsec" (uuid_text 7) 2 flaps receiver
      (refl, (refl, (refl, (refl, tt)))) ((λ h. refl), (tt, ((λ h. refl), ((λ h. refl), tt))))

-- Two calls share one run of the function, and a third finds its value.
abbrev counted_twice : List (MemoEvent ℕ)
counted_twice = resolved 30 12 ∷ called 20 ∷ called 10 ∷ []

started_count-settled_count_example :
    started_count 1000 (called 40 ∷ counted_twice)
    ≡ settled_count 1000 (called 40 ∷ counted_twice)
      + in_flight (memo_after 1000 (called 40 ∷ counted_twice)).pending
started_count-settled_count_example = started_count-settled_count 1000 (called 40 ∷ counted_twice)

answer_call-fresh_example : (t : ℕ) × WasResolved t 12 counted_twice × (40 < t + 1000)
unfolding memo_after memo_step answer_call
answer_call-fresh_example = answer_call-fresh 1000 counted_twice 40 12 refl

abbrev no_script_text : Thrown
no_script_text = record {
  is_error = true;
  name = "ReplyError";
  message = "NOSCRIPT No matching script";
  code = none;
}

-- A script that counts its runs.
abbrev counting : ScriptServer
counting = record {
  State = Bool × ℕ;
  Args = Unit {0};
  load = λ source s. (7, (true, s.1));
  evalsha =
      λ sha args s. if s.0 then (ok s.1, (s.0, s.1 + 1)) else (err (thrown no_script_text), s);
}

abbrev count_run : Unit {0} → Bool × ℕ → ℕ × (Bool × ℕ)
count_run args s = (s.1, (s.0, s.1 + 1))

abbrev counting-IsScriptServer : IsScriptServer counting "INCR" 7 count_run
counting-IsScriptServer = record {
  knows = λ s. s.0;
  no_script = no_script_text;
  no_script-is = refl;
  load-sha = λ s. refl;
  load-knows = λ s. refl;
  evalsha-known = λ args s h. rw h refl;
  evalsha-unknown = λ args s h. rw h refl;
}

eval_script-run_example :
    eval_script counting
      (from_then_on λ s. (false, s.1))
      (loaded counting "INCR" 7 count_run counting-IsScriptServer)
      tt
      0
      (true, 4)
    ≡ (ok 4, loaded counting "INCR" 7 count_run counting-IsScriptServer, (true, 5))
eval_script-run_example =
    eval_script-run counting "INCR" 7 count_run counting-IsScriptServer (λ s. (false, s.1)) tt
      (true, 4)

abbrev deactivate : PatchBody
deactivate = record { is_active = some false; url = none }

patch_endpoint-patched_example :
    let (answer, after) =
      patch_endpoint reset (some 1) (some deactivate) (smooth inputs) (start world) in
    ((e : Endpoint)
      → find_endpoint 1 tables.endpoints ≡ some e
      → (e' : Endpoint) × (answer ≡ ok e')
        × (find_endpoint 1 after.shared.db.endpoints ≡ some e')
        × IsPatch deactivate e e')
    × (find_endpoint 1 tables.endpoints ≡ none
        → (answer ≡ err (app_error 404 endpoint_not_found))
          × (find_endpoint 1 after.shared.db.endpoints ≡ none))
    × ((j : ℕ)
        → (1 == j) ≡ false
        → find_endpoint j after.shared.db.endpoints ≡ find_endpoint j tables.endpoints)
    × (record after.shared.db { endpoints = tables.endpoints } ≡ world.db)
patch_endpoint-patched_example = patch_endpoint-patched inputs reset 1 deactivate (start world) refl

abbrev insecure : CreateBody
insecure = record { client_id = "acme"; url = "http://acme.test/hook"; signing_secret = none }

abbrev quiet : Env memory local_queue
quiet = smooth inputs

post_endpoints-IsSecure_example :
    Keeps quiet IsSecure (post_endpoints true "whsec_1" (some insecure))
post_endpoints-IsSecure_example =
    post_endpoints-IsSecure quiet (λ step s h. h) "whsec_1" (some insecure)

db_stats-counts_example :
    let c = (db_stats 50 tables).counts in
    ((s : Status) → get_count s c ≡ count_status s tables.deliveries)
    × (c.pending_count + c.delivering_count + c.delivered_count + c.failed_count + c.dlq_count ≡ 1)
db_stats-counts_example = db_stats-counts 50 tables

-- A scan below a join, and a query without a plan.
abbrev hot_plans : List (Option PlanNode)
hot_plans =
    none
    ∷ some (
        plan_node "Nested Loop" none (
          plan_and (plan_node "Index Scan" (some "events") no_plans)
            (plan_and (plan_node "Seq Scan" (some "deliveries") no_plans) no_plans)))
    ∷ []

check_plans-scans_example : (check_plans hot_plans ≡ 1) ↔ SomeHasScan hot_plans
check_plans-scans_example = check_plans-scans hot_plans

-- The first delivery of the key "k2", and the same key with another payload.
abbrev key_two : IdempotencyKey
key_two = record { text = "k2"; units = 2 }

abbrev paid : EventBody
paid = record { endpoint_id = 1; event_type = "order.paid"; payload = "{}"; payload_bytes = 2 }

abbrev refunded : EventBody
refunded = record {
  endpoint_id = 1;
  event_type = "order.refunded";
  payload = "[]";
  payload_bytes = 2;
}

abbrev acme : Endpoint
acme = record {
  id = 1;
  client_id = "acme";
  url = "https://acme.test/hook";
  signing_secret = "whsec";
  is_active = true;
  created_at = 0;
}

abbrev later_inputs : Inputs
later_inputs = record inputs { time = λ n. 60_000 + n * 1000 }

abbrev request_again : EventRequest
request_again = record request { body = some refunded }

abbrev first_post : Result EventReply × Run memory local_queue
first_post = post_events defaults request (smooth inputs) (start world)

abbrev second_post : Result EventReply × Run memory local_queue
second_post = post_events defaults request_again (smooth later_inputs) (start first_post.1.shared)

post_events-post_events_example :
    (first_post.0
      ≡ ok (record {
        status_code = 202;
        event_id = 103;
        delivery_id = 203;
        status = pending;
        duplicate = false;
      }))
    × ((id : ℕ)
        → find_delivery id first_post.1.shared.db.deliveries ≡ (
            if 203 == id
            then some (stored inputs (params_of acme key_two paid))
            else find_delivery id world.db.deliveries))
    × (first_post.1.shared.queue ≡ local_queue.add (original 203) 203 world.queue)
    × (second_post.0
        ≡ ok (record {
          status_code = 200;
          event_id = 103;
          delivery_id = 203;
          status = pending;
          duplicate = true;
        }))
    × (second_post.1.shared.db ≡ first_post.1.shared.db)
    × (second_post.1.shared.queue ≡ first_post.1.shared.queue)
unfolding find_endpoint event_of_key find_event find_delivery has_delivery
post_events-post_events_example =
    post_events-post_events defaults inputs later_inputs world request request_again key_two paid
      refunded acme acme (refl, refl, refl, refl, refl) (refl, refl, refl, refl, refl) refl refl
      refl refl refl refl refl refl refl refl

-- The request for an endpoint that is not there, while Postgres is out of reach.
abbrev unreachable : Inputs
unreachable = record inputs { faults = λ n. if n == 1 then refused reset else fine }

abbrev lost_request : EventRequest
lost_request = record request { body = some (record paid { endpoint_id = 9 }) }

post_events-refused_example :
    let (answer, after) = post_events defaults lost_request (calm unreachable) (start world) in
    (answer ≡ err (app_error 503 storage_unavailable)) × (after.shared ≡ world)
unfolding first_failing
post_events-refused_example =
    post_events-refused defaults unreachable world reset lost_request true
      (app_error 503 storage_unavailable) refl refl refl
