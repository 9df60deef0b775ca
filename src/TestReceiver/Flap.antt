-- ===== src/TestReceiver/Flap.antt =====
-- POST /flap/:n over any sequence of calls.
use webhook_delivery_engine.Prelude.{
  inl, ap, ◌∙◌, inr, Bool-cases, length, str_eq_iff, ◌-◌, All, ltb, refl, arith, ◌+◌, zero, some,
  str_eq, if◌then◌else◌, false, suc, ◌&&◌, [], or_else, ◌∷◌, true, ◌≡◌, Option, Bool, String, List,
  ℕ,
}
use webhook_delivery_engine.TestReceiver.{
  no_chaos, WebhookRequest, requests_call, chaos_call, timeout_call, fail_call, reset_call,
  reply_status, ok_call, map_get, number_or, log_entry, handle, Receiver, flap_call, Platform,
  ReceiverCall,
}

abbrev pub TimedCall : Type 0
TimedCall = ReceiverCall × ℕ

abbrev pub count_of : String → Receiver → ℕ
count_of key s = or_else (map_get key s.flap_counts) 0

abbrev pub is_reset : ReceiverCall → Bool
is_reset reset_call = true
is_reset _ = false

-- So many failures, if there are so many answers, and then successes.
unfoldable pub failures_then_successes : ℕ → ℕ → List (Option ℕ)
failures_then_successes m zero = []
failures_then_successes zero (suc k) = some 200 ∷ failures_then_successes zero k
failures_then_successes (suc m) (suc k) = some 503 ∷ failures_then_successes m k

module _ (p : Platform) (secret : String) (key : String) where
  -- A call of /flap with a valid signature and this id.
  abbrev pub is_flap : TimedCall → Bool
  is_flap (flap_call n req, now) =
      let entry = log_entry p secret now req in
      entry.valid_signature && str_eq (or_else entry.id "unknown") key
  is_flap _ = false

  -- Its number of failures is `n`.
  abbrev pub FailsFor : ℕ → TimedCall → Type 0
  FailsFor n (flap_call m req, now) = is_flap (flap_call m req, now) ≡ true → number_or 0 m ≡ n
  FailsFor n _ = Unit

  -- The status codes of the answers to these calls.
  unfoldable pub flap_codes : List TimedCall → Receiver → List (Option ℕ)
  unfolding handle
  flap_codes [] s = []
  flap_codes (call ∷ calls) s =
      let (answer, s') = handle p secret call.0 call.1 s in
      let rest = flap_codes calls s' in if is_flap call then reply_status answer ∷ rest else rest

  handle-count :
      (call : TimedCall) (s : Receiver)
      → is_reset call.0 ≡ false
      → is_flap call ≡ false
      → count_of key (handle p secret call.0 call.1 s).1 ≡ count_of key s
  unfolding handle
  handle-count (ok_call req, now) s r h = ground arith
  handle-count (fail_call status req, now) s r h = ground arith
  handle-count (timeout_call ms req, now) s r h = ground arith
  handle-count (flap_call n req, now) s r h = ground arith
  handle-count (chaos_call q roll req, now) s r h = ground arith
  handle-count (requests_call id, now) s r h = refl
  handle-count (reset_call, now) s r h = ground arith

  flap-valid :
      (m : Option ℕ) (req : WebhookRequest) (now : ℕ)
      → is_flap (flap_call m req, now) ≡ true
      → (log_entry p secret now req).valid_signature ≡ true
  flap-valid m req now h = ground arith

  flap-key :
      (m : Option ℕ) (req : WebhookRequest) (now : ℕ)
      → is_flap (flap_call m req, now) ≡ true
      → or_else (log_entry p secret now req).id "unknown" ≡ key
  flap-key m req now h = (str_eq_iff _ key).0 (ground arith)

  handle-failure :
      (n : ℕ) (call : TimedCall) (s : Receiver)
      → FailsFor n call
      → is_flap call ≡ true
      → ltb (count_of key s) n ≡ true
      → (reply_status (handle p secret call.0 call.1 s).0 ≡ some 503)
        × (count_of key (handle p secret call.0 call.1 s).1 ≡ count_of key s + 1)
  unfolding handle
  handle-failure n (flap_call m req, now) s f h lt =
      rw (flap-valid m req now h, flap-key m req now h, f h, lt)
        (refl, rw ((str_eq_iff key key).1 refl) refl)
  handle-failure n (ok_call req, now) s f h lt = ground arith
  handle-failure n (fail_call m req, now) s f h lt = ground arith
  handle-failure n (timeout_call m req, now) s f h lt = ground arith
  handle-failure n (chaos_call q m req, now) s f h lt = ground arith
  handle-failure n (requests_call m, now) s f h lt = ground arith
  handle-failure n (reset_call, now) s f h lt = ground arith

  handle-recovered :
      (n : ℕ) (call : TimedCall) (s : Receiver)
      → FailsFor n call
      → is_flap call ≡ true
      → ltb (count_of key s) n ≡ false
      → (reply_status (handle p secret call.0 call.1 s).0 ≡ some 200)
        × (count_of key (handle p secret call.0 call.1 s).1 ≡ count_of key s)
  unfolding handle
  handle-recovered n (flap_call m req, now) s f h lt =
      rw (flap-valid m req now h, flap-key m req now h, f h, lt) (refl, refl)
  handle-recovered n (ok_call req, now) s f h lt = ground arith
  handle-recovered n (fail_call m req, now) s f h lt = ground arith
  handle-recovered n (timeout_call m req, now) s f h lt = ground arith
  handle-recovered n (chaos_call q m req, now) s f h lt = ground arith
  handle-recovered n (requests_call m, now) s f h lt = ground arith
  handle-recovered n (reset_call, now) s f h lt = ground arith

  more_failures : (n c : ℕ) → ltb c n ≡ true → n - c ≡ suc (n - (c + 1))
  more_failures n c h = ground arith

  no_failures : (n c : ℕ) → ltb c n ≡ false → n - c ≡ 0
  no_failures n c h = ground arith

  flap-recovers :
      (n : ℕ) (calls : List TimedCall) (s : Receiver)
      → All (λ call. is_reset call.0 ≡ false) calls
      → All (FailsFor n) calls
      → flap_codes calls s
        ≡ failures_then_successes (n - count_of key s) (length (flap_codes calls s))
  unfolding flap_codes failures_then_successes
  flap-recovers n [] s no_reset same = refl
  flap-recovers n (call ∷ calls) s no_reset same = elim (Bool-cases (is_flap call)) [
    | inr other ↦ rw other (
        flap-recovers n calls s' no_reset.1 same.1
        ∙ ap (λ c. failures_then_successes (n - c) (length (flap_codes calls s')))
            (handle-count call s no_reset.0 other))
    | inl flap ↦ elim (Bool-cases (ltb (count_of key s) n)) [
      | inl fails ↦
          let (code, count) = handle-failure n call s same.0 flap fails in
          rw (flap, code, more_failures n (count_of key s) fails)
            (ap (λ l. some 503 ∷ l)
              (flap-recovers n calls s' no_reset.1 same.1
                ∙ ap (λ c. failures_then_successes (n - c) (length (flap_codes calls s'))) count))
      | inr recovers ↦
          let (code, count) = handle-recovered n call s same.0 flap recovers in
          rw (flap, code, no_failures n (count_of key s) recovers)
            (ap (λ l. some 200 ∷ l)
              (flap-recovers n calls s' no_reset.1 same.1
                ∙ ap (λ c. failures_then_successes (n - c) (length (flap_codes calls s'))) count
                ∙ ap (λ m. failures_then_successes m (length (flap_codes calls s')))
                    (no_failures n (count_of key s) recovers)))
    ]
  ]
    where
      s' : Receiver
      s' = (handle p secret call.0 call.1 s).1

  -- From a reset on, in any calls without another reset whose valid requests to /flap with one id ask for
  -- `n` failures: the first `n` of these are answered with 503, and all others with 200.
  pub flap_codes-failures_then_successes :
      (n : ℕ) (calls : List TimedCall) (s : Receiver)
      → All (λ call. is_reset call.0 ≡ false) calls
      → All (FailsFor n) calls
      → flap_codes calls (handle p secret reset_call 0 s).1
        ≡ failures_then_successes n (length (flap_codes calls (handle p secret reset_call 0 s).1))
  unfolding handle
  flap_codes-failures_then_successes n calls s no_reset same =
      let cleared : Receiver = record {
        request_log = [];
        flap_counts = [];
        chaos_config = no_chaos;
      } in
      flap-recovers n calls cleared no_reset same
      ∙ ap (λ m. failures_then_successes m (length (flap_codes calls cleared))) (omega arith)
