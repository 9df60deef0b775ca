-- ===== src/Db/Deliveries/Claim.antt =====
-- What the reconciler's claim promises.
use mathlib.Core.Option
use webhook_delivery_engine.Prelude.{
  Any-map, not, true, where_rows, ◌<◌, some, ◌&&◌, ap, Any, map, ℕ, ◌≡◌, ◌≤◌, refl, Bool, ◌==◌,
  ◌||◌, if◌then◌else◌, Option, List, [], ◌∷◌, arith, Option-cases, inl, inr, is_some, length,
  length-take, ◌∙◌,
}
use webhook_delivery_engine.Redis.{Redis}
use webhook_delivery_engine.Queue.{Bull, original}
use webhook_delivery_engine.Db.{Delivery, find_delivery, update_delivery}
use webhook_delivery_engine.Db.Rows.{find-update_delivery}
use webhook_delivery_engine.Db.Deliveries.{
  is_stuck, claim_rows, set_enqueued, claim_tx, claimed, stuck_ids,
}
use webhook_delivery_engine.Exec.{Result, ok, err, Failure, Thrown, Shared}
use webhook_delivery_engine.Db.Deliveries.Stuck.{
  rows-among, take-short, is_among-take, among-rows, claimable, MayClaim, is_among,
}

abbrev pub marked : Bool → ℕ → Option Delivery → Option Delivery
marked b now row = if b then Option.map (set_enqueued now) row else row

marked-marked :
    (a b : Bool) (now : ℕ) (row : Option Delivery)
    → marked b now (if a then Option.map (set_enqueued now) row else row) ≡ marked (a || b) now row
marked-marked a b now row = ground arith

-- The delivery of a job id after its adding, if it was added: a known job stays.
abbrev pub added : Bool → ℕ → Option ℕ → Option ℕ
added adds id known = if adds && not (is_some known) then some id else known

abbrev pub revived : Bool → Option ℕ → Bool → Bool
revived adds known live = (adds && not (is_some known)) || live

added-added :
    (a b : Bool) (id : ℕ) (known : Option ℕ)
    → added a id (added b id known) ≡ added (b || a) id known
added-added a b id known = ground arith

revived-revived :
    (a b : Bool) (id : ℕ) (known : Option ℕ) (live : Bool)
    → revived a (added b id known) (revived b known live) ≡ revived (b || a) known live
revived-revived a b id known live = ground arith

module _ (b : Bull) where
  open b use {State, job, is_live, add, add_known, job-add, is_live-add}

  -- Adding a job that is not known yet makes it one of the delivery, and live; a known job stays as it is.
  job-added :
      (i j : ℕ) (q : State)
      → job (original i) (add (original j) j q) ≡ added (j == i) i (job (original i) q)
  job-added i j q = elim (Option-cases (job (original j) q)) [
    | inl new ↦ ground (arith, job-add (original i) (original j) j q new)
    | inr (d, known) ↦ ground (arith, add_known (original j) j q known)
  ]

  is_live-added :
      (i j : ℕ) (q : State)
      → is_live (original i) (add (original j) j q)
        ≡ revived (j == i) (job (original i) q) (is_live (original i) q)
  is_live-added i j q = elim (Option-cases (job (original j) q)) [
    | inl new ↦ ground (arith, is_live-add (original i) (original j) j q new)
    | inr (d, known) ↦ ground (arith, add_known (original j) j q known)
  ]

  module _ (fails : ℕ → Option Thrown) (now : ℕ) (id : ℕ) where
    claim_rows-row :
        (ids : List ℕ) (ds ds' : List Delivery) (q q' : State)
        → claim_rows b fails now ids ds q ≡ (ok ds', q')
        → find_delivery id ds' ≡ marked (is_among id ids) now (find_delivery id ds)
    unfolding claim_rows is_among
    claim_rows-row [] ds ds' q q' e = ground arith
    claim_rows-row (j ∷ ids) ds ds' q q' e =
        let rest =
          claim_rows-row ids (update_delivery j (set_enqueued now) ds) ds' (add (original j) j q) q'
            (ground arith) in
        rw find-update_delivery at rest
        ∙ marked-marked (j == id) (is_among id ids) now (find_delivery id ds)

    claim_rows-job :
        (ids : List ℕ) (ds ds' : List Delivery) (q q' : State)
        → claim_rows b fails now ids ds q ≡ (ok ds', q')
        → (job (original id) q' ≡ added (is_among id ids) id (job (original id) q))
          × (is_live (original id) q'
              ≡ revived (is_among id ids) (job (original id) q) (is_live (original id) q))
    unfolding claim_rows is_among
    claim_rows-job [] ds ds' q q' e = ground arith
    claim_rows-job (j ∷ ids) ds ds' q q' e =
        let rest =
          claim_rows-job ids (update_delivery j (set_enqueued now) ds) ds' (add (original j) j q) q'
            (ground arith) in
        (
          rest.0
              ∙ ap (added (is_among id ids) id) (job-added id j q)
              ∙ added-added (is_among id ids) (j == id) id (job (original id) q),
          rest.1
              ∙ ap (λ l. revived (is_among id ids) (job (original id) (add (original j) j q)) l)
                  (is_live-added id j q)
              ∙ ap
                  (λ o.
                    revived (is_among id ids) o
                      (revived (j == id) (job (original id) q) (is_live (original id) q)))
                  (job-added id j q)
              ∙ revived-revived (is_among id ids) (j == id) id (job (original id) q)
                  (is_live (original id) q),
        )

module _ {r : Redis} {b : Bull} where
  -- What a sweep leaves: the picked rows marked as enqueued, every other row as it was; for each picked
  -- row whose job was not known a job of this delivery that is live, and every other job as it was.
  pub record IsClaim (ids : List ℕ) (now : ℕ) (s s' : Shared r b) : Type 0 where
    pub row :
        (id : ℕ)
        → find_delivery id s'.db.deliveries
          ≡ marked (is_among id ids) now (find_delivery id s.db.deliveries)
    pub job_of :
        (id : ℕ)
        → (b.job (original id) s'.queue ≡ added (is_among id ids) id (b.job (original id) s.queue))
          × (b.is_live (original id) s'.queue
              ≡ revived
                  (is_among id ids)
                  (b.job (original id) s.queue)
                  (b.is_live (original id) s.queue))

  -- A sweep that succeeds picks at most the batch size of rows, each of them stuck and not locked by others,
  -- and all such rows if these are fewer. It counts the picked rows, marks exactly these as enqueued, and
  -- adds a live job for each of which no job is known; where one is known, a finished one included, it adds
  -- nothing. A sweep that fails leaves the database as it was.
  pub claim_tx-IsClaim :
      (grace_seconds limit : ℕ) (locked : ℕ → Bool) (fails : ℕ → Option Thrown) (now : ℕ)
      (s : Shared r b)
      → let (result, s') = claim_tx grace_seconds limit locked fails now s in
        ((n : ℕ)
          → result ≡ ok n
          → (ids : List ℕ) × (n ≡ length ids)
            × (n ≤ limit)
            × ((id : ℕ)
                → is_among id ids ≡ true
                → Any (MayClaim grace_seconds now locked id) s.db.deliveries)
            × (n < limit
                → (id : ℕ) → Any (MayClaim grace_seconds now locked id) s.db.deliveries
                → is_among id ids ≡ true)
            × IsClaim ids now s s')
        × ((f : Failure) → result ≡ err f → s'.db ≡ s.db)
  unfolding claim_tx stuck_ids is_stuck
  claim_tx-IsClaim grace_seconds limit locked fails now s =
      after (claim_rows b fails now ids s.db.deliveries s.queue) refl
    where
      stuck : Delivery → Bool
      stuck d = is_stuck grace_seconds now d && not (locked d.id)

      ids : List ℕ
      ids = stuck_ids grace_seconds limit now locked s.db.deliveries

      few : length ids ≤ limit
      few = length-take limit _

      picked :
          (id : ℕ)
          → is_among id ids ≡ true
          → Any (MayClaim grace_seconds now locked id) s.db.deliveries
      picked id e =
          Any-map s.db.deliveries (λ d. (claimable grace_seconds now locked id d).0)
            (among-rows stuck id s.db.deliveries (is_among-take id limit _ e))

      complete :
          length ids < limit
          → (id : ℕ) → Any (MayClaim grace_seconds now locked id) s.db.deliveries
          → is_among id ids ≡ true
      complete short id h =
          rw (take-short limit (map (λ d. d.id) (where_rows stuck s.db.deliveries)) short) (
            rows-among stuck id s.db.deliveries
              (Any-map s.db.deliveries (λ d. (claimable grace_seconds now locked id d).1) h))

      after :
          (found : Result (List Delivery) × b.State)
          → claim_rows b fails now ids s.db.deliveries s.queue ≡ found
          → let (result, s') = (let (ds, q) = found in claimed ds q (length ids) s) in
            ((n : ℕ)
              → result ≡ ok n
              → (ids : List ℕ) × (n ≡ length ids)
                × (n ≤ limit)
                × ((id : ℕ)
                    → is_among id ids ≡ true
                    → Any (MayClaim grace_seconds now locked id) s.db.deliveries)
                × (n < limit
                    → (id : ℕ) → Any (MayClaim grace_seconds now locked id) s.db.deliveries
                    → is_among id ids ≡ true)
                × IsClaim ids now s s')
            × ((f : Failure) → result ≡ err f → s'.db ≡ s.db)
      after (err f, q) e = (λ n h. cc, λ g h. refl)
      after (ok ds, q) e = (
        λ n h. (
          ids,
          cc,
          ground (arith, few),
          picked,
          (λ less. complete (ground arith)),
          record {
            row = λ id. claim_rows-row b fails now id ids _ ds _ q e;
            job_of = λ id. claim_rows-job b fails now id ids _ ds _ q e;
          },
        ),
        λ g h. cc,
      )
