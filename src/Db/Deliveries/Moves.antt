-- ===== src/Db/Deliveries/Moves.antt =====
-- What a transition that the schema accepts leaves.
use webhook_delivery_engine.Prelude.{ℕ, ◌≡◌, refl, true, some, ◌∷◌, arith, is_some, ==_refl}
use webhook_delivery_engine.Db.{
  Db, Status, Actor, Reason, find_delivery, update_delivery, insert_transition,
}
use webhook_delivery_engine.Db.Rows.{status_of, is_some-update_delivery, status_of-update_delivery}
use webhook_delivery_engine.Db.Deliveries.{
  DeliveryForWorker, transition_tx, set_status, select_for_delivery,
}
use webhook_delivery_engine.Exec.{ok}

unfoldable pub moved : ℕ → Status → Status → Actor → Reason → ℕ → Db → Db
moved id from to actor reason now db = record db {
  deliveries = update_delivery id (set_status to now) db.deliveries;
  transitions =
      record {
        delivery_id = id;
        from_status = some from;
        to_status = to;
        reason = reason;
        actor = actor;
        created_at = now;
      }
      ∷ db.transitions;
}

pub moves :
    (id : ℕ) (from to : Status) (actor : Actor) (reason : Reason) (now : ℕ) (db : Db)
    → is_some (find_delivery id db.deliveries) ≡ true
    → transition_tx id from to actor reason now db ≡ ok (tt, moved id from to actor reason now db)
unfolding transition_tx moved insert_transition
moves id from to actor reason now db h =
    rw (is_some-update_delivery id id (set_status to now) db.deliveries (λ d. refl), h) refl

pub status_of-moved :
    (id : ℕ) (from to : Status) (actor : Actor) (reason : Reason) (now : ℕ) (db : Db)
    → is_some (find_delivery id db.deliveries) ≡ true
    → status_of id (moved id from to actor reason now db).deliveries ≡ some to
unfolding moved
status_of-moved id from to actor reason now db h =
    rw
      (
        status_of-update_delivery id id to (set_status to now) db.deliveries (λ d. refl)
            (λ d. refl),
        h,
        ==_refl id,
      )
      refl

pub selected :
    (id : ℕ) (db : Db) {d : DeliveryForWorker}
    → select_for_delivery id db ≡ some d
    → is_some (find_delivery id db.deliveries) ≡ true
unfolding select_for_delivery
selected id db e = ground arith

pub is_some-moved :
    (id : ℕ) (from to : Status) (actor : Actor) (reason : Reason) (now : ℕ) (db : Db)
    → is_some (find_delivery id (moved id from to actor reason now db).deliveries)
      ≡ is_some (find_delivery id db.deliveries)
unfolding moved
is_some-moved id from to actor reason now db =
    is_some-update_delivery id id (set_status to now) db.deliveries (λ d. refl)

pub attempts-moved :
    (id : ℕ) (from to : Status) (actor : Actor) (reason : Reason) (now : ℕ) (db : Db)
    → (moved id from to actor reason now db).attempts ≡ db.attempts
unfolding moved
attempts-moved id from to actor reason now db = refl
