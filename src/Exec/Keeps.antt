-- ===== src/Exec/Keeps.antt =====
-- What a program keeps true of the database, whatever fails and whatever the other processes do,
-- as long as those keep it too: one rule for each way to build a program.
use webhook_delivery_engine.Prelude.{ℕ, ◌+◌, ◌≡◌, Bool, true, false, if◌then◌else◌}
use webhook_delivery_engine.Redis.{Redis}
use webhook_delivery_engine.Queue.{Bull}
use webhook_delivery_engine.Db.{Db}
use webhook_delivery_engine.Exec.{
  M, Env, Run, Shared, Result, ok, err, Failure, app_error, delayed, attempt_failed, deliver_error,
  thrown, violation, crashed, Fault, fine, dies, refused, reply_lost, perform, committed, db_after,
  continue, finish, await, pure, throw, date_now, asks, emit, set_endpoint_id, set_bucket_acquired,
  get_locals, ◌>>=◌, capture, try_finally, with_tx, query, redis_command, queue_command,
  dlq_command,
}

-- The other processes keep `D`.
abbrev pub IsReliable : {r : Redis} {b : Bull} → Env r b → (Db → Type 0) → Type 0
IsReliable {r} {b} e D = (step : ℕ) (s : Shared r b) → D s.db → D (e.others step s).db

pub record Keeps {r : Redis} {b : Bull} {A : Type 0} (e : Env r b) (D : Db → Type 0) (m : M r b A)
    : Type 0 where
  pub at : (run : Run r b) → D run.shared.db → D (m e run).1.shared.db

module _ {r : Redis} {b : Bull} {e : Env r b} {D : Db → Type 0} where
  pub Keeps-pure : {A : Type 0} (a : A) → Keeps e D (pure a)
  unfolding pure
  Keeps-pure a = record { at = λ run h. h }

  pub Keeps-throw : {A : Type 0} (f : Failure) → Keeps e D (throw {A = A} f)
  unfolding throw
  Keeps-throw f = record { at = λ run h. h }

  pub Keeps-date_now : Keeps e D date_now
  unfolding date_now
  Keeps-date_now = record { at = λ run h. h }

  pub Keeps-asks : {A : Type 0} (f : Env r b → ℕ → A) → Keeps e D (asks f)
  unfolding asks
  Keeps-asks f = record { at = λ run h. h }

  pub Keeps-emit :
      (f : Shared r b → Shared r b) → ((s : Shared r b) → (f s).db ≡ s.db) → Keeps e D (emit f)
  unfolding emit
  Keeps-emit f same = record { at = λ run h. rw same h }

  pub Keeps-set_endpoint_id : (id : ℕ) → Keeps e D (set_endpoint_id id)
  unfolding set_endpoint_id
  Keeps-set_endpoint_id id = record { at = λ run h. h }

  pub Keeps-set_bucket_acquired : (flag : Bool) → Keeps e D (set_bucket_acquired flag)
  unfolding set_bucket_acquired
  Keeps-set_bucket_acquired flag = record { at = λ run h. h }

  pub Keeps-get_locals : Keeps e D get_locals
  unfolding get_locals
  Keeps-get_locals = record { at = λ run h. h }

  pub Keeps-if :
      {A : Type 0} (t : Bool) (m n : M r b A)
      → Keeps e D m
      → Keeps e D n
      → Keeps e D (if t then m else n)
  Keeps-if true m n km kn = km
  Keeps-if false m n km kn = kn

module _ {r : Redis} {b : Bull} {e : Env r b} {D : Db → Type 0} {A B : Type 0} where
  continue-keeps :
      (a : Result A) (k : A → M r b B) (run : Run r b)
      → ((x : A) → Keeps e D (k x))
      → D run.shared.db
      → D (continue a k e run).1.shared.db
  continue-keeps (ok x) k run kk h = (kk x).at run h
  continue-keeps (err f) k run kk h = h

  pub Keeps-bind :
      (m : M r b A) (k : A → M r b B)
      → Keeps e D m
      → ((x : A) → Keeps e D (k x))
      → Keeps e D (m >>= k)
  unfolding ◌>>=◌
  Keeps-bind m k km kk = record {
    at = λ run h. continue-keeps (m e run).0 k (m e run).1 kk (km.at run h);
  }

module _ {r : Redis} {b : Bull} {A : Type 0} (D : Db → Type 0) where
  perform-keeps :
      (fault : Fault) (f : ℕ → Shared r b → Result A × Shared r b) (now : ℕ) (s : Shared r b)
      → ((now : ℕ) (s : Shared r b) → D s.db → D (f now s).1.db)
      → D s.db
      → D (perform fault f now s).1.db
  perform-keeps fine f now s kf h = kf now s h
  perform-keeps dies f now s kf h = h
  perform-keeps (refused t) f now s kf h = h
  perform-keeps (reply_lost t) f now s kf h = kf now s h

  committed-keeps :
      (a : Result (A × Db)) (s : Shared r b) → D (db_after s.db a) → D (committed a s).1.db
  committed-keeps (ok (a, db)) s h = h
  committed-keeps (err f) s h = h

module _ {r : Redis} {b : Bull} {e : Env r b} {D : Db → Type 0} {A : Type 0} where
  pub Keeps-capture : (m : M r b A) → Keeps e D m → Keeps e D (capture m)
  unfolding capture
  Keeps-capture m km = record { at = λ run h. km.at run h }

  finish-keeps :
      (a : Result A) (f : M r b (Unit {0})) (run : Run r b)
      → Keeps e D f
      → D run.shared.db
      → D (finish a f e run).1.shared.db
  finish-keeps (ok a) f run kf h = kf.at run h
  finish-keeps (err delayed) f run kf h = kf.at run h
  finish-keeps (err (attempt_failed x)) f run kf h = kf.at run h
  finish-keeps (err (deliver_error x y)) f run kf h = kf.at run h
  finish-keeps (err (thrown t)) f run kf h = kf.at run h
  finish-keeps (err violation) f run kf h = kf.at run h
  finish-keeps (err (app_error status_code code)) f run kf h = kf.at run h
  finish-keeps (err crashed) f run kf h = h

  pub Keeps-try_finally :
      (m : M r b A) (f : M r b (Unit {0})) → Keeps e D m → Keeps e D f → Keeps e D (try_finally m f)
  unfolding try_finally
  Keeps-try_finally m f km kf = record {
    at = λ run h. finish-keeps (m e run).0 f (m e run).1 kf (km.at run h);
  }

  pub Keeps-await :
      (f : ℕ → Shared r b → Result A × Shared r b)
      → IsReliable e D
      → ((now : ℕ) (s : Shared r b) → D s.db → D (f now s).1.db)
      → Keeps e D (await f)
  unfolding await
  Keeps-await f rely kf = record {
    at = λ run h.
        perform-keeps D (e.faults run.step) f (e.time run.step) _ kf (rely run.step run.shared h);
  }

  pub Keeps-with_tx :
      (body : ℕ → Db → Result (A × Db))
      → IsReliable e D
      → ((now : ℕ) (db : Db) → D db → D (db_after db (body now db)))
      → Keeps e D (with_tx body)
  unfolding with_tx
  Keeps-with_tx body rely kept =
      Keeps-await _ rely λ now s h. committed-keeps D (body now s.db) s (kept now s.db h)

  pub Keeps-query : (f : Db → A) → IsReliable e D → Keeps e D (query f)
  unfolding query
  Keeps-query f rely = Keeps-await _ rely λ now s h. h

  pub Keeps-redis_command :
      (f : ℕ → r.State → A × r.State) → IsReliable e D → Keeps e D (redis_command f)
  unfolding redis_command
  Keeps-redis_command f rely = Keeps-await _ rely λ now s h. h

module _ {r : Redis} {b : Bull} {e : Env r b} {D : Db → Type 0} where
  pub Keeps-queue_command : (f : b.State → b.State) → IsReliable e D → Keeps e D (queue_command f)
  unfolding queue_command
  Keeps-queue_command f rely = Keeps-await _ rely λ now s h. h

  pub Keeps-dlq_command : (f : b.State → b.State) → IsReliable e D → Keeps e D (dlq_command f)
  unfolding dlq_command
  Keeps-dlq_command f rely = Keeps-await _ rely λ now s h. h

-- A read tells the rest of the program something that stays true.
module _ {r : Redis} {b : Bull} {e : Env r b} {D : Db → Type 0} {A B : Type 0}
    (D' : A → Db → Type 0) where
  pub Keeps-bind-query :
      (f : Db → A) (k : A → M r b B)
      → IsReliable e D
      → ((db : Db) → D db → D' (f db) db)
      → ((a : A) (db : Db) → D' a db → D db)
      → ((a : A) → Keeps e (D' a) (k a))
      → Keeps e D (query f >>= k)
  unfolding ◌>>=◌ query await
  Keeps-bind-query f k rely learn forget kk = record {
    at = λ run h.
        read run (e.faults run.step) (e.others run.step run.shared) (rely run.step run.shared h);
  }
    where
      read :
          (run : Run r b) (fault : Fault) (s : Shared r b)
          → D s.db
          → let (a, s') = perform {A = A} fault (λ now s. (ok (f s.db), s)) (e.time run.step) s in
            D (continue a k e (record run { shared = s'; step = run.step + 1 })).1.shared.db
      read run fine s h = forget (f s.db) _ ((kk (f s.db)).at _ (learn s.db h))
      read run dies s h = h
      read run (refused t) s h = h
      read run (reply_lost t) s h = h

pub ruleset keeps_rules = (
  Keeps-pure, Keeps-throw, Keeps-date_now, Keeps-asks, Keeps-set_endpoint_id,
  Keeps-set_bucket_acquired, Keeps-get_locals, Keeps-if, Keeps-bind, Keeps-capture,
  Keeps-try_finally, Keeps-query, Keeps-redis_command, Keeps-queue_command, Keeps-dlq_command,
)
