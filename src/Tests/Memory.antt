-- ===== src/Tests/Memory.antt =====
-- A Redis and a BullMQ in memory: the interfaces can be met.
use mathlib.Core.Option
use webhook_delivery_engine.Prelude.{
  ℕ, ◌+◌, ◌≤◌, ◌≡◌, refl, Bool, true, false, ltb, if◌then◌else◌, Option, none, some, or_else, List,
  [], ◌∷◌, arith, Option-cases, Bool-cases, inl, inr,
}
use webhook_delivery_engine.Redis.{Redis, Key, key_eq}
use webhook_delivery_engine.Queue.{Bull, JobId, job_id_eq}

-- A value, and the time at which it expires.
abbrev pub Entry : Type 0
Entry = Option (ℕ × Option ℕ)

abbrev pub Keyspace : Type 0
Keyspace = Key → Entry

abbrev pub visible : ℕ → Entry → Option ℕ
visible t none = none
visible t (some (v, none)) = some v
visible t (some (v, some end)) = if ltb t end then some v else none

abbrev pub put : Key → Entry → Keyspace → Keyspace
put k entry s j = if key_eq k j then entry else s j

abbrev pub get : ℕ → Key → Keyspace → Option ℕ
get t k s = visible t (s k)

abbrev pub set : ℕ → Key → ℕ → ℕ → Keyspace → Keyspace
set now k v ttl s = put k (some (v, some (now + ttl))) s

abbrev pub set_nx : ℕ → Key → ℕ → ℕ → Keyspace → Bool × Keyspace
set_nx now k v ttl s = elim (get now k s) [ none ↦ (true, set now k v ttl s) | some _ ↦ (false, s) ]

abbrev pub kept : ℕ → Entry → Option ℕ
kept now none = none
kept now (some (v, none)) = none
kept now (some (v, some end)) = if ltb now end then some end else none

abbrev pub hset : ℕ → Key → ℕ → Keyspace → Keyspace
hset now k v s = put k (some (v, kept now (s k))) s

abbrev pub expire : ℕ → Key → ℕ → Keyspace → Bool × Keyspace
expire now k ttl s = elim (get now k s) [
  | none ↦ (false, s)
  | some v ↦ (true, put k (some (v, some (now + ttl))) s)
]

pub set_nx_free_lem :
    (now : ℕ) (k : Key) (v ttl : ℕ) (s : Keyspace)
    → get now k s ≡ none
    → set_nx now k v ttl s ≡ (true, set now k v ttl s)
set_nx_free_lem now k v ttl s e = rw (e, set_nx) refl

pub set_nx_held_lem :
    (now : ℕ) (k : Key) (v ttl : ℕ) (s : Keyspace) {w : ℕ}
    → get now k s ≡ some w
    → set_nx now k v ttl s ≡ (false, s)
set_nx_held_lem now k v ttl s e = rw (e, set_nx) refl

pub get-set_lem :
    (t now : ℕ) (j k : Key) (v ttl : ℕ) (s : Keyspace)
    → get t j (set now k v ttl s)
      ≡ (if key_eq k j then (if ltb t (now + ttl) then some v else none) else get t j s)
get-set_lem t now j k v ttl s = elim (Bool-cases (key_eq k j)) [
  | inl e ↦ rw e refl
  | inr e ↦ rw e refl
]

pub get-del_lem :
    (t : ℕ) (j k : Key) (s : Keyspace)
    → get t j (put k none s) ≡ (if key_eq k j then none else get t j s)
get-del_lem t j k s = elim (Bool-cases (key_eq k j)) [ inl e ↦ rw e refl | inr e ↦ rw e refl ]

visible-kept :
    (t now v : ℕ) (x : Entry)
    → now ≤ t
    → visible t (some (v, kept now x))
      ≡ elim (visible now x) [ none ↦ some v | some _ ↦ Option.map (λ _. v) (visible t x) ]
visible-kept t now v none le = refl
visible-kept t now v (some (w, none)) le = refl
visible-kept t now v (some (w, some end)) le = ground arith

pub get-hset_lem :
    (t now : ℕ) (j k : Key) (v : ℕ) (s : Keyspace)
    → now ≤ t
    → get t j (hset now k v s) ≡ (
        if key_eq k j
        then elim (get now k s) [ none ↦ some v | some _ ↦ Option.map (λ _. v) (get t k s) ]
        else get t j s)
get-hset_lem t now j k v s le = elim (Bool-cases (key_eq k j)) [
  | inl e ↦ rw e (visible-kept t now v (s k) le)
  | inr e ↦ rw e refl
]

pub expire_flag_lem :
    (now : ℕ) (k : Key) (ttl : ℕ) (s : Keyspace)
    → (expire now k ttl s).0 ≡ elim (get now k s) [ none ↦ false | some _ ↦ true ]
expire_flag_lem now k ttl s = elim (Option-cases (get now k s)) [
  | inl e ↦ rw (e, expire) refl
  | inr (v, e) ↦ rw (e, expire) refl
]

pub get-expire_lem :
    (t now : ℕ) (j k : Key) (ttl : ℕ) (s : Keyspace)
    → get t j (expire now k ttl s).1 ≡ (
        if key_eq k j
        then elim (get now k s) [
          | none ↦ get t j s
          | some v ↦ if ltb t (now + ttl) then some v else none
        ]
        else get t j s)
get-expire_lem t now j k ttl s = elim (Bool-cases (key_eq k j)) [
  | inl e ↦ elim (Option-cases (get now k s)) [
    | inl g ↦ rw (e, g, expire) refl
    | inr (v, g) ↦ rw (e, g, expire) (rw e refl)
  ]
  | inr e ↦ elim (Option-cases (get now k s)) [
    | inl g ↦ rw (e, g, expire) refl
    | inr (v, g) ↦ rw (g, expire) (rw e refl)
  ]
]

pub get_later_lem : (t now : ℕ) (x : Entry) → now ≤ t → visible now x ≡ none → visible t x ≡ none
get_later_lem t now none le e = refl
get_later_lem t now (some (v, none)) le e = e
get_later_lem t now (some (v, some end)) le e = ground arith

abbrev pub memory : Redis
memory = record {
  State = Keyspace;
  get = get;
  set = set;
  set_nx = set_nx;
  incr = λ now k s. (or_else (get now k s) 0 + 1, hset now k (or_else (get now k s) 0 + 1) s);
  hset = hset;
  expire = expire;
  del = λ k s. put k none s;
  get-set = get-set_lem;
  set_nx_free = set_nx_free_lem;
  set_nx_held = set_nx_held_lem;
  get-del = get-del_lem;
  incr_lem = λ now k s. refl;
  get-hset = get-hset_lem;
  expire_flag = expire_flag_lem;
  get-expire = get-expire_lem;
  get_later = λ t now k s. get_later_lem t now (s k);
}

abbrev pub empty_keys : Keyspace
empty_keys k = none

-- Jobs with the delivery that each is about, and whether it will still run.
abbrev pub Jobs : Type 0
Jobs = List (JobId × ℕ × Bool)

abbrev pub job : JobId → Jobs → Option ℕ
job i [] = none
job i ((j, d, live) ∷ jobs) = if job_id_eq j i then some d else job i jobs

abbrev pub is_live : JobId → Jobs → Bool
is_live i [] = false
is_live i ((j, d, live) ∷ jobs) = if job_id_eq j i then live else is_live i jobs

abbrev pub add : JobId → ℕ → Jobs → Jobs
add j d jobs = elim (job j jobs) [ none ↦ (j, d, true) ∷ jobs | some _ ↦ jobs ]

pub add_known_lem :
    (j : JobId) (d : ℕ) (jobs : Jobs) {e : ℕ} → job j jobs ≡ some e → add j d jobs ≡ jobs
add_known_lem j d jobs e = rw (e, add) refl

pub job-add_lem :
    (i j : JobId) (d : ℕ) (jobs : Jobs)
    → job j jobs ≡ none
    → job i (add j d jobs) ≡ (if job_id_eq j i then some d else job i jobs)
job-add_lem i j d jobs e = rw (e, add) refl

pub is_live-add_lem :
    (i j : JobId) (d : ℕ) (jobs : Jobs)
    → job j jobs ≡ none
    → is_live i (add j d jobs) ≡ (if job_id_eq j i then true else is_live i jobs)
is_live-add_lem i j d jobs e = rw (e, add) refl

abbrev pub local_queue : Bull
local_queue = record {
  State = Jobs;
  job = job;
  is_live = is_live;
  add = add;
  move_to_delayed = λ j timestamp jobs. jobs;
  add_known = add_known_lem;
  job-add = job-add_lem;
  is_live-add = is_live-add_lem;
  job-move_to_delayed = λ i j timestamp jobs. refl;
}
