-- ===== src/Dashboard/Table/Coherent.antt =====
-- What the table shows, whatever is rendered, polled, clicked and answered in whatever order.
use webhook_delivery_engine.Dashboard.Table.{
  load_clicked, polled, rendered, settle_request, ok, replied, err, load_more, arrive, table_after,
  table_step, TableEvent, Answer, more,
}
use text.Mathlib.TextPositions.{eq_refl}
use webhook_delivery_engine.Prelude.{
  one_if, ==→eq, ◌++◌, ◌==◌, ◌<◌, false, ap, ◌⊎◌, ◌∙◌, Bool, inr, zero, inl, refl, none, true,
  Bool-cases, ◌≤◌, [], ◌+◌, suc, some, ◌∷◌, arith, ◌≡◌, ℕ, Option, List, String,
}
use webhook_delivery_engine.Dashboard.Table.{
  keep_request, take_request, first_page, more_after, Table, run_effect, Request, mount, fetch1,
  RequestKind,
}
use webhook_delivery_engine.Dashboard.Filters.{build_params, Filters, same_deps}
use webhook_delivery_engine.Api.Query.{truthy, Params}
use webhook_delivery_engine.Api.Deliveries.{ListReply}
use webhook_delivery_engine.Exec.{Failure}

abbrev pub more_count : RequestKind → ℕ
more_count (first_page e) = 0
more_count more = 1

-- The requests of `loadMore` under way.
abbrev pub mores : List Request → ℕ
mores [] = 0
mores (q ∷ qs) = more_count q.kind + mores qs

-- A first page of the current effect is asked for with the filters of that effect.
abbrev pub AsksFor : (String → String) → ℕ → Filters → RequestKind → Params → Type 0
AsksFor to_iso effect f (first_page e) p =
    (e ≤ effect) × (e ≡ effect → p ≡ build_params to_iso f none)
AsksFor to_iso effect f more p = Unit

one_if-le : (b : Bool) → one_if b ≤ 1
one_if-le true = omega arith
one_if-le false = omega arith

module _ (P : RequestKind → Params → Type 0) where
  abbrev AllRequests : List Request → Type 0
  AllRequests [] = Unit
  AllRequests (q ∷ qs) = P q.kind q.params × AllRequests qs

  -- What is taken from the list was in it.
  abbrev WasTaken : List Request → Option (Request × List Request) → Type 0
  WasTaken qs none = Unit
  WasTaken qs (some (q, rest)) =
      P q.kind q.params × AllRequests rest × (mores qs ≡ more_count q.kind + mores rest)

  keep_request-WasTaken :
      (q : Request) (qs : List Request) (found : Option (Request × List Request))
      → P q.kind q.params
      → WasTaken qs found
      → WasTaken (q ∷ qs) (keep_request q found)
  keep_request-WasTaken q qs none h taken = tt
  keep_request-WasTaken q qs (some (p, rest)) h (first, others, count) =
      (first, (h, others), omega (arith, count))

  take_request-WasTaken :
      (n : ℕ) (qs : List Request) → AllRequests qs → WasTaken qs (take_request n qs)
  take_request-WasTaken n [] h = tt
  take_request-WasTaken zero (q ∷ qs) (h, hs) = (h, hs, refl)
  take_request-WasTaken (suc n) (q ∷ qs) (h, hs) =
      keep_request-WasTaken q qs (take_request n qs) h (take_request-WasTaken n qs hs)

same_deps_refl : (f : Filters) → same_deps f f ≡ true
unfolding same_deps
same_deps_refl f = rw (eq_refl, eq_refl, eq_refl, eq_refl) refl

module _ (to_iso : String → String) where
  abbrev Asked : ℕ → Filters → List Request → Type 0
  Asked effect f = AllRequests (AsksFor to_iso effect f)

  -- A new effect leaves the requests of the former ones behind.
  asked_before :
      (k : RequestKind) (p : Params) (effect : ℕ) (f g : Filters)
      → AsksFor to_iso effect f k p
      → AsksFor to_iso (effect + 1) g k p
  asked_before (first_page e) p effect f g (le, asks) = (omega arith, λ same. absurd (omega arith))
  asked_before more p effect f g h = tt

  all_asked_before :
      (effect : ℕ) (f g : Filters) (qs : List Request) → Asked effect f qs → Asked (effect + 1) g qs
  all_asked_before effect f g [] h = tt
  all_asked_before effect f g (q ∷ qs) (h, hs) =
      (asked_before q.kind q.params effect f g h, all_asked_before effect f g qs hs)

module _ {A : Type 0} (to_iso : String → String) where
  pub record IsCoherent (t : Table A) : Type 0 where
    pub asked : Asked to_iso t.effect t.effect_filters t.requests
    pub one : mores t.requests ≡ one_if t.loading
    pub same : same_deps t.effect_filters t.filters ≡ true

  mount-IsCoherent : (f : Filters) → IsCoherent (mount to_iso f)
  unfolding mount
  mount-IsCoherent f = record {
    asked = ((omega arith, λ same. refl), tt);
    one = omega arith;
    same = same_deps_refl f;
  }

  fetch1-IsCoherent : (t : Table A) → IsCoherent t → IsCoherent (fetch1 to_iso t)
  unfolding fetch1
  fetch1-IsCoherent t h = record {
    asked = ((omega arith, λ same. refl), h.asked);
    one = omega (arith, h.one);
    same = h.same;
  }

  run_effect-IsCoherent :
      (f : Filters) (t : Table A) → IsCoherent t → IsCoherent (run_effect to_iso f t)
  unfolding run_effect
  run_effect-IsCoherent f t h = fetch1-IsCoherent _ (record {
    asked = all_asked_before to_iso t.effect t.effect_filters f t.requests h.asked;
    one = h.one;
    same = same_deps_refl f;
  })

  more_after-IsCoherent :
      (c : Option String) (t : Table A) → IsCoherent t → IsCoherent (more_after to_iso c t)
  more_after-IsCoherent none t h = h
  more_after-IsCoherent (some c) t h = elim (Bool-cases t.loading) [
    | inl busy ↦ rw busy (record { asked = h.asked; one = h.one ∙ ap one_if busy; same = h.same })
    | inr idle ↦ rw idle (record {
      asked = (tt, h.asked);
      one = omega (arith, h.one ∙ ap one_if idle);
      same = h.same;
    })
  ]

  -- An answer that arrives, its request taken from the list.
  arrive-IsCoherent :
      (k : RequestKind) (a : Answer A) (t : Table A) (rest : List Request)
      → Asked to_iso t.effect t.effect_filters rest
      → mores rest + more_count k ≡ one_if t.loading
      → same_deps t.effect_filters t.filters ≡ true
      → IsCoherent (arrive k a (record t { requests = rest }))
  unfolding arrive
  arrive-IsCoherent (first_page e) (ok page) t rest asked one same =
      elim (Bool-cases (e == t.effect)) [
        | inl now ↦ rw now (record { asked = asked; one = omega (arith, one); same = same })
        | inr then_ ↦ rw then_ (record { asked = asked; one = omega (arith, one); same = same })
      ]
  arrive-IsCoherent (first_page e) (err f) t rest asked one same =
      elim (Bool-cases (e == t.effect)) [
        | inl now ↦ rw now (record { asked = asked; one = omega (arith, one); same = same })
        | inr then_ ↦ rw then_ (record { asked = asked; one = omega (arith, one); same = same })
      ]
  arrive-IsCoherent more (ok page) t rest asked one same = record {
    asked = asked;
    one = omega (arith, one, one_if-le t.loading);
    same = same;
  }
  arrive-IsCoherent more (err f) t rest asked one same = record {
    asked = asked;
    one = omega (arith, one, one_if-le t.loading);
    same = same;
  }

  settle_request-IsCoherent :
      (a : Answer A) (found : Option (Request × List Request)) (t : Table A)
      → IsCoherent t
      → WasTaken (AsksFor to_iso t.effect t.effect_filters) t.requests found
      → IsCoherent (settle_request a found t)
  settle_request-IsCoherent a none t h taken = h
  settle_request-IsCoherent a (some (q, rest)) t h (_, others, count) =
      arrive-IsCoherent q.kind a t rest others (omega (arith, count, h.one)) h.same

  table_step-IsCoherent :
      (e : TableEvent A) (t : Table A) → IsCoherent t → IsCoherent (table_step to_iso e t)
  unfolding table_step load_more
  table_step-IsCoherent (rendered f) t h = elim (Bool-cases (same_deps t.effect_filters f)) [
    | inl keep ↦ rw keep (record { asked = h.asked; one = h.one; same = keep })
    | inr renew ↦ rw renew (run_effect-IsCoherent f t h)
  ]
  table_step-IsCoherent polled t h = fetch1-IsCoherent t h
  table_step-IsCoherent load_clicked t h = more_after-IsCoherent (truthy t.next_cursor) t h
  table_step-IsCoherent (replied n a) t h =
      settle_request-IsCoherent a (take_request n t.requests) t h
        (take_request-WasTaken _ n t.requests h.asked)

  table_after-IsCoherent :
      (f : Filters) (past : List (TableEvent A)) → IsCoherent (table_after to_iso f past)
  unfolding table_after
  table_after-IsCoherent f [] = mount-IsCoherent f
  table_after-IsCoherent f (e ∷ past) = table_step-IsCoherent e _ (table_after-IsCoherent f past)

  -- How the page of a request changes the rows.
  abbrev pub IsShown : RequestKind → Params → ListReply A → Table A → Table A → Type 0
  IsShown (first_page e) p page t t' =
      ((e ≡ t.effect)
        × (p ≡ build_params to_iso t.effect_filters none)
        × (t'.rows ≡ page.data_rows))
      ⊎ ((e < t.effect) × (t'.rows ≡ t.rows))
  IsShown more p page t t' = t'.rows ≡ t.rows ++ page.data_rows

  abbrev pub IsShownFrom : Option (Request × List Request) → Answer A → Table A → Table A → Type 0
  IsShownFrom none a t t' = t'.rows ≡ t.rows
  IsShownFrom (some (q, rest)) (err f) t t' = t'.rows ≡ t.rows
  IsShownFrom (some (q, rest)) (ok page) t t' = IsShown q.kind q.params page t t'

  abbrev pub ShowsOnly : TableEvent A → Table A → Table A → Type 0
  ShowsOnly (replied n a) t t' = IsShownFrom (take_request n t.requests) a t t'
  ShowsOnly (rendered f) t t' = t'.rows ≡ t.rows
  ShowsOnly polled t t' = t'.rows ≡ t.rows
  ShowsOnly load_clicked t t' = t'.rows ≡ t.rows

  arrive-IsShown :
      (k : RequestKind) (p : Params) (page : ListReply A) (t : Table A) (rest : List Request)
      → AsksFor to_iso t.effect t.effect_filters k p
      → IsShown k p page t (arrive k (ok page) (record t { requests = rest }))
  unfolding arrive
  arrive-IsShown (first_page e) p page t rest (le, asks) = elim (Bool-cases (e == t.effect)) [
    | inl now ↦ rw now (inl (==→eq e t.effect now, asks (==→eq e t.effect now), refl))
    | inr late ↦ rw late (inr (ground arith, refl))
  ]
  arrive-IsShown more p page t rest asks = refl

  failed-rows :
      (k : RequestKind) (f : Failure) (t : Table A) (rest : List Request)
      → (arrive k (err f) (record t { requests = rest })).rows ≡ t.rows
  unfolding arrive
  failed-rows (first_page e) f t rest = ground arith
  failed-rows more f t rest = refl

  settle_request-IsShownFrom :
      (a : Answer A) (found : Option (Request × List Request)) (t : Table A)
      → WasTaken (AsksFor to_iso t.effect t.effect_filters) t.requests found
      → IsShownFrom found a t (settle_request a found t)
  settle_request-IsShownFrom (ok page) none t taken = refl
  settle_request-IsShownFrom (err f) none t taken = refl
  settle_request-IsShownFrom (ok page) (some (q, rest)) t (asks, _, _) =
      arrive-IsShown q.kind q.params page t rest asks
  settle_request-IsShownFrom (err f) (some (q, rest)) t taken = failed-rows q.kind f t rest

  more_after-rows : (c : Option String) (t : Table A) → (more_after to_iso c t).rows ≡ t.rows
  more_after-rows none t = refl
  more_after-rows (some c) t = ground arith

  table_step-ShowsOnly :
      (e : TableEvent A) (t : Table A) → IsCoherent t → ShowsOnly e t (table_step to_iso e t)
  unfolding table_step fetch1 run_effect load_more
  table_step-ShowsOnly (rendered f) t h = ground arith
  table_step-ShowsOnly polled t h = refl
  table_step-ShowsOnly load_clicked t h = more_after-rows (truthy t.next_cursor) t
  table_step-ShowsOnly (replied n a) t h =
      settle_request-IsShownFrom a (take_request n t.requests) t
        (take_request-WasTaken _ n t.requests h.asked)

  -- Whatever is rendered, polled, clicked and answered before, in whatever order: the rows change only when
  -- the page of a request arrives. A first page replaces them if it was asked for in the current
  -- effect, and then with its filters, which agree with the current ones; one of an earlier effect
  -- changes nothing; a page of `loadMore` is appended. One request of `loadMore` is under way while the
  -- button is disabled, and none else.
  pub table_after-ShowsOnly :
      (f : Filters) (past : List (TableEvent A)) (e : TableEvent A)
      → let t = table_after to_iso f past in
        ShowsOnly e t (table_after to_iso f (e ∷ past))
        × (same_deps t.effect_filters t.filters ≡ true)
        × (mores t.requests ≡ one_if t.loading)
  unfolding table_after
  table_after-ShowsOnly f past e =
      let h = table_after-IsCoherent f past in
      (table_step-ShowsOnly e (table_after to_iso f past) h, h.same, h.one)
