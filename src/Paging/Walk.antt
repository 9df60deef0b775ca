-- ===== src/Paging/Walk.antt =====
-- A client that follows the cursors from the first page on.
use mathlib.Core.List.{append_assoc, append-nil}
use native.Mathlib.Numerals.{add-one}
use webhook_delivery_engine.Prelude.{
  ℕ, zero, suc, ◌≤◌, ◌<◌, ◌≡◌, refl, sym, ◌∙◌, ap, subst, true, false, ltb, Option, none, some,
  List, [], ◌∷◌, ◌++◌, arith, length, take, where_rows, All, All-map, Bool-cases, inl, inr,
}
use webhook_delivery_engine.Paging.{
  Cursor, key_lt, order_rows, below, page_of, page_where, last_row, cursor_after, walk,
}
use webhook_delivery_engine.Paging.Order.{
  order_rows-IsOrdered, order_rows-where_rows, precedes, IsUnique, IsStrict, All-order_rows,
  IsUnique-order_rows, strict, length-order_rows,
}

-- How more rows than a page holds are cut at the page's last row.
record IsCut {ℓ} {A : Type ℓ} (limit : ℕ) (xs : List A) : Type ℓ where
  before : List A
  last : A
  after : List A
  cut_rows : take limit xs ≡ before ++ (last ∷ [])
  cut_last : last_row (take limit xs) ≡ some last
  cut_all : xs ≡ before ++ (last ∷ after)
  cut_less : length after < length xs

cut {ℓ} : {A : Type ℓ} (limit : ℕ) (xs : List A) → limit < length xs → 1 ≤ limit → IsCut limit xs
cut zero xs h p = absurd (omega arith)
cut (suc n) [] h p = absurd (omega arith)
cut (suc zero) (x ∷ xs) h p = record {
  before = [];
  last = x;
  after = xs;
  cut_rows = refl;
  cut_last = refl;
  cut_all = refl;
  cut_less = omega arith;
}
cut (suc (suc n)) (x ∷ []) h p = absurd (omega arith)
cut (suc (suc n)) (x ∷ y ∷ xs) h p =
    let c = cut (suc n) (y ∷ xs) (omega arith) (omega arith) in
    record {
      before = x ∷ c.before;
      last = c.last;
      after = c.after;
      cut_rows = ap (λ l. x ∷ l) c.cut_rows;
      cut_last = c.cut_last;
      cut_all = ap (λ l. x ∷ l) c.cut_all;
      cut_less = omega (arith, c.cut_less);
    }

take-all {ℓ} : {A : Type ℓ} (n : ℕ) (xs : List A) → length xs ≤ n → take n xs ≡ xs
take-all zero [] h = refl
take-all zero (x ∷ xs) h = absurd (omega arith)
take-all (suc n) [] h = refl
take-all (suc n) (x ∷ xs) h = ap (λ l. x ∷ l) (take-all n xs (omega arith))

take-one_more {ℓ} : {A : Type ℓ} (n : ℕ) (xs : List A) → take n (take (suc n) xs) ≡ take n xs
take-one_more zero xs = refl
take-one_more (suc n) [] = refl
take-one_more (suc n) (x ∷ xs) = ap (λ l. x ∷ l) (take-one_more n xs)

has_more-length {ℓ} :
    {A : Type ℓ} (n : ℕ) (xs : List A) → ltb n (length (take (suc n) xs)) ≡ ltb n (length xs)
has_more-length zero [] = refl
has_more-length zero (x ∷ xs) = ground arith
has_more-length (suc n) [] = refl
has_more-length (suc n) (x ∷ xs) = ground (arith, has_more-length n xs)

module _ {ℓ} {A : Type ℓ} (updated_at id : A → ℕ) where
  key : A → Cursor
  key x = record { updated_at = updated_at x; id = id x }

  where_rows-after :
      (x : A) (ys : List A)
      → All (λ y. precedes updated_at id x y ≡ true) ys
      → where_rows (below updated_at id (some (key x))) ys ≡ ys
  unfolding key
  where_rows-after x [] h = refl
  where_rows-after x (y ∷ ys) h = ground (arith, h.0, where_rows-after x ys h.1)

  middle : (P : A → Type 0) (x : A) (pre suf : List A) → All P (pre ++ (x ∷ suf)) → P x
  middle P x [] suf h = h.0
  middle P x (p ∷ ps) suf h = middle P x ps suf h.1

  -- No row before the last one, nor that one itself, is below its key.
  where_rows-key :
      (x : A) (pre suf : List A)
      → IsStrict updated_at id (pre ++ (x ∷ suf))
      → where_rows (below updated_at id (some (key x))) (pre ++ (x ∷ suf)) ≡ suf
  unfolding key
  where_rows-key x [] suf h = ground (arith, where_rows-after x suf h.0)
  where_rows-key x (p ∷ ps) suf h =
      ground (arith, middle _ x ps suf h.0, where_rows-key x ps suf h.1)

  page :
      (limit : ℕ) (cursor : Option Cursor) (xs suf : List A)
      → where_rows (below updated_at id cursor) (order_rows updated_at id xs) ≡ suf
      → page_of updated_at id cursor limit xs
        ≡ record { rows = take limit suf; has_more = ltb limit (length suf) }
  unfolding page_where
  page limit cursor xs suf rest =
      rw
        (
          order_rows-where_rows updated_at id (below updated_at id cursor) xs,
          rest,
          add-one limit,
          take-one_more limit suf,
          has_more-length limit suf,
        )
        refl

  -- The key with the time as the driver reads it.
  abbrev cut_key : (ℕ → ℕ) → A → Cursor
  cut_key to_date x = record { updated_at = to_date (updated_at x); id = id x }

  -- The same rows come after `x` by its key and by the key as the driver reads it.
  abbrev pub CutsAlike : (ℕ → ℕ) → A → A → Type 0
  CutsAlike to_date x y =
      key_lt (updated_at y) (id y) (to_date (updated_at x)) (id x)
      ≡ key_lt (updated_at y) (id y) (updated_at x) (id x)

  where_rows-cut :
      (to_date : ℕ → ℕ) (x : A) (ys : List A)
      → All (CutsAlike to_date x) ys
      → where_rows (below updated_at id (some (cut_key to_date x))) ys
        ≡ where_rows (below updated_at id (some (key x))) ys
  unfolding key
  where_rows-cut to_date x [] h = refl
  where_rows-cut to_date x (y ∷ ys) (h, hs) = rw h (rw (where_rows-cut to_date x ys hs) refl)

  module _ (to_date : ℕ → ℕ) (limit : ℕ) (at_least : 1 ≤ limit) (xs : List A)
      (alike : All
        (λ x. All (CutsAlike to_date x) (order_rows updated_at id xs))
        (order_rows updated_at id xs))
      (sorted : IsStrict updated_at id (order_rows updated_at id xs)) where
    walk-end :
        (n : ℕ) (cursor : Option Cursor) (suf : List A)
        → where_rows (below updated_at id cursor) (order_rows updated_at id xs) ≡ suf
        → ltb limit (length suf) ≡ false
        → walk updated_at id (suc n) to_date limit cursor xs ≡ suf
    unfolding walk cursor_after
    walk-end n cursor suf rest end =
        rw (page limit cursor xs suf rest, end, take-all limit suf (ground arith)) (append-nil suf)

    walk-more :
        (n : ℕ) (cursor : Option Cursor) (x : A) (suf : List A)
        → where_rows (below updated_at id cursor) (order_rows updated_at id xs) ≡ suf
        → ltb limit (length suf) ≡ true
        → last_row (take limit suf) ≡ some x
        → walk updated_at id (suc n) to_date limit cursor xs
          ≡ take limit suf ++ walk updated_at id n to_date limit (some (cut_key to_date x)) xs
    unfolding walk cursor_after
    walk-more n cursor x suf rest more last_x =
        rw (page limit cursor xs suf rest, more, last_x) refl

    rest_at :
        (x : A) (pre suf : List A)
        → order_rows updated_at id xs ≡ pre ++ (x ∷ suf)
        → where_rows (below updated_at id (some (cut_key to_date x))) (order_rows updated_at id xs)
          ≡ suf
    rest_at x pre suf e =
        where_rows-cut to_date x (order_rows updated_at id xs) (
          middle (λ y. All (CutsAlike to_date y) (order_rows updated_at id xs)) x pre suf
            (subst (All (λ y. All (CutsAlike to_date y) (order_rows updated_at id xs))) e alike))
        ∙ ap (where_rows (below updated_at id (some (key x)))) e
        ∙ where_rows-key x pre suf (subst (IsStrict updated_at id) e sorted)

    -- From a cursor that stands before `suf`, the client gets `suf`.
    walk-from :
        (n : ℕ) (cursor : Option Cursor) (pre suf : List A)
        → order_rows updated_at id xs ≡ pre ++ suf
        → where_rows (below updated_at id cursor) (order_rows updated_at id xs) ≡ suf
        → length suf ≤ n
        → walk updated_at id (suc n) to_date limit cursor xs ≡ suf
    walk-from zero cursor pre suf split rest le = walk-end zero cursor suf rest (ground arith)
    walk-from (suc n) cursor pre suf split rest le = elim (Bool-cases (ltb limit (length suf))) [
      | inr end ↦ walk-end (suc n) cursor suf rest end
      | inl more ↦
          let c = cut limit suf (ground arith) at_least in
          let e =
            split
            ∙ ap (λ l. pre ++ l) c.cut_all
            ∙ sym (append_assoc pre c.before (c.last ∷ c.after)) in
          walk-more (suc n) cursor c.last suf rest more c.cut_last
          ∙ ap (λ l. take limit suf ++ l)
              (walk-from n (some (cut_key to_date c.last)) ((pre ++ c.before) ++ (c.last ∷ []))
                c.after (e ∙ sym (append_assoc (pre ++ c.before) (c.last ∷ []) c.after))
                (rest_at c.last (pre ++ c.before) c.after e) (omega (arith, le, c.cut_less)))
          ∙ ap (λ l. l ++ c.after) c.cut_rows
          ∙ append_assoc c.before (c.last ∷ []) c.after
          ∙ sym c.cut_all
    ]

  where_rows-all : (xs : List A) → where_rows (below updated_at id none) xs ≡ xs
  where_rows-all [] = refl
  where_rows-all (x ∷ xs) = ap (λ l. x ∷ l) (where_rows-all xs)

  -- The client's rows are all rows, each once, in their order.
  pub walk-order_rows :
      (to_date : ℕ → ℕ) (limit n : ℕ) (xs : List A)
      → 1 ≤ limit
      → All (λ x. All (CutsAlike to_date x) xs) xs
      → IsUnique updated_at id xs
      → length xs ≤ n
      → walk updated_at id (suc n) to_date limit none xs ≡ order_rows updated_at id xs
  walk-order_rows to_date limit n xs at_least alike unique le =
      walk-from to_date limit at_least xs
        (All-order_rows updated_at id _ xs
          (All-map xs (λ x h. All-order_rows updated_at id _ xs h) alike))
        (strict updated_at id _ (order_rows-IsOrdered updated_at id xs)
          (IsUnique-order_rows updated_at id xs unique))
        n none [] (order_rows updated_at id xs) refl (where_rows-all _)
        (rw (length-order_rows updated_at id xs) le)
