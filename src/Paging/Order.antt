-- ===== src/Paging/Order.antt =====
-- The order of the rows.
use webhook_delivery_engine.Prelude.{
  ap, ◌∙◌, suc, ◌==◌, true, length, ℕ, ◌≡◌, refl, Bool, false, if◌then◌else◌, List, [], ◌∷◌, arith,
  where_rows, All, Bool-cases, inl, inr,
}
use webhook_delivery_engine.Paging.{key_lt, insert_row, order_rows}

module _ {ℓ} {A : Type ℓ} (updated_at id : A → ℕ) where
  abbrev pub precedes : A → A → Bool
  precedes y x = key_lt (updated_at x) (id x) (updated_at y) (id y)

  -- No row after `x` precedes it.
  abbrev pub IsFirst : A → List A → Type 0
  IsFirst x ys = All (λ y. precedes y x ≡ false) ys

  abbrev pub IsOrdered : List A → Type 0
  IsOrdered [] = Unit
  IsOrdered (x ∷ xs) = IsFirst x xs × IsOrdered xs

  IsFirst-trans : (x y : A) (zs : List A) → precedes y x ≡ false → IsFirst y zs → IsFirst x zs
  IsFirst-trans x y [] h hs = tt
  IsFirst-trans x y (z ∷ zs) h hs = (ground (arith, hs.0), IsFirst-trans x y zs h hs.1)

  IsFirst-where_rows :
      (p : A → Bool) (x : A) (ys : List A) → IsFirst x ys → IsFirst x (where_rows p ys)
  IsFirst-where_rows p x [] h = tt
  IsFirst-where_rows p x (y ∷ ys) h = elim (Bool-cases (p y)) [
    | inl e ↦ rw e (h.0, IsFirst-where_rows p x ys h.1)
    | inr e ↦ rw e (IsFirst-where_rows p x ys h.1)
  ]

  IsFirst-insert_row :
      (x y : A) (zs : List A)
      → precedes x y ≡ false
      → IsFirst y zs
      → IsFirst y (insert_row updated_at id x zs)
  unfolding insert_row
  IsFirst-insert_row x y [] h hs = (h, tt)
  IsFirst-insert_row x y (z ∷ zs) h hs = elim (Bool-cases (precedes z x)) [
    | inl e ↦ rw e (hs.0, IsFirst-insert_row x y zs h hs.1)
    | inr e ↦ rw e (h, hs)
  ]

  insert_row-IsOrdered :
      (x : A) (ys : List A) → IsOrdered ys → IsOrdered (insert_row updated_at id x ys)
  unfolding insert_row
  insert_row-IsOrdered x [] h = (tt, tt)
  insert_row-IsOrdered x (y ∷ ys) h = elim (Bool-cases (precedes y x)) [
    | inl e ↦ rw e (IsFirst-insert_row x y ys (ground arith) h.0, insert_row-IsOrdered x ys h.1)
    | inr e ↦ rw e ((e, IsFirst-trans x y ys e h.0), h)
  ]

  pub order_rows-IsOrdered : (xs : List A) → IsOrdered (order_rows updated_at id xs)
  unfolding order_rows
  order_rows-IsOrdered [] = tt
  order_rows-IsOrdered (x ∷ xs) = insert_row-IsOrdered x _ (order_rows-IsOrdered xs)

  insert_first : (x : A) (ys : List A) → IsFirst x ys → insert_row updated_at id x ys ≡ x ∷ ys
  unfolding insert_row
  insert_first x [] h = refl
  insert_first x (y ∷ ys) h = rw h.0 refl

  where_rows-insert_row :
      (p : A → Bool) (x : A) (ys : List A)
      → IsOrdered ys
      → where_rows p (insert_row updated_at id x ys)
        ≡ (if p x then insert_row updated_at id x (where_rows p ys) else where_rows p ys)
  unfolding insert_row
  where_rows-insert_row p x [] h = ground arith
  where_rows-insert_row p x (y ∷ ys) h = elim (Bool-cases (precedes y x)) [
    | inl e ↦ ground (arith, where_rows-insert_row p x ys h.1)
    | inr e ↦ ground (
      arith,
      insert_first x (where_rows p (y ∷ ys))
          (IsFirst-where_rows p x (y ∷ ys) (e, IsFirst-trans x y ys e h.0)),
    )
  ]

  -- Rows can be selected before they are ordered, or after.
  pub order_rows-where_rows :
      (p : A → Bool) (xs : List A)
      → order_rows updated_at id (where_rows p xs) ≡ where_rows p (order_rows updated_at id xs)
  unfolding order_rows
  order_rows-where_rows p [] = refl
  order_rows-where_rows p (x ∷ xs) = ground (
    arith,
    order_rows-where_rows p xs,
    where_rows-insert_row p x (order_rows updated_at id xs) (order_rows-IsOrdered xs),
  )

  -- The ids are a primary key.
  abbrev pub IsUnique : List A → Type 0
  IsUnique [] = Unit
  IsUnique (x ∷ xs) = All (λ y. (id y == id x) ≡ false) xs × IsUnique xs

  abbrev pub IsStrict : List A → Type 0
  IsStrict [] = Unit
  IsStrict (x ∷ xs) = All (λ y. precedes x y ≡ true) xs × IsStrict xs

  All-insert_row :
      (P : A → Type 0) (x : A) (ys : List A)
      → P x
      → All P ys
      → All P (insert_row updated_at id x ys)
  unfolding insert_row
  All-insert_row P x [] h hs = (h, tt)
  All-insert_row P x (y ∷ ys) h hs = elim (Bool-cases (precedes y x)) [
    | inl e ↦ rw e (hs.0, All-insert_row P x ys h hs.1)
    | inr e ↦ rw e (h, hs)
  ]

  pub All-order_rows :
      (P : A → Type 0) (xs : List A) → All P xs → All P (order_rows updated_at id xs)
  unfolding order_rows
  All-order_rows P [] h = tt
  All-order_rows P (x ∷ xs) h = All-insert_row P x _ h.0 (All-order_rows P xs h.1)

  IsUnique-insert_row :
      (x : A) (ys : List A)
      → All (λ y. (id y == id x) ≡ false) ys
      → IsUnique ys
      → IsUnique (insert_row updated_at id x ys)
  unfolding insert_row
  IsUnique-insert_row x [] h u = (tt, tt)
  IsUnique-insert_row x (y ∷ ys) h u = elim (Bool-cases (precedes y x)) [
    | inl e ↦
        rw e (All-insert_row _ x ys (ground (arith, h.0)) u.0, IsUnique-insert_row x ys h.1 u.1)
    | inr e ↦ rw e (h, u)
  ]

  pub IsUnique-order_rows : (xs : List A) → IsUnique xs → IsUnique (order_rows updated_at id xs)
  unfolding order_rows
  IsUnique-order_rows [] u = tt
  IsUnique-order_rows (x ∷ xs) u =
      IsUnique-insert_row x _ (All-order_rows _ xs u.0) (IsUnique-order_rows xs u.1)

  strict_after :
      (x : A) (ys : List A)
      → All (λ y. precedes y x ≡ false) ys
      → All (λ y. (id y == id x) ≡ false) ys
      → All (λ y. precedes x y ≡ true) ys
  strict_after x [] h u = tt
  strict_after x (y ∷ ys) h u = (ground (arith, h.0, u.0), strict_after x ys h.1 u.1)

  pub strict : (xs : List A) → IsOrdered xs → IsUnique xs → IsStrict xs
  strict [] h u = tt
  strict (x ∷ xs) h u = (strict_after x xs h.0 u.0, strict xs h.1 u.1)

  length-insert_row :
      (x : A) (ys : List A) → length (insert_row updated_at id x ys) ≡ suc (length ys)
  unfolding insert_row
  length-insert_row x [] = refl
  length-insert_row x (y ∷ ys) = ground (arith, length-insert_row x ys)

  pub length-order_rows : (xs : List A) → length (order_rows updated_at id xs) ≡ length xs
  unfolding order_rows
  length-order_rows [] = refl
  length-order_rows (x ∷ xs) = length-insert_row x _ ∙ ap suc (length-order_rows xs)
