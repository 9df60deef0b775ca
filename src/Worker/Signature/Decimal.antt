-- ===== src/Worker/Signature/Decimal.antt =====
-- The text of a number is not empty.
use Prim.Native.String
use native.Mathlib.Numerals.{add-one}
use text.Mathlib.TextLemmas.{append-ne-nil_of_right_ne-nil}
use webhook_delivery_engine.Prelude.{
  str_eq_iff, ◌%◌, ◌==◌, inl, refl, ◌/◌, inr, zero, arith, Bool-cases, false, ◌≡◌, suc, str_eq,
  String, ◌<◌, ℕ,
}
use webhook_delivery_engine.Worker.Signature.{digit, decimal_fuel, decimal}

digit-filled : (d : ℕ) → d < 10 → str_eq (digit d) "" ≡ false
digit-filled zero h = refl
digit-filled (suc zero) h = refl
digit-filled (suc (suc zero)) h = refl
digit-filled (suc (suc (suc zero))) h = refl
digit-filled (suc (suc (suc (suc zero)))) h = refl
digit-filled (suc (suc (suc (suc (suc zero))))) h = refl
digit-filled (suc (suc (suc (suc (suc (suc zero)))))) h = refl
digit-filled (suc (suc (suc (suc (suc (suc (suc zero))))))) h = refl
digit-filled (suc (suc (suc (suc (suc (suc (suc (suc zero)))))))) h = refl
digit-filled (suc (suc (suc (suc (suc (suc (suc (suc (suc zero))))))))) h = refl
digit-filled (suc (suc (suc (suc (suc (suc (suc (suc (suc (suc n)))))))))) h = absurd (omega arith)

-- A text that ends in a text that is not empty.
append-filled : (s t : String) → str_eq t "" ≡ false → str_eq (String.◌++◌ s t) "" ≡ false
append-filled s t h = elim (Bool-cases (str_eq (String.◌++◌ s t) "")) [
  | inr e ↦ e
  | inl e ↦ absurd (
      append-ne-nil_of_right_ne-nil s (λ nil. ground (arith, h, (str_eq_iff t "").1 nil))
        ((str_eq_iff _ "").0 e))
]

decimal_fuel-filled : (fuel n : ℕ) → str_eq (decimal_fuel (suc fuel) n) "" ≡ false
unfolding decimal_fuel
decimal_fuel-filled fuel n = elim (Bool-cases (n / 10 == 0)) [
  | inl e ↦ rw e (digit-filled n (ground arith))
  | inr e ↦ rw e (append-filled _ (digit (n % 10)) (digit-filled (n % 10) (omega arith)))
]

pub decimal-filled : (n : ℕ) → str_eq (decimal n) "" ≡ false
unfolding decimal
decimal-filled n = rw (add-one n) (decimal_fuel-filled n n)
