-- ===== src/Base/Decimal.antt =====
-- strconv.Itoa and the numbers that a run of digits spells.
use Prim.Native.Nat.{ℕ, zero, suc, ◌+◌, ◌-◌, ◌*◌, ◌/◌, ◌%◌, ◌<◌}
use mathlib.Core.Path.{◌≡◌, refl}
use mathlib.Core.Bool.{Bool, true, ◌&&◌}
use mathlib.Core.List.{[], ◌∷◌, ◌++◌, foldl, foldl-append}
use mathlib.Core.Logic.{inl, inr}
use native.Mathlib.Omega.{arith}
use agenthub_skill_runtime.Base.Tests.{ltb, leb, if◌then◌else◌, Bool-cases}
use agenthub_skill_runtime.Base.Lists.{all, all-append}
use agenthub_skill_runtime.Base.Text.{Bytes, codes}

abbrev pub is_digit : ℕ → Bool
is_digit c = leb b'0' c && leb c b'9'

-- The value of a run of digits behind `n`.
abbrev pub value : ℕ → Bytes → ℕ
value n s = foldl (λ m c. m * 10 + (c - b'0')) n s

digits : ℕ → ℕ → Bytes
digits zero n = []
digits (suc f) n =
    let more = digits f (n / 10) in
    if ltb n 10 then (b'0' + n) ∷ [] else more ++ (b'0' + n % 10) ∷ []

-- strconv.Itoa(n), n >= 0; the fuel is above the number of digits.
unfoldable pub itoa : ℕ → Bytes
unfolding digits
itoa n = digits (suc n) n

value-digits : (f n : ℕ) → n < f → value 0 (digits f n) ≡ n
unfolding digits
value-digits zero n h = absurd (omega arith)
value-digits (suc f) n h = elim (Bool-cases (ltb n 10)) [
  | inl small ↦ rw small (omega arith)
  | inr large ↦ rw large (
      rw (foldl-append (λ (m c : ℕ). m * 10 + (c - b'0')) 0 (digits f (n / 10)))
        (ground (arith, value-digits f (n / 10))))
]

-- Reading back the print of a number gives the number.
pub value-itoa : (n : ℕ) → value 0 (itoa n) ≡ n
unfolding itoa
value-itoa n = value-digits (suc n) n (omega arith)

digits-IsDigits : (f n : ℕ) → all is_digit (digits f n) ≡ true
unfolding digits
digits-IsDigits zero n = refl
digits-IsDigits (suc f) n = elim (Bool-cases (ltb n 10)) [
  | inl small ↦ rw small (ground arith)
  | inr large ↦
      rw large
        (all-append is_digit (digits f (n / 10)) _ (digits-IsDigits f (n / 10)) (ground arith))
]

pub itoa-IsDigits : (n : ℕ) → all is_digit (itoa n) ≡ true
unfolding itoa
itoa-IsDigits n = digits-IsDigits (suc n) n

itoa_test : itoa 1203 ≡ codes "1203"
unfolding itoa
itoa_test = refl
