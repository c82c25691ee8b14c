-- ===== src/Http/Execute/Timeout.antt =====
-- The timeout of a request.
use mathlib.Core.Path.{subst}
use agenthub_skill_runtime.Base.{
  ℕ, ◌<◌, ◌≤◌, ◌+◌, ◌*◌, ◌^◌, ◌/◌, ◌%◌, ◌-◌, ◌≡◌, refl, sym, inl, inr, false, ltb, leb, arith,
  Bool-cases,
}
use agenthub_skill_runtime.Base.Int.{ℤ, pos, negsuc, is_positive, pos_part, neg_part, int64_of}
use agenthub_skill_runtime.Http.Execute.{Codec, timeout_of}
use agenthub_skill_runtime.Http.Ssrf.{Syntax}

-- A timeout in nanoseconds, by the configured seconds.
pub data IsTimeout : ℤ → ℤ → Type 0 where
  by_default : (seconds : ℤ) → is_positive seconds ≡ false → IsTimeout seconds (pos 30000000000)
  configured : (n : ℕ) → 0 < n → n ≤ 9223372036 → IsTimeout (pos n) (pos (n * 1000000000))
  -- the product is off by a multiple of 2 ^ 64
  wrapped :
      (n : ℕ) (t : ℤ) (q : ℕ)
      → 9223372036 < n
      → n * 1000000000 + neg_part t ≡ pos_part t + q * 2 ^ 64
      → pos_part t < 2 ^ 63
      → neg_part t ≤ 2 ^ 63
      → IsTimeout (pos n) t

int64_of-wrapped : (n : ℕ) → 9223372036 < n → IsTimeout (pos n) (int64_of (n * 1000000000))
int64_of-wrapped n large = elim (Bool-cases (ltb (n * 1000000000 % 2 ^ 64) (2 ^ 63))) [
  | inl small ↦
      let t : int64_of (n * 1000000000) ≡ pos (n * 1000000000 % 2 ^ 64) = rw small refl in
      subst (λ x. IsTimeout (pos n) x) (sym t)
        (wrapped n (pos (n * 1000000000 % 2 ^ 64)) (n * 1000000000 / 2 ^ 64) large (omega arith)
          (ground arith) (omega arith))
  | inr big ↦
      let t : int64_of (n * 1000000000) ≡ negsuc (2 ^ 64 - n * 1000000000 % 2 ^ 64 - 1) =
        rw big refl in
      subst (λ x. IsTimeout (pos n) x) (sym t)
        (wrapped n (negsuc (2 ^ 64 - n * 1000000000 % 2 ^ 64 - 1)) (n * 1000000000 / 2 ^ 64 + 1)
          large (ground arith) (omega arith) (ground arith))
]

module _ (codec : Codec) (syn : Syntax) where
  pub timeout_of-IsTimeout : (seconds : ℤ) → IsTimeout seconds (timeout_of codec syn seconds)
  timeout_of-IsTimeout (negsuc n) = by_default (negsuc n) refl
  timeout_of-IsTimeout (pos n) = elim (Bool-cases (ltb 0 n)) [
    | inr none_given ↦
        let t : timeout_of codec syn (pos n) ≡ pos 30000000000 = rw none_given refl in
        subst (λ x. IsTimeout (pos n) x) (sym t) (by_default (pos n) none_given)
    | inl given ↦ elim (Bool-cases (leb n 9223372036)) [
      | inl fits ↦
          let t : timeout_of codec syn (pos n) ≡ pos (n * 1000000000) = ground arith in
          subst (λ x. IsTimeout (pos n) x) (sym t) (configured n (ground arith) (ground arith))
      | inr large ↦
          let t : timeout_of codec syn (pos n) ≡ int64_of (n * 1000000000) = rw given refl in
          subst (λ x. IsTimeout (pos n) x) (sym t) (int64_of-wrapped n (ground arith))
    ]
  ]
