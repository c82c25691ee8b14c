-- ===== src/Executor/Errors.antt =====
-- internal/executor/executor.go, PermanentError, and Go's error chains as far as the runtime walks
-- them: errors.As for *PermanentError and errors.Is for the invoker's sentinel.
use mathlib.Core.Path.{◌≡◌, refl}
use mathlib.Core.Bool.{Bool, true, false}
use mathlib.Core.List.{[], ◌∷◌, ◌++◌}
use agenthub_skill_runtime.Base.{Bytes, codes, ◌⊎◌, inl, inr, ◌==◌, ◌||◌, if◌then◌else◌}

pub data Error : Type 0 where
  -- errors.New, or fmt.Errorf with no %w
  leaf : Bytes → Error
  -- fmt.Errorf with one %w between two texts
  wrap : Bytes → Error → Bytes → Error
  -- &PermanentError{Cause: cause}
  permanent : Error → Error
  -- invoker.ErrCircuitOpen
  circuit_open : Error
  -- ctx.Err()
  context_done : Bytes → Error

-- fmt.Errorf(prefix + "%w", err)
abbrev pub prefixed : Bytes → Error → Error
prefixed before e = wrap before e []

-- Permanentf with no %w
abbrev pub permanentf : Bytes → Error
permanentf m = permanent (leaf m)

-- err.Error()
unfoldable pub message : Error → Bytes
message (leaf m) = m
message (wrap before e after) = before ++ (message e ++ after)
message (permanent cause) = message cause
message circuit_open = codes "invoker: circuit breaker open"
message (context_done m) = m

unfoldable pub is_permanent : Error → Bool
is_permanent (leaf m) = false
is_permanent (wrap before e after) = is_permanent e
is_permanent (permanent cause) = true
is_permanent circuit_open = false
is_permanent (context_done m) = false

-- errors.Is(err, ErrCircuitOpen)
unfoldable pub is_circuit_open : Error → Bool
is_circuit_open (leaf m) = false
is_circuit_open (wrap before e after) = is_circuit_open e
is_circuit_open (permanent cause) = is_circuit_open cause
is_circuit_open circuit_open = true
is_circuit_open (context_done m) = false

-- %q of a text of printable ASCII
unfoldable pub escape : Bytes → Bytes
escape [] = []
escape (c ∷ s) = let rest = escape s in if c == b'"' || c == 92 then 92 ∷ c ∷ rest else c ∷ rest

abbrev pub quote : Bytes → Bytes
quote s = b'"' ∷ (escape s ++ b'"' ∷ [])

-- (value, error): the runtime never returns both.
pub data Result {ℓ} (A : Type ℓ) : Type ℓ where
  ok : A → Result A
  err : Error → Result A

-- if err != nil { return err }, for a step with a value and for one without
infixl 5 ◌>>=◌
abbrev pub ◌>>=◌ {ℓ κ} : {V : Type ℓ} {W : Type κ} → Result V → (V → Result W) → Result W
err reason >>= next = err reason
ok value >>= next = next value

-- if !b { return err }
abbrev pub require : Bool → Error → Result (Unit {0})
require false reason = err reason
require true reason = ok tt

infixl 5 ◌>>◌
abbrev pub ◌>>◌ {ℓ} : {W : Type ℓ} → Result (Unit {0}) → Result W → Result W
check >> next = check >>= λ _. next

-- if err != nil { return fmt.Errorf(prefix + "%w", err) }
abbrev pub or_wrap {ℓ} : {A : Type ℓ} → Bytes → Result A → Result A
or_wrap before (ok a) = ok a
or_wrap before (err e) = err (prefixed before e)

pub Result-cases {ℓ} :
    {A : Type ℓ} (r : Result A) → ((a : A) × (r ≡ ok a)) ⊎ ((e : Error) × (r ≡ err e))
Result-cases (ok a) = inl (a, refl)
Result-cases (err e) = inr (e, refl)

pub >>=-eq-ok {ℓ κ} :
    {V : Type ℓ} {W : Type κ} (first : Result V) (next : V → Result W) {w : W}
    → (first >>= next) ≡ ok w
    → (v : V) × (first ≡ ok v) × (next v ≡ ok w)
>>=-eq-ok (err reason) next h = cc
>>=-eq-ok (ok v) next h = (v, refl, h)
