-- ===== src/Base/Assoc.antt =====
-- Go's map with string keys as an association list; an assignment replaces the entry of its key.
use mathlib.Core.Path.{◌≡◌, refl}
use mathlib.Core.Logic.{◌↔◌}
use mathlib.Core.Bool.{Bool, true, false, not, ◌&&◌, ◌||◌}
use mathlib.Core.Option.{Option, none, some}
use mathlib.Core.List.{List, [], ◌∷◌}
use native.Mathlib.Omega.{arith}
use agenthub_skill_runtime.Base.Tests.{if◌then◌else◌}
use agenthub_skill_runtime.Base.Text.{Bytes, eqb, eqb_iff, eqb_refl}

abbrev pub Assoc {ℓ} : Type ℓ → Type ℓ
Assoc V = List (Bytes × V)

-- Whether a key is among the keys.
unfoldable pub mem_key : Bytes → List Bytes → Bool
mem_key k [] = false
mem_key k (j ∷ js) = eqb j k || mem_key k js

-- The keys hold no key twice.
unfoldable pub distinct : List Bytes → Bool
unfolding mem_key
distinct [] = true
distinct (k ∷ ks) = not (mem_key k ks) && distinct ks

module _ {ℓ} {V : Type ℓ} where
  -- v, ok := m[k]
  unfoldable pub lookup : Bytes → Assoc V → Option V
  lookup k [] = none
  lookup k ((j, v) ∷ m) = if eqb j k then some v else lookup k m

  -- m[k] = v
  unfoldable pub insert : Bytes → V → Assoc V → Assoc V
  insert k v [] = (k, v) ∷ []
  insert k v ((j, w) ∷ m) = if eqb j k then (k, v) ∷ m else (j, w) ∷ insert k v m

  unfoldable pub keys : Assoc V → List Bytes
  keys [] = []
  keys ((k, v) ∷ m) = k ∷ keys m

  pub lookup-insert :
      (k j : Bytes) (v : V) (m : Assoc V)
      → lookup j (insert k v m) ≡ (if eqb k j then some v else lookup j m)
  unfolding lookup insert
  lookup-insert k j v [] = refl
  lookup-insert k j v ((i, w) ∷ m) =
      ground (arith, eqb_iff k j, eqb_iff i k, eqb_iff i j, lookup-insert k j v m)

  pub lookup-insert_self : (k : Bytes) (v : V) (m : Assoc V) → lookup k (insert k v m) ≡ some v
  lookup-insert_self k v m = simp (lookup-insert, eqb_refl)

  mem_key-insert :
      (k j : Bytes) (v : V) (m : Assoc V)
      → mem_key j (keys (insert k v m)) ≡ (eqb k j || mem_key j (keys m))
  unfolding insert mem_key keys
  mem_key-insert k j v [] = refl
  mem_key-insert k j v ((i, w) ∷ m) =
      ground (arith, eqb_iff k j, eqb_iff i k, eqb_iff i j, mem_key-insert k j v m)

  pub distinct-insert :
      (k : Bytes) (v : V) (m : Assoc V)
      → distinct (keys m) ≡ true
      → distinct (keys (insert k v m)) ≡ true
  unfolding insert distinct keys
  distinct-insert k v [] h = refl
  distinct-insert k v ((i, w) ∷ m) h =
      ground (arith, eqb_iff i k, eqb_iff k i, distinct-insert k v m, mem_key-insert k i v m)

  -- A key is listed exactly when it has an entry.
  pub mem_key_iff :
      (k : Bytes) (m : Assoc V) → (mem_key k (keys m) ≡ true) ↔ ((v : V) × (lookup k m ≡ some v))
  unfolding mem_key lookup keys
  mem_key_iff k [] = (λ h. absurd (cc), λ h. absurd (ground arith))
  mem_key_iff k ((j, w) ∷ m) =
      (to (eqb j k) (mem_key_iff k m).0, ground (arith, (mem_key_iff k m).1))
    where
      to :
          (b : Bool)
          → (mem_key k (keys m) ≡ true → (v : V) × (lookup k m ≡ some v))
          → (b || mem_key k (keys m)) ≡ true
          → (v : V) × ((if b then some w else lookup k m) ≡ some v)
      to true ih h = (w, refl)
      to false ih h = ih h
