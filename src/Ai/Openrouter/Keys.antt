-- ===== src/Ai/Openrouter/Keys.antt =====
-- internal/ai/provider/openrouter/provider.go: JSON without a key for the tool calls of
-- a message.
use mathlib.Core.Path.{subst}
use agenthub_skill_runtime.Base.{
  ◌≡◌, refl, Bool, true, not, ◌&&◌, Bytes, codes, equal_fold, if◌then◌else◌, Bool-cases, inl, inr,
  arith,
}
use agenthub_skill_runtime.Executor.{
  Value, null, bool, float, int, str, arr, obj, Values, nil, cons, Object, empty, entry, Result, ok,
  >>=-eq-ok, decode_field,
}
use agenthub_skill_runtime.Ai.Decode.{set_struct}

-- No object in the value has a key that fits the tag of Message's tool calls.
unfoldable mutual
  pub lacks : Value → Bool
  lacks (arr vs) = lacks_items vs
  lacks (obj o) = lacks_entries o
  lacks null = true
  lacks (bool b) = true
  lacks (float f) = true
  lacks (int i) = true
  lacks (str s) = true

  pub lacks_items : Values → Bool
  lacks_items nil = true
  lacks_items (cons v vs) = lacks v && lacks_items vs

  pub lacks_entries : Object → Bool
  lacks_entries empty = true
  lacks_entries (entry k v o) =
      not (equal_fold k (codes "toolCalls")) && (lacks v && lacks_entries o)

-- Without a key that fits, a field keeps its value.
pub decode_field-absent {ℓ} :
    {A : Type ℓ} (set : Value → A → Result A) (o : Object) (a : A)
    → lacks_entries o ≡ true
    → decode_field (codes "toolCalls") set o a ≡ ok a
unfolding decode_field lacks
decode_field-absent set empty a h = refl
decode_field-absent set (entry k v o) a h = ground (arith, decode_field-absent set o a)

-- A property of a field's value that each reading keeps is kept.
pub decode_field-keeps {ℓ κ} :
    {A : Type ℓ} (P : A → Type κ) (name : Bytes) (set : Value → A → Result A)
    → ((v : Value) (a b : A) → lacks v ≡ true → P a → set v a ≡ ok b → P b)
    → (o : Object) (a b : A) → lacks_entries o ≡ true
    → P a
    → decode_field name set o a ≡ ok b
    → P b
unfolding decode_field lacks
decode_field-keeps P name set keep empty a b h p e = let same : a ≡ b = cc in subst P same p
decode_field-keeps P name set keep (entry k v o) a b h p e =
    let hv : lacks v ≡ true = ground arith in
    let ho : lacks_entries o ≡ true = ground arith in
    elim (Bool-cases (equal_fold k name)) [
      | inl fits ↦
          let (c, s, r) =
            >>=-eq-ok (set v a) (λ c. decode_field name set o c)
              (rw (fits, decode_field, if◌then◌else◌) at e) in
          decode_field-keeps P name set keep o c b ho (keep v a c hv p s) r
      | inr other ↦
          decode_field-keeps P name set keep o a b ho p
            (rw (other, decode_field, if◌then◌else◌) at e)
    ]

pub set_struct-keeps {ℓ κ} :
    {A : Type ℓ} (P : A → Type κ) (read : Object → Result A)
    → ((o : Object) (b : A) → lacks_entries o ≡ true → read o ≡ ok b → P b)
    → (v : Value) (a b : A) → lacks v ≡ true
    → P a
    → set_struct read v a ≡ ok b
    → P b
unfolding lacks
set_struct-keeps P read gives null a b h p e = let same : a ≡ b = cc in subst P same p
set_struct-keeps P read gives (obj o) a b h p e = gives o b h e
set_struct-keeps P read gives (bool x) a b h p e = absurd (cc)
set_struct-keeps P read gives (float x) a b h p e = absurd (cc)
set_struct-keeps P read gives (int x) a b h p e = absurd (cc)
set_struct-keeps P read gives (str x) a b h p e = absurd (cc)
set_struct-keeps P read gives (arr x) a b h p e = absurd (cc)
