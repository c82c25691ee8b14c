-- ===== src/Http/Template/Matching.antt =====
-- Which pair of a template's input applies at a placeholder.
use agenthub_skill_runtime.Base.{
  ℕ, ◌-◌, ◌≡◌, ◌≢◌, refl, ◌∙◌, List, Bool, true, false, ◌&&◌, ◌||◌, not, [], ◌∷◌, ◌++◌, none, some,
  Bytes, codes, eqb, eqb→eq, has_prefix, length, all, ◌==◌, if◌then◌else◌, arith, Bool-cases, inl,
  inr, append_assoc,
}
use mathlib.Core.Option
use agenthub_skill_runtime.Executor.{Value, Object, empty, entry, field?}
use agenthub_skill_runtime.Http.Template.{
  Form, double, single, from_input, from_args, placeholder, pairs_of, pairs, match_at,
}

-- A key with no brace and no dot.
abbrev pub is_plain_byte : ℕ → Bool
is_plain_byte c = not (c == b'{' || c == b'}' || c == b'.')

abbrev pub IsPlain : Bytes → Type 0
IsPlain k = all is_plain_byte k ≡ true

abbrev pub HasPlainKeys : Object → Type 0
HasPlainKeys empty = Unit
HasPlainKeys (entry k v o) = IsPlain k × HasPlainKeys o

abbrev same : Form → Form → Bool
same double double = true
same single single = true
same from_input from_input = true
same from_args from_args = true
same _ _ = false

-- Two plain keys, each closed by a brace.
closed_keys :
    (k j r q : Bytes)
    → IsPlain k
    → IsPlain j
    → has_prefix (k ++ b'}' ∷ r) (j ++ b'}' ∷ q) ≡ (eqb j k && has_prefix r q)
unfolding has_prefix eqb
closed_keys [] [] r q hk hj = refl
closed_keys [] (c ∷ j) r q hk hj = ground arith
closed_keys (c ∷ k) [] r q hk hj = ground arith
closed_keys (c ∷ k) (d ∷ j) r q hk hj = ground (arith, closed_keys k j r q)

-- A plain key against a word with a dot behind it, both ways.
key_dotted :
    (k w r q : Bytes) → IsPlain k → IsPlain w → has_prefix (k ++ b'}' ∷ r) (w ++ b'.' ∷ q) ≡ false
unfolding has_prefix
key_dotted [] [] r q hk hw = refl
key_dotted [] (c ∷ w) r q hk hw = ground arith
key_dotted (c ∷ k) [] r q hk hw = ground arith
key_dotted (c ∷ k) (d ∷ w) r q hk hw = ground (arith, key_dotted k w r q)

dotted_key :
    (w j r q : Bytes) → IsPlain w → IsPlain j → has_prefix (w ++ b'.' ∷ r) (j ++ b'}' ∷ q) ≡ false
unfolding has_prefix
dotted_key [] [] r q hw hj = refl
dotted_key [] (c ∷ j) r q hw hj = ground arith
dotted_key (c ∷ w) [] r q hw hj = ground arith
dotted_key (c ∷ w) (d ∷ j) r q hw hj = ground (arith, dotted_key w j r q)

-- A plain key against an opening brace, both ways.
key_brace : (k r q : Bytes) → IsPlain k → has_prefix (k ++ b'}' ∷ r) (b'{' ∷ q) ≡ false
unfolding has_prefix
key_brace [] r q h = refl
key_brace (c ∷ k) r q h = ground arith

brace_key : (j r q : Bytes) → IsPlain j → has_prefix (b'{' ∷ r) (j ++ b'}' ∷ q) ≡ false
unfolding has_prefix
brace_key [] r q h = refl
brace_key (c ∷ j) r q h = ground arith

and_true : (b : Bool) → (b && true) ≡ b
and_true true = refl
and_true false = refl

-- One placeholder begins with another exactly when form and key are the same.
prefix-placeholder :
    (f g : Form) (k j rest : Bytes)
    → IsPlain k
    → IsPlain j
    → has_prefix (placeholder f k ++ rest) (placeholder g j) ≡ (same f g && eqb j k)
unfolding has_prefix
prefix-placeholder double double k j rest hk hj =
    rw append_assoc (rw (closed_keys k j (b'}' ∷ rest) (b'}' ∷ []) hk hj) (and_true (eqb j k)))
prefix-placeholder double single k j rest hk hj = rw append_assoc (brace_key j _ [] hj)
prefix-placeholder double from_input k j rest hk hj =
    rw append_assoc (key_dotted k (codes "input") (b'}' ∷ rest) (j ++ b'}' ∷ b'}' ∷ []) hk refl)
prefix-placeholder double from_args k j rest hk hj =
    rw append_assoc (key_dotted k (codes "args") (b'}' ∷ rest) (j ++ b'}' ∷ b'}' ∷ []) hk refl)
prefix-placeholder single double k j rest hk hj = rw append_assoc (key_brace k rest _ hk)
prefix-placeholder single single k j rest hk hj =
    rw append_assoc (rw (closed_keys k j (rest) ([]) hk hj) (and_true (eqb j k)))
prefix-placeholder single from_input k j rest hk hj =
    rw append_assoc (key_brace k rest (codes "input." ++ (j ++ b'}' ∷ b'}' ∷ [])) hk)
prefix-placeholder single from_args k j rest hk hj =
    rw append_assoc (key_brace k rest (codes "args." ++ (j ++ b'}' ∷ b'}' ∷ [])) hk)
prefix-placeholder from_input double k j rest hk hj =
    rw append_assoc (dotted_key (codes "input") j (k ++ b'}' ∷ b'}' ∷ rest) (b'}' ∷ []) refl hj)
prefix-placeholder from_input single k j rest hk hj = rw append_assoc (brace_key j _ [] hj)
prefix-placeholder from_input from_input k j rest hk hj =
    rw append_assoc (rw (closed_keys k j (b'}' ∷ rest) (b'}' ∷ []) hk hj) (and_true (eqb j k)))
prefix-placeholder from_input from_args k j rest hk hj = refl
prefix-placeholder from_args double k j rest hk hj =
    rw append_assoc (dotted_key (codes "args") j (k ++ b'}' ∷ b'}' ∷ rest) (b'}' ∷ []) refl hj)
prefix-placeholder from_args single k j rest hk hj = rw append_assoc (brace_key j _ [] hj)
prefix-placeholder from_args from_input k j rest hk hj = refl
prefix-placeholder from_args from_args k j rest hk hj =
    rw append_assoc (rw (closed_keys k j (b'}' ∷ rest) (b'}' ∷ []) hk hj) (and_true (eqb j k)))

module _ (j k s val : Bytes) (more : List (Bytes × Bytes)) where
  -- The four pairs of one key, at a text where only the pair of form `f` can apply.
  match_at-pairs_of :
      (f : Form)
      → ((g : Form) → has_prefix s (placeholder g j) ≡ (same f g && eqb j k))
      → match_at (pairs_of j val more) s
        ≡ (if eqb j k then some (length (placeholder f k) - 1, val) else match_at more s)
  unfolding match_at
  match_at-pairs_of double p =
      ground (arith, p double, p single, p from_input, p from_args, eqb→eq j k)
  match_at-pairs_of f p = ground (arith, p double, p single, p from_input, p from_args, eqb→eq j k)

-- At a placeholder of a plain key the entry of that key applies, and no pair if there is none.
pub match_at-placeholder :
    (encode : Value → Bytes) (o : Object) (f : Form) (k rest : Bytes)
    → HasPlainKeys o
    → IsPlain k
    → match_at (pairs encode o) (placeholder f k ++ rest)
      ≡ Option.map (λ v. (length (placeholder f k) - 1, encode v)) (field? o k)
unfolding pairs field?
match_at-placeholder encode empty f k rest h hk = unfold match_at in refl
match_at-placeholder encode (entry j v o) f k rest (hj, h) hk =
    match_at-pairs_of j k (placeholder f k ++ rest) (encode v) (pairs encode o) f
      (λ g. prefix-placeholder f g k j rest hk hj)
    ∙ elim (Bool-cases (eqb j k)) [
      | inl e ↦ rw e
      | inr e ↦ rw e (match_at-placeholder encode o f k rest h hk)
    ]

-- No pair applies at a byte that is no opening brace.
pub match_at-other :
    (encode : Value → Bytes) (o : Object) (c : ℕ) (s : Bytes)
    → c ≢ b'{'
    → match_at (pairs encode o) (c ∷ s) ≡ none
unfolding pairs match_at has_prefix
match_at-other encode empty c s h = refl
match_at-other encode (entry j v o) c s h = ground (arith, match_at-other encode o c s h)
