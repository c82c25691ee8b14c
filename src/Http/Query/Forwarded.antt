-- ===== src/Http/Query/Forwarded.antt =====
-- Which input keys reach the query string, and what the query string can hold.
use agenthub_skill_runtime.Base.{
  ℕ, ◌<◌, ◌≡◌, refl, sym, ◌∙◌, ◌↔◌, Bool-cases, Option-cases, Bool, true, false, not, ◌||◌, List,
  [], ◌∷◌, ◌++◌, Option, none, some, Bytes, codes, contains, eqb→eq, all, all-append, All, ◌==◌,
  arith, if◌then◌else◌, ◌⊎◌, inl, inr,
}
use agenthub_skill_runtime.Base.Assoc.{Assoc, lookup}
use agenthub_skill_runtime.Executor.{Value, Object, empty, entry, field?}
use agenthub_skill_runtime.Http.Template.{query_escape}
use agenthub_skill_runtime.Http.Template.Escaping.{is_query_safe, query_escape-safe}
use agenthub_skill_runtime.Http.Query.Naming.{
  Names, IsDeclared, Names-is_used, is_used-Names, is_allowed-IsDeclared, IsDeclared-is_allowed,
}
use agenthub_skill_runtime.Http.Query.Sorting.{All-sort_keys_iff}
use agenthub_skill_runtime.Http.Query.{
  is_used, is_allowed, query_values, sort_keys, encode_sorted, encode, joined,
  append_unused_input_as_query,
}

abbrev pub forwarded : (Value → Bytes) → Bool → Bool → Option Value → Option Bytes
forwarded sprint used allowed none = none
forwarded sprint used allowed (some v) = if used || not allowed then none else some (sprint v)

query_values-forwarded :
    (sprint : Value → Bytes) (raw : Bytes) (allowed : Option (List Bytes)) (o : Object) (k : Bytes)
    → lookup k (query_values sprint raw allowed o)
      ≡ forwarded sprint (is_used raw k) (is_allowed allowed k) (field? o k)
unfolding lookup query_values field?
query_values-forwarded sprint raw allowed empty k = refl
query_values-forwarded sprint raw allowed (entry j v o) k =
    ground (arith, eqb→eq j k, query_values-forwarded sprint raw allowed o k)

module _ (sprint : Value → Bytes) (raw : Bytes) (allowed : Option (List Bytes)) (o : Object)
    (k : Bytes) where
  pub record IsSent (text : Bytes) : Type 0 where
    pub value : Value
    pub given : field? o k ≡ some value
    pub printed : text ≡ sprint value
    pub unnamed : ¬ Names raw k
    pub known : IsDeclared allowed k

  sent→IsSent :
      (text : Bytes) → lookup k (query_values sprint raw allowed o) ≡ some text → IsSent text
  sent→IsSent text h =
      let e = sym (query_values-forwarded sprint raw allowed o k) ∙ h in
      elim (Option-cases (field? o k)) [
        | inl absent ↦ absurd (ground (arith, e, absent))
        | inr (value, given) ↦ record {
          value = value;
          given = given;
          printed = ground (arith, e, given);
          unnamed = λ n. absurd (ground (arith, e, given, Names-is_used raw k n));
          known = is_allowed-IsDeclared allowed k (ground (arith, e, given));
        }
      ]

  IsSent→sent :
      (text : Bytes) → IsSent text → lookup k (query_values sprint raw allowed o) ≡ some text
  IsSent→sent text s = elim (Bool-cases (is_used raw k)) [
    | inl used ↦ absurd (s.unnamed (is_used-Names raw k used))
    | inr unused ↦
        query_values-forwarded sprint raw allowed o k
        ∙ rw (unused, IsDeclared-is_allowed allowed k s.known, s.given, s.printed) refl
  ]

  -- A key is sent as a query parameter exactly when the input has it, the template has nowhere the
  -- text {key}, {{key}} or {{input.key}}, and the schema, if one is known, declares the key; its value
  -- is then the printed one. The form {{args.key}}, which is substituted too, does not keep a key back.
  pub lookup-query_values :
      (text : Bytes) → (lookup k (query_values sprint raw allowed o) ≡ some text) ↔ IsSent text
  lookup-query_values text = (sent→IsSent text, IsSent→sent text)

-- The separators of a query besides the escaped keys and values.
abbrev pub is_query_byte : ℕ → Bool
is_query_byte c = is_query_safe c || c == b'=' || c == b'&'

abbrev pub AreBytes : Bytes → Type 0
AreBytes s = All (λ (c : ℕ). c < 256) s

abbrev pub AreByteEntries : Assoc Bytes → Type 0
AreByteEntries m = All (λ p. AreBytes p.0 × AreBytes p.1) m

weaken : (s : Bytes) → all is_query_safe s ≡ true → all is_query_byte s ≡ true
weaken [] h = refl
weaken (c ∷ s) h = ground (arith, weaken s)

escaped : (s : Bytes) → AreBytes s → all is_query_byte (query_escape s) ≡ true
escaped s h = weaken (query_escape s) (query_escape-safe s h)

encode_sorted-safe :
    (m : Assoc Bytes) → AreByteEntries m → all is_query_byte (encode_sorted m) ≡ true
unfolding encode_sorted
encode_sorted-safe [] h = refl
encode_sorted-safe ((k, v) ∷ []) ((hk, hv), h) =
    all-append is_query_byte (query_escape k) _ (escaped k hk) (escaped v hv)
encode_sorted-safe ((k, v) ∷ p ∷ m) ((hk, hv), h) =
    all-append is_query_byte (query_escape k) _ (escaped k hk)
      (all-append is_query_byte (query_escape v) _ (escaped v hv) (encode_sorted-safe (p ∷ m) h))

abbrev HasSafeTail : Bytes → Bytes → Type 0
HasSafeTail url result =
    (result ≡ url)
    ⊎ ((sep : ℕ) × (tail : Bytes) × (result ≡ url ++ (sep ∷ tail))
        × ((sep ≡ b'?') ⊎ (sep ≡ b'&'))
        × (all is_query_byte tail ≡ true))

joined-tail : (url : Bytes) (m : Assoc Bytes) → AreByteEntries m → HasSafeTail url (joined url m)
joined-tail url [] h = inl refl
joined-tail url (p ∷ m) h = inr (
  (if contains url (codes "?") then b'&' else b'?'),
  encode (p ∷ m),
  refl,
  which (contains url (codes "?")),
  unfold encode in
      encode_sorted-safe (sort_keys (p ∷ m))
        ((All-sort_keys_iff (λ q. AreBytes q.0 × AreBytes q.1) (p ∷ m)).1 h),
)
  where
    separator : Bool → ℕ
    separator b = if b then b'&' else b'?'

    which : (b : Bool) → (separator b ≡ b'?') ⊎ (separator b ≡ b'&')
    which true = inr refl
    which false = inl refl

-- If keys and printed values are bytes, then what is put behind the URL is nothing, or one ? or &
-- and then only letters, digits and the bytes - _ . ~ % + = &. So no input value can start a
-- fragment or change the path.
pub append_unused_input-tail :
    (sprint : Value → Bytes) (raw url : Bytes) (o : Object) (allowed : Option (List Bytes))
    → AreByteEntries (query_values sprint raw allowed o)
    → (append_unused_input_as_query sprint raw url o allowed ≡ url)
      ⊎ ((sep : ℕ) × (tail : Bytes) × (append_unused_input_as_query sprint raw url o allowed
            ≡ url ++ (sep ∷ tail))
          × ((sep ≡ b'?') ⊎ (sep ≡ b'&'))
          × (all is_query_byte tail ≡ true))
append_unused_input-tail sprint raw url o allowed h =
    unfold append_unused_input_as_query in joined-tail url (query_values sprint raw allowed o) h
