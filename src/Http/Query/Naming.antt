-- ===== src/Http/Query/Naming.antt =====
-- Which keys a template names, and which a schema declares.
use agenthub_skill_runtime.Base.{
  ◌≡◌, refl, ap, inl, inr, true, List, [], ◌∷◌, ◌++◌, Option, none, some, Bytes, codes, contains,
  has_prefix, has_prefix→append, eqb, eqb→eq, eq→eqb, Any, here, there, Bool-cases, arith,
}
use agenthub_skill_runtime.Base.Assoc.{mem_key}
use agenthub_skill_runtime.Http.Query.{is_used, is_allowed}

-- A text stands somewhere in another.
abbrev pub StandsIn : Bytes → Bytes → Type 0
StandsIn part s = (front : Bytes) × (back : Bytes) × (s ≡ front ++ (part ++ back))

pub has_prefix-append : (p rest : Bytes) → has_prefix (p ++ rest) p ≡ true
unfolding has_prefix
has_prefix-append [] rest = refl
has_prefix-append (c ∷ p) rest = ground (arith, has_prefix-append p rest)

contains-StandsIn : (s part : Bytes) → contains s part ≡ true → StandsIn part s
unfolding contains
contains-StandsIn [] part h = let (rest, e) = has_prefix→append [] part h in ([], rest, e)
contains-StandsIn (c ∷ s) part h = elim (Bool-cases (has_prefix (c ∷ s) part)) [
  | inl first ↦ let (rest, e) = has_prefix→append (c ∷ s) part first in ([], rest, e)
  | inr later ↦
      let (front, back, e) = contains-StandsIn s part (ground arith) in
      (c ∷ front, back, ap (λ t. c ∷ t) e)
]

contains_of_prefix : (s part : Bytes) → has_prefix s part ≡ true → contains s part ≡ true
unfolding contains
contains_of_prefix [] part h = h
contains_of_prefix (c ∷ s) part h = ground arith

contains-append : (front part back : Bytes) → contains (front ++ (part ++ back)) part ≡ true
unfolding contains
contains-append [] part back = contains_of_prefix (part ++ back) part (has_prefix-append part back)
contains-append (c ∷ front) part back = ground (arith, contains-append front part back)

StandsIn-contains : (s part : Bytes) → StandsIn part s → contains s part ≡ true
StandsIn-contains s part (front, back, e) = rw e (contains-append front part back)

-- The placeholders of a key that the forwarding takes notice of.
pub data Names (raw k : Bytes) : Type 0 where
  single : StandsIn (codes "{" ++ (k ++ codes "}")) raw → Names raw k
  double : StandsIn (codes "{{" ++ (k ++ codes "}}")) raw → Names raw k
  of_input : StandsIn (codes "{{input." ++ (k ++ codes "}}")) raw → Names raw k

pub Names-is_used : (raw k : Bytes) → Names raw k → is_used raw k ≡ true
unfolding is_used
Names-is_used raw k (single s) =
    ground (arith, StandsIn-contains raw (codes "{" ++ (k ++ codes "}")) s)
Names-is_used raw k (double s) =
    ground (arith, StandsIn-contains raw (codes "{{" ++ (k ++ codes "}}")) s)
Names-is_used raw k (of_input s) =
    ground (arith, StandsIn-contains raw (codes "{{input." ++ (k ++ codes "}}")) s)

pub is_used-Names : (raw k : Bytes) → is_used raw k ≡ true → Names raw k
unfolding is_used
is_used-Names raw k h = elim (Bool-cases (contains raw (codes "{" ++ (k ++ codes "}")))) [
  | inl a ↦ single (contains-StandsIn raw _ a)
  | inr a ↦ elim (Bool-cases (contains raw (codes "{{" ++ (k ++ codes "}}")))) [
    | inl b ↦ double (contains-StandsIn raw _ b)
    | inr b ↦
        of_input (contains-StandsIn raw (codes "{{input." ++ (k ++ codes "}}")) (ground arith))
  ]
]

-- No schema is known, or it declares the key.
pub data IsDeclared (allowed : Option (List Bytes)) (k : Bytes) : Type 0 where
  unknown : allowed ≡ none → IsDeclared allowed k
  declared :
      (keys : List Bytes)
      → allowed ≡ some keys
      → Any (λ (j : Bytes). j ≡ k) keys
      → IsDeclared allowed k

mem_key-Any :
    (k : Bytes) (keys : List Bytes) → mem_key k keys ≡ true → Any (λ (j : Bytes). j ≡ k) keys
unfolding mem_key
mem_key-Any k [] h = absurd (ground arith)
mem_key-Any k (j ∷ keys) h = elim (Bool-cases (eqb j k)) [
  | inl same ↦ here (eqb→eq j k same)
  | inr other ↦ there (mem_key-Any k keys (ground arith))
]

Any-mem_key :
    (k : Bytes) (keys : List Bytes) → Any (λ (j : Bytes). j ≡ k) keys → mem_key k keys ≡ true
unfolding mem_key
Any-mem_key k [] i = elim i [ ]
Any-mem_key k (j ∷ keys) (here e) = ground (arith, eq→eqb j k e)
Any-mem_key k (j ∷ keys) (there i) = ground (arith, Any-mem_key k keys i)

pub is_allowed-IsDeclared :
    (allowed : Option (List Bytes)) (k : Bytes) → is_allowed allowed k ≡ true → IsDeclared allowed k
unfolding is_allowed
is_allowed-IsDeclared none k h = unknown refl
is_allowed-IsDeclared (some keys) k h = declared keys refl (mem_key-Any k keys h)

pub IsDeclared-is_allowed :
    (allowed : Option (List Bytes)) (k : Bytes) → IsDeclared allowed k → is_allowed allowed k ≡ true
unfolding is_allowed
IsDeclared-is_allowed allowed k (unknown e) = rw e refl
IsDeclared-is_allowed allowed k (declared keys e i) = rw e (Any-mem_key k keys i)
