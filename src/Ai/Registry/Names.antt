-- ===== src/Ai/Registry/Names.antt =====
-- internal/ai/registry.go: the sorted list of names.
use agenthub_skill_runtime.Base.{
  ◌≡◌, refl, Bool, true, false, not, ◌&&◌, ◌||◌, List, [], ◌∷◌, Bytes, eqb, eqb_iff, lex_le, arith,
}
use agenthub_skill_runtime.Base.Assoc.{mem_key, distinct}
use agenthub_skill_runtime.Ai.Registry.{insert_name, sort_names}

-- sort.Strings keeps the names and puts them in order.
abbrev pub sorted : List Bytes → Bool
sorted [] = true
sorted (k ∷ []) = true
sorted (k ∷ j ∷ ks) = lex_le k j && sorted (j ∷ ks)

lex_le_total : (s t : Bytes) → lex_le s t ≡ false → lex_le t s ≡ true
unfolding lex_le
lex_le_total [] t h = absurd (cc)
lex_le_total (a ∷ s) [] h = refl
lex_le_total (a ∷ s) (b ∷ t) h = ground (arith, lex_le_total s t)

mem_key-insert_name :
    (j k : Bytes) (ks : List Bytes) → mem_key j (insert_name k ks) ≡ (eqb k j || mem_key j ks)
unfolding mem_key insert_name
mem_key-insert_name j k [] = refl
mem_key-insert_name j k (i ∷ ks) = ground (arith, mem_key-insert_name j k ks)

pub mem_key-sort_names : (j : Bytes) (ks : List Bytes) → mem_key j (sort_names ks) ≡ mem_key j ks
unfolding mem_key sort_names
mem_key-sort_names j [] = refl
mem_key-sort_names j (k ∷ ks) =
    ground (arith, mem_key-sort_names j ks, mem_key-insert_name j k (sort_names ks))

distinct-insert_name :
    (k : Bytes) (ks : List Bytes)
    → distinct (insert_name k ks) ≡ (not (mem_key k ks) && distinct ks)
unfolding distinct insert_name mem_key
distinct-insert_name k [] = refl
distinct-insert_name k (i ∷ ks) =
    ground (arith, distinct-insert_name k ks, mem_key-insert_name i k ks, eqb_iff i k, eqb_iff k i)

pub distinct-sort_names : (ks : List Bytes) → distinct (sort_names ks) ≡ distinct ks
unfolding distinct sort_names
distinct-sort_names [] = refl
distinct-sort_names (k ∷ ks) =
    ground (
      arith,
      distinct-sort_names ks,
      distinct-insert_name k (sort_names ks),
      mem_key-sort_names k ks,
    )

-- Putting a name behind one that is not above it keeps the order.
insert_name-sorted :
    (k : Bytes) (ks : List Bytes) → sorted ks ≡ true → sorted (insert_name k ks) ≡ true
unfolding insert_name
insert_name-sorted k [] h = refl
insert_name-sorted k (i ∷ []) h = ground (arith, lex_le_total k i)
insert_name-sorted k (i ∷ j ∷ ks) h =
    ground (arith, lex_le_total k i, insert_name-sorted k (j ∷ ks))

pub sort_names-sorted : (ks : List Bytes) → sorted (sort_names ks) ≡ true
unfolding sort_names
sort_names-sorted [] = refl
sort_names-sorted (k ∷ ks) = insert_name-sorted k (sort_names ks) (sort_names-sorted ks)
