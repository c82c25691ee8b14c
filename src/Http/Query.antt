-- ===== src/Http/Query.antt =====
-- internal/executor/http/executor.go: appendUnusedInputAsQuery, with url.Values.Encode.
pub mod Sorting
pub mod Naming
pub mod Forwarded
use agenthub_skill_runtime.Base.{
  ℕ, Bool, true, false, not, ◌&&◌, ◌||◌, List, [], ◌∷◌, ◌++◌, Option, none, some, Bytes, codes,
  contains, eqb, lex_le, any, is_empty, if◌then◌else◌,
}
use agenthub_skill_runtime.Base.Assoc.{Assoc, mem_key}
use agenthub_skill_runtime.Executor.{Value, Object, empty, entry}
use agenthub_skill_runtime.Http.Template.{query_escape}

-- used[k]: the key stands in the URL template in one of three forms
unfoldable pub is_used : Bytes → Bytes → Bool
is_used raw_template k =
    contains raw_template (codes "{" ++ (k ++ codes "}"))
    || contains raw_template (codes "{{" ++ (k ++ codes "}}"))
    || contains raw_template (codes "{{input." ++ (k ++ codes "}}"))

-- allowedKeys == nil || allowedKeys[k]
unfoldable pub is_allowed : Option (List Bytes) → Bytes → Bool
is_allowed none k = true
is_allowed (some allowed) k = mem_key k allowed

-- The values of qv: the keys that are not used and are allowed.
unfoldable pub query_values : (Value → Bytes) → Bytes → Option (List Bytes) → Object → Assoc Bytes
query_values sprint raw allowed empty = []
query_values sprint raw allowed (entry k v o) =
    let rest = query_values sprint raw allowed o in
    if is_used raw k || not (is_allowed allowed k) then rest else (k, sprint v) ∷ rest

-- The order of the keys in Encode.
unfoldable pub insert_sorted : Bytes × Bytes → Assoc Bytes → Assoc Bytes
insert_sorted p [] = p ∷ []
insert_sorted p (q ∷ m) = if lex_le p.0 q.0 then p ∷ q ∷ m else q ∷ insert_sorted p m

unfoldable pub sort_keys : Assoc Bytes → Assoc Bytes
unfolding insert_sorted
sort_keys [] = []
sort_keys (p ∷ m) = insert_sorted p (sort_keys m)

unfoldable pub encode_sorted : Assoc Bytes → Bytes
encode_sorted [] = []
encode_sorted ((k, v) ∷ []) = query_escape k ++ (b'=' ∷ query_escape v)
encode_sorted ((k, v) ∷ p ∷ m) =
    query_escape k ++ (b'=' ∷ (query_escape v ++ (b'&' ∷ encode_sorted (p ∷ m))))

-- qv.Encode()
unfoldable pub encode : Assoc Bytes → Bytes
unfolding sort_keys encode_sorted
encode m = encode_sorted (sort_keys m)

abbrev pub joined : Bytes → Assoc Bytes → Bytes
joined rendered [] = rendered
joined rendered (p ∷ m) =
    rendered ++ ((if contains rendered (codes "?") then b'&' else b'?') ∷ encode (p ∷ m))

unfoldable pub append_unused_input_as_query :
    (Value → Bytes) → Bytes → Bytes → Object → Option (List Bytes) → Bytes
unfolding query_values
append_unused_input_as_query sprint raw_template rendered_url input allowed =
    joined rendered_url (query_values sprint raw_template allowed input)
