-- ===== src/Http/Template/Escaping.antt =====
-- What url.QueryEscape lets through.
use agenthub_skill_runtime.Base.{
  ℕ, ◌<◌, ◌≡◌, refl, Bool, true, ◌||◌, [], ◌∷◌, Bytes, all, All, ◌==◌, arith,
}
use agenthub_skill_runtime.Http.Template.{is_unreserved, escape_byte, query_escape}

-- Letters, digits and the bytes - _ . ~ % +: no byte that has a meaning in a query or ends one.
abbrev pub is_query_safe : ℕ → Bool
is_query_safe c = is_unreserved c || c == b'%' || c == b'+'

escape_byte-safe :
    (c : ℕ) (rest : Bytes)
    → c < 256
    → all is_query_safe rest ≡ true
    → all is_query_safe (escape_byte c rest) ≡ true
escape_byte-safe c rest h hr = ground arith

-- An escaped text of bytes holds only bytes that are safe in a query.
pub query_escape-safe :
    (s : Bytes) → All (λ c. c < 256) s → all is_query_safe (query_escape s) ≡ true
unfolding query_escape
query_escape-safe [] h = refl
query_escape-safe (c ∷ s) h = escape_byte-safe c (query_escape s) h.0 (query_escape-safe s h.1)
