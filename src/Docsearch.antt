-- ===== src/Docsearch.antt =====
-- internal/executor/docsearch: executor.go and embedding_client.go. A component of an embedding, a
-- float32, stands as the text that %g prints; the embedding service and the vector search of the
-- database are records of functions.
pub mod Search
mod Tests
use agenthub_skill_runtime.Base.{
  ℕ, Bool, true, false, not, ◌||◌, ◌&&◌, List, [], ◌∷◌, ◌++◌, Option, none, some, Bytes, codes,
  is_empty, ◌==◌, if◌then◌else◌,
}
use agenthub_skill_runtime.Base.Decimal.{itoa}
use agenthub_skill_runtime.Base.Int.{ℤ, pos, negsuc, is_zero, is_positive, magnitude}
use agenthub_skill_runtime.Executor.{
  Value, null, float, int, str, arr, obj, Values, nil, cons, Object, empty, entry, Float64, to_int,
  field?, as_string, as_float, Error, leaf, Result, ok, err, ◌>>=◌, ◌>>◌, require, or_wrap,
  decode_field, string_field, int_field, type_error, ExecutionContext, ToolResult,
}
use agenthub_skill_runtime.Executor.Resolver.{tenant_schema}

-- docSearchConfig
pub record DocSearchConfig : Type 0 where
  pub knowledge_base_id : Bytes
  pub top_k : ℤ
  pub similarity_threshold : Float64
  pub embedding_url : Bytes

abbrev pub zero_float : Float64
zero_float = record { negative = false; mantissa = 0; places = 0 }

abbrev pub float_of_int : ℤ → Float64
float_of_int (pos n) = record { negative = false; mantissa = n; places = 0 }
float_of_int (negsuc n) = record { negative = true; mantissa = ℕ.suc n; places = 0 }

abbrev pub set_float : Value → Float64 → Result Float64
set_float null f = ok f
set_float (float g) f = ok g
set_float (int i) f = ok (float_of_int i)
set_float _ f = err type_error

abbrev pub text_or : Bytes → Option Bytes → Bytes
text_or [] (some s) = s
text_or s _ = s

-- int(raw["topK"]), or else int(raw["limit"])
abbrev pub alias_of : Option Float64 → Option Float64 → ℤ
alias_of (some f) limit = to_int f
alias_of none (some f) = to_int f
alias_of none none = pos 0

abbrev pub float_or : Float64 → Option Float64 → Float64
float_or f none = f
float_or f (some g) = if f.mantissa == 0 then g else f

-- parseDocSearchConfig
unfoldable pub parse_doc_search_config : Object → Result DocSearchConfig
unfolding decode_field
parse_doc_search_config raw = or_wrap (codes "unmarshal config: ") do
  knowledge_base_id ← string_field (codes "knowledge_base_id") raw
  top_k ← int_field (codes "top_k") raw
  similarity_threshold ← decode_field (codes "similarity_threshold") set_float raw zero_float
  embedding_url ← string_field (codes "embedding_url") raw
  ok (record {
    knowledge_base_id = text_or knowledge_base_id (as_string (field? raw (codes "kbId")));
    top_k =
        if is_zero top_k
        then alias_of (as_float (field? raw (codes "topK"))) (as_float (field? raw (codes "limit")))
        else top_k;
    similarity_threshold =
        float_or similarity_threshold (as_float (field? raw (codes "similarityThreshold")));
    embedding_url = text_or embedding_url (as_string (field? raw (codes "embeddingUrl")));
  })

-- The embedding service: a POST of a text to a URL gives a status, the raw body, and the decoded
-- embedding.
pub record EmbedReply : Type 0 where
  pub status : ℕ
  pub raw : Bytes
  pub embedding : Result (List Bytes)

-- searchResult
pub record SearchResult : Type 0 where
  pub content : Bytes
  pub score : Float64
  pub document_id : Bytes
  pub document_name : Bytes

-- rows.Scan of each row, and rows.Err() at the end
pub record Chunks : Type 0 where
  pub rows : List (Result SearchResult)
  pub error : Option Error

pub record Services : Type 0 where
  pub post : Bytes → Bytes → Result EmbedReply
  -- the query in a schema, with its vector, knowledge base, threshold and limit
  pub search : Bytes → Bytes → Bytes → Float64 → ℕ → Result Chunks

-- float32SliceToVector
unfoldable pub join_comma : List Bytes → Bytes
join_comma [] = []
join_comma (s ∷ []) = s
join_comma (s ∷ t ∷ more) = s ++ (b',' ∷ join_comma (t ∷ more))

unfoldable pub float32_slice_to_vector : List Bytes → Bytes
unfolding join_comma
float32_slice_to_vector v = b'[' ∷ (join_comma v ++ b']' ∷ [])

abbrev pub some_embedding : List Bytes → Result (List Bytes)
some_embedding [] = err (leaf (codes "embedding client: empty embedding returned"))
some_embedding (x ∷ v) = ok (x ∷ v)

-- Embed
unfoldable pub embed : Services → Bytes → Bytes → Result (List Bytes)
embed services base_url text = do
  reply ←
      or_wrap (codes "embedding client: request failed: ")
        (services.post (base_url ++ codes "/embed") text)
  require (reply.status == 200) (
      leaf (
        codes "embedding client: service returned "
        ++ (itoa reply.status ++ (codes ": " ++ reply.raw))))
  v ← or_wrap (codes "embedding client: decode response: ") reply.embedding
  some_embedding v

-- The loop over the rows.
unfoldable pub scan_all : List (Result SearchResult) → Result (List SearchResult)
scan_all [] = ok []
scan_all (row ∷ rows) =
    or_wrap (codes "scan row: ") row >>= λ r. scan_all rows >>= λ rs. ok (r ∷ rs)

abbrev pub unless_error : Option Error → List SearchResult → Result (List SearchResult)
unless_error none rs = ok rs
unless_error (some e) rs = err e

-- searchChunks
unfoldable pub search_chunks :
    Services → Bytes → Bytes → List Bytes → Float64 → ℕ → Result (List SearchResult)
unfolding scan_all
search_chunks services tenant_id knowledge_base_id embedding threshold top_k = do
  chunks ← or_wrap (codes "vector search query: ") (
      services.search (tenant_schema tenant_id) (float32_slice_to_vector embedding)
        knowledge_base_id threshold top_k)
  results ← scan_all chunks.rows
  unless_error chunks.error results

unfoldable pub result_values : List SearchResult → Values
result_values [] = nil
result_values (r ∷ rs) =
    cons
      (obj (
        entry (codes "content") (str r.content) (
          entry (codes "documentId") (str r.document_id) (
            entry (codes "documentName") (str r.document_name)
              (entry (codes "score") (float r.score) empty)))))
      (result_values rs)

abbrev pub limit_of : ℤ → ℕ
limit_of top_k = if is_positive top_k then magnitude top_k else 5

abbrev pub threshold_of : Float64 → Float64
threshold_of f =
    if f.negative || f.mantissa == 0
    then record { negative = false; mantissa = 7; places = 1 }
    else f

abbrev pub query_text : Option Bytes → Bytes
query_text none = []
query_text (some s) = s

-- Execute, with the default URL of the executor
unfoldable pub execute : Services → Bytes → ExecutionContext → Result ToolResult
execute services default_url ec = do
  cfg ← or_wrap (codes "docsearch executor: parse config: ") (parse_doc_search_config ec.config)
  require (not (is_empty cfg.knowledge_base_id))
      (leaf (codes "docsearch executor: knowledge_base_id is required"))
  let url = if is_empty cfg.embedding_url then default_url else cfg.embedding_url
  require (not (is_empty url)) (leaf (codes "docsearch executor: embedding_url is required"))
  let query = query_text (as_string (field? ec.input (codes "query")))
  require (not (is_empty query))
      (leaf (codes "docsearch executor: input.query must be a non-empty string"))
  embedding ← or_wrap (codes "docsearch executor: embed query: ") (embed services url query)
  results ← or_wrap (codes "docsearch executor: vector search: ") (
      search_chunks services ec.tenant_id cfg.knowledge_base_id embedding
        (threshold_of cfg.similarity_threshold) (limit_of cfg.top_k))
  ok (record {
    output = some (entry (codes "results") (arr (result_values results)) empty);
    error = [];
    latency_ms = 0;
  })
