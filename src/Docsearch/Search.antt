-- ===== src/Docsearch/Search.antt =====
-- What a document search sends and returns.
use mathlib.Core.Path.{subst}
use agenthub_skill_runtime.Base.Int.{ℤ, is_positive, magnitude}
use agenthub_skill_runtime.Base.{
  ◌||◌, ◌==◌, if◌then◌else◌, some, ℕ, ◌≡◌, ◌≢◌, refl, sym, ap, ◌∙◌, ◌↔◌, inl, inr, false, List, [],
  ◌∷◌, ◌++◌, none, Bytes, codes, is_empty, map, arith, if◌then◌else◌, Option-cases,
}
use agenthub_skill_runtime.Executor.{
  arr, Float64, empty, entry, field?, as_string, Result, ok, Result-cases, ExecutionContext,
  ToolResult,
}
use agenthub_skill_runtime.Executor.Resolver.{tenant_schema}
use agenthub_skill_runtime.Docsearch.{
  DocSearchConfig, parse_doc_search_config, EmbedReply, SearchResult, Chunks, Services,
  float32_slice_to_vector, some_embedding, embed, scan_all, search_chunks, result_values, limit_of,
  threshold_of, query_text, execute,
}

scan_all-ok :
    (rows : List (Result SearchResult)) (rs : List SearchResult)
    → scan_all rows ≡ ok rs
    → rows ≡ map ok rs
unfolding scan_all
scan_all-ok [] rs h = subst (λ (x : List SearchResult). [] ≡ map ok x) {x = []} (ground arith) refl
scan_all-ok (row ∷ rows) rs h = elim (Result-cases row) [
  | inr (e, q) ↦ absurd (ground arith)
  | inl (r, q) ↦ elim (Result-cases (scan_all rows)) [
    | inr (e, q2) ↦ absurd (ground arith)
    | inl (more, q2) ↦
        subst (λ (x : List SearchResult). row ∷ rows ≡ map ok x) {x = r ∷ more} (ground arith)
          (rw (q, scan_all-ok rows more q2) refl)
  ]
]

ok-scan_all : (rs : List SearchResult) → scan_all (map ok rs) ≡ ok rs
unfolding scan_all
ok-scan_all [] = refl
ok-scan_all (r ∷ rs) = rw (ok-scan_all rs) refl

-- The embedding of a text: a nonempty one, in an answer 200 of the service.
pub record IsEmbedding (services : Services) (url text : Bytes) (v : List Bytes) : Type 0 where
  pub reply : EmbedReply
  pub posted : services.post (url ++ codes "/embed") text ≡ ok reply
  pub accepted : reply.status ≡ 200
  pub embedded : reply.embedding ≡ ok v
  pub filled : v ≢ []

-- The rows of one vector search in the schema of the tenant, all of them.
pub record AreFound (services : Services) (tenant_id base : Bytes) (v : List Bytes)
    (threshold : Float64) (top_k : ℕ) (results : List SearchResult) : Type 0 where
  pub chunks : Chunks
  pub searched :
      services.search (tenant_schema tenant_id) (float32_slice_to_vector v) base threshold top_k
      ≡ ok chunks
  pub complete : chunks.rows ≡ map ok results
  pub ended : chunks.error ≡ none

module _ (services : Services) where
  some_embedding-ok : (v w : List Bytes) → some_embedding v ≡ ok w → (v ≡ w) × (w ≢ [])
  some_embedding-ok [] w h = absurd (ground arith)
  some_embedding-ok (x ∷ v) w h = (ground arith, ground arith)

  embed-IsEmbedding :
      (url text : Bytes) (v : List Bytes)
      → embed services url text ≡ ok v
      → IsEmbedding services url text v
  unfolding embed
  embed-IsEmbedding url text v h =
      elim (Result-cases (services.post (url ++ codes "/embed") text)) [
        | inr (e, q) ↦ absurd (ground arith)
        | inl (reply, q) ↦ elim (Result-cases reply.embedding) [
          | inr (e, q2) ↦ absurd (ground arith)
          | inl (w, q2) ↦
              let (same, filled) = some_embedding-ok w v (ground arith) in
              record {
                reply = reply;
                posted = q;
                accepted = ground arith;
                embedded = q2 ∙ ap ok same;
                filled = filled;
              }
        ]
      ]

  filled-some_embedding : (v : List Bytes) → v ≢ [] → some_embedding v ≡ ok v
  filled-some_embedding [] h = absurd (h refl)
  filled-some_embedding (x ∷ v) h = refl

  IsEmbedding-embed :
      (url text : Bytes) (v : List Bytes)
      → IsEmbedding services url text v
      → embed services url text ≡ ok v
  unfolding embed
  IsEmbedding-embed url text v w =
      let some_one = filled-some_embedding v w.filled in
      rw (w.posted, w.accepted, w.embedded, some_one) refl

  search_chunks-AreFound :
      (tenant_id base : Bytes) (v : List Bytes) (threshold : Float64) (top_k : ℕ)
      (results : List SearchResult)
      → search_chunks services tenant_id base v threshold top_k ≡ ok results
      → AreFound services tenant_id base v threshold top_k results
  unfolding search_chunks
  search_chunks-AreFound tenant_id base v threshold top_k results h =
      elim (Result-cases (
        services.search (tenant_schema tenant_id) (float32_slice_to_vector v) base threshold
          top_k)) [
            | inr (e, q) ↦ absurd (ground arith)
            | inl (chunks, q) ↦ elim (Result-cases (scan_all chunks.rows)) [
              | inr (e, q2) ↦ absurd (ground arith)
              | inl (rs, q2) ↦ elim (Option-cases chunks.error) [
                | inr (e, q3) ↦ absurd (ground arith)
                | inl q3 ↦
                    let same : rs ≡ results = ground arith in
                    record {
                      chunks = chunks;
                      searched = q;
                      complete = scan_all-ok chunks.rows results (q2 ∙ ap ok same);
                      ended = q3;
                    }
              ]
            ]
          ]

  AreFound-search_chunks :
      (tenant_id base : Bytes) (v : List Bytes) (threshold : Float64) (top_k : ℕ)
      (results : List SearchResult)
      → AreFound services tenant_id base v threshold top_k results
      → search_chunks services tenant_id base v threshold top_k ≡ ok results
  unfolding search_chunks
  AreFound-search_chunks tenant_id base v threshold top_k results w =
      let scanned = ok-scan_all results in rw (w.searched, w.complete, scanned, w.ended) refl

-- The configured number if it is positive, else 5; the configured threshold if it is, else 0.7.
abbrev pub positive_or_five : ℤ → ℕ
positive_or_five n = if is_positive n then magnitude n else 5

abbrev pub positive_or_seven_tenths : Float64 → Float64
positive_or_seven_tenths f =
    if f.negative || f.mantissa == 0
    then record { negative = false; mantissa = 7; places = 1 }
    else f

module _ (services : Services) (default_url : Bytes) (ec : ExecutionContext) where
  abbrev pub url_of : DocSearchConfig → Bytes
  url_of cfg = if is_empty cfg.embedding_url then default_url else cfg.embedding_url

  abbrev pub query : Bytes
  query = query_text (as_string (field? ec.input (codes "query")))

  pub record Searched (r : ToolResult) : Type 0 where
    pub cfg : DocSearchConfig
    pub embedding : List Bytes
    pub results : List SearchResult
    pub parsed : parse_doc_search_config ec.config ≡ ok cfg
    pub based : is_empty cfg.knowledge_base_id ≡ false
    pub located : is_empty (url_of cfg) ≡ false
    pub asked : is_empty query ≡ false
    pub embedded : IsEmbedding services (url_of cfg) query embedding
    pub found :
        AreFound services ec.tenant_id cfg.knowledge_base_id embedding
          (positive_or_seven_tenths cfg.similarity_threshold)
          (positive_or_five cfg.top_k)
          results
    pub result : r ≡ record {
      output = some (entry (codes "results") (arr (result_values results)) empty);
      error = [];
      latency_ms = 0;
    }

  execute→Searched : (r : ToolResult) → execute services default_url ec ≡ ok r → Searched r
  unfolding execute
  execute→Searched r h = elim (Result-cases (parse_doc_search_config ec.config)) [
    | inr (e, q) ↦ absurd (ground arith)
    | inl (cfg, q) ↦ elim (Result-cases (embed services (url_of cfg) query)) [
      | inr (e, q2) ↦ absurd (ground arith)
      | inl (v, q2) ↦
          elim (Result-cases (
            search_chunks services ec.tenant_id cfg.knowledge_base_id v
              (threshold_of cfg.similarity_threshold) (limit_of cfg.top_k))) [
                | inr (e, q3) ↦ absurd (ground arith)
                | inl (results, q3) ↦ record {
                  cfg = cfg;
                  embedding = v;
                  results = results;
                  parsed = q;
                  based = ground arith;
                  located = ground arith;
                  asked = ground arith;
                  embedded = embed-IsEmbedding services (url_of cfg) query v q2;
                  found =
                      search_chunks-AreFound services ec.tenant_id cfg.knowledge_base_id v
                        (threshold_of cfg.similarity_threshold) (limit_of cfg.top_k) results q3;
                  result = ground arith;
                }
              ]
    ]
  ]

  Searched→execute : (r : ToolResult) → Searched r → execute services default_url ec ≡ ok r
  unfolding execute
  Searched→execute r w =
      let embedded = IsEmbedding-embed services (url_of w.cfg) query w.embedding w.embedded in
      let found =
        AreFound-search_chunks services ec.tenant_id w.cfg.knowledge_base_id w.embedding
          (threshold_of w.cfg.similarity_threshold) (limit_of w.cfg.top_k) w.results w.found in
      rw (w.parsed, w.based, w.located, w.asked, embedded, found) (ap ok (sym w.result))

  -- A document search succeeds exactly if the configuration has a knowledge base and there are an
  -- embedding URL, the tool's or the server's, and a query, the service answers with a nonempty
  -- embedding, and the vector search in the tenant's own schema, with that embedding, a positive
  -- threshold and limit (0.7 and 5 where none is configured), yields rows that can all be read; the
  -- results are then these rows.
  pub execute-Searched : (r : ToolResult) → (execute services default_url ec ≡ ok r) ↔ Searched r
  execute-Searched r = (execute→Searched r, Searched→execute r)
