-- ===== src/Docsearch/Tests.antt =====
-- The document search with concrete services.
use agenthub_skill_runtime.Base.{some, ◌≡◌, ◌↔◌, [], ◌∷◌, none, false, codes}
use agenthub_skill_runtime.Executor.{str, arr, empty, entry, ok, ExecutionContext, ToolResult}
use agenthub_skill_runtime.Docsearch.{Services, SearchResult, result_values, execute}
use agenthub_skill_runtime.Docsearch.Search.{Searched, execute-Searched}

abbrev chunk : SearchResult
chunk = record {
  content = codes "text";
  score = record { negative = false; mantissa = 9; places = 1 };
  document_id = codes "d1";
  document_name = codes "a.pdf";
}

abbrev services : Services
services = record {
  post = λ url text.
      ok (record { status = 200; raw = []; embedding = ok (codes "0.1" ∷ codes "0.2" ∷ []) });
  search = λ schema vector base threshold top_k. ok (record { rows = ok chunk ∷ []; error = none });
}

abbrev ec : ExecutionContext
ec = record {
  tool_id = codes "t1";
  skill_slug = [];
  tenant_id = codes "acme";
  caller_token = [];
  input = entry (codes "query") (str (codes "what")) empty;
  config = entry (codes "kbId") (str (codes "kb1")) empty;
}

abbrev answer : ToolResult
answer = record {
  output = some (entry (codes "results") (arr (result_values (chunk ∷ []))) empty);
  error = [];
  latency_ms = 0;
}

execute-Searched_example :
    (execute services (codes "http://embedding") ec ≡ ok answer)
    ↔ Searched services (codes "http://embedding") ec answer
execute-Searched_example = execute-Searched services (codes "http://embedding") ec answer
