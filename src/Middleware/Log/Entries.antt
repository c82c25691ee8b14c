-- ===== src/Middleware/Log/Entries.antt =====
-- What requests leave in the log.
use agenthub_skill_runtime.Base.{◌≡◌, ◌≢◌, List, [], ◌∷◌, some, Bytes, codes}
use agenthub_skill_runtime.Base.Assoc.{Assoc}
use agenthub_skill_runtime.Middleware.Chain.{Incoming, Reply, panicked, Handler}
use agenthub_skill_runtime.Middleware.Log.{Line, request, panic_recovered, Entry, request_id_of}

abbrev pub entry_of : Bytes → Bytes → Incoming → Reply → Entry
entry_of path uuid r reply = record {
  method = r.method;
  path = path;
  status = reply.status;
  request_id = some (request_id_of uuid r);
}

-- The log of one request: nothing for a preflight, the line of Recovery for a panic, and else its entry.
pub data IsLogged (path uuid : Bytes) (handler : Handler) (r : Incoming) (reply : Reply)
    : List Line → Type 0 where
  unlogged : r.method ≡ codes "OPTIONS" → IsLogged path uuid handler r reply []
  panicking :
      (seen : Incoming) (h h' : Assoc Bytes)
      → r.method ≢ codes "OPTIONS"
      → handler seen h ≡ panicked h'
      → reply.status ≡ 500
      → IsLogged path uuid handler r reply (panic_recovered ∷ [])
  logged :
      r.method ≢ codes "OPTIONS"
      → IsLogged path uuid handler r reply (request (entry_of path uuid r reply) ∷ [])
