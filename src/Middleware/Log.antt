-- ===== src/Middleware/Log.antt =====
-- internal/middleware/logger.go, the log of recovery.go, and the chain of the protected routes with it: Recovery, RequestID,
-- Logger, Auth. The duration is left out of an entry, and the
-- panic with its stack out of the line that Recovery writes.
pub mod Entries
use agenthub_skill_runtime.Base.{
  ℕ, List, [], ◌∷◌, ◌++◌, Option, none, some, Bytes, codes, is_empty, eqb, if◌then◌else◌,
}
use agenthub_skill_runtime.Base.Assoc.{Assoc, insert}
use agenthub_skill_runtime.Executor.{empty}
use agenthub_skill_runtime.Middleware.Auth.{Decision}
use agenthub_skill_runtime.Middleware.Chain.{
  Incoming, Reply, Outcome, replied, panicked, Handler, cors_headers, decided, recovered,
}

-- A line of the log, with the status that statusWriter has kept.
pub record Entry : Type 0 where
  pub method : Bytes
  pub path : Bytes
  pub status : ℕ
  pub request_id : Option Bytes

-- What stands in the log: the entry of Logger, and the line of Recovery.
pub data Line : Type 0 where
  request : Entry → Line
  panic_recovered : Line

abbrev pub observed : Bytes → Incoming → Outcome → Outcome × List Line
observed path r (replied reply) = (
  replied reply,
  request (record {
    method = r.method;
    path = path;
    status = reply.status;
    request_id = r.context_request_id;
  })
      ∷ [],
)
observed path r (panicked h) = (panicked h, [])

-- Logger: a panic passes by the line that writes the entry.
unfoldable pub logger : Bytes → Handler → Incoming → Assoc Bytes → Outcome × List Line
logger path handler r h = observed path r (handler r h)

abbrev pub request_id_of : Bytes → Incoming → Bytes
request_id_of uuid r = if is_empty r.request_id then uuid else r.request_id

abbrev pub after_recovery : Outcome × List Line → Outcome × List Line
after_recovery (replied reply, log) = (replied reply, log)
after_recovery (panicked h, log) = (recovered (panicked h), log ++ panic_recovered ∷ [])

-- Recovery
unfoldable pub recovery :
    (Incoming → Assoc Bytes → Outcome × List Line) → Incoming → Assoc Bytes → Outcome × List Line
recovery handler r h = after_recovery (handler r h)

-- RequestID, around a handler that logs
unfoldable pub logged_request_id :
    Bytes
    → (Incoming → Assoc Bytes → Outcome × List Line)
    → Incoming
    → Assoc Bytes
    → Outcome × List Line
logged_request_id uuid handler r h =
    let id = request_id_of uuid r in
    handler (record r { context_request_id = some id }) (insert (codes "X-Request-ID") id h)

-- Chain.Protected around a handler, with the log
unfoldable pub guarded_logged :
    Bytes → Bytes → Decision → Handler → Incoming → Assoc Bytes → Outcome × List Line
unfolding logger recovery logged_request_id
guarded_logged path uuid decision handler =
    recovery (logged_request_id uuid (logger path (decided decision handler)))

-- New: CORS at the root, and the protected group behind it, with the log
unfoldable pub serve_logged :
    Bytes → List Bytes → Bytes → Decision → Handler → Incoming → Outcome × List Line
unfolding guarded_logged
serve_logged path allowed uuid decision handler r =
    let h = cors_headers allowed r.origin [] in
    if eqb r.method (codes "OPTIONS")
    then (replied (record { status = 204; headers = h; body = empty }), [])
    else guarded_logged path uuid decision handler r h
