-- ===== src/Middleware/Chain.antt =====
-- internal/middleware: cors.go, requestid.go, recovery.go and chain.go, and the order in which
-- internal/server/server.go puts them around the protected routes. The log is in
-- Log.antt. A handler that panics does so before it has written a status.
pub mod Reached
use agenthub_skill_runtime.Base.{
  ℕ, Bool, true, false, not, ◌&&◌, ◌||◌, List, [], ◌∷◌, ◌++◌, Option, none, some, Bytes, codes,
  is_empty, eqb, any, trim_space, if◌then◌else◌,
}
use agenthub_skill_runtime.Base.Assoc.{Assoc, insert}
use agenthub_skill_runtime.Executor.{str, Object, empty, entry}
use agenthub_skill_runtime.Middleware.Auth.{Identity, Decision, unauthorized, next}

-- What the middleware reads of a request, "" for a header that is absent, and what it has put into
-- the context.
pub record Incoming : Type 0 where
  pub method : Bytes
  pub origin : Bytes
  pub request_id : Bytes
  pub context_request_id : Option Bytes
  pub identity : Option Identity

-- The status, the headers under their canonical names, and the JSON body.
pub record Reply : Type 0 where
  pub status : ℕ
  pub headers : Assoc Bytes
  pub body : Object

pub data Outcome : Type 0 where
  replied : Reply → Outcome
  panicked : Assoc Bytes → Outcome

-- http.Handler, from the request and the headers that are already set
abbrev pub Handler : Type 0
Handler = Incoming → Assoc Bytes → Outcome

-- originsMap and allowAll: the loop ends at "*".
unfoldable pub allowed_origins : List Bytes → List Bytes × Bool
allowed_origins [] = ([], false)
allowed_origins (o ∷ os) =
    let (origins, all) = allowed_origins os in
    if eqb o (codes "*") then ([], true) else (trim_space o ∷ origins, all)

unfoldable pub is_granted : List Bytes → Bytes → Bool
unfolding allowed_origins
is_granted allowed origin =
    let (origins, all) = allowed_origins allowed in
    not (is_empty origin) && (all || any (λ o. eqb o origin) origins)

abbrev pub grant : Bytes → Assoc Bytes → Assoc Bytes
grant origin h = insert (codes "Access-Control-Max-Age") (codes "86400") (
    insert (codes "Access-Control-Allow-Headers")
      (codes "Authorization, Content-Type, X-Request-ID")
      (insert (codes "Access-Control-Allow-Methods")
        (codes "GET, POST, PUT, PATCH, DELETE, OPTIONS")
        (insert (codes "Access-Control-Allow-Origin") origin h)))

unfoldable pub cors_headers : List Bytes → Bytes → Assoc Bytes → Assoc Bytes
cors_headers allowed origin h = if is_granted allowed origin then grant origin h else h

-- CORS
unfoldable pub cors : List Bytes → Handler → Handler
unfolding cors_headers
cors allowed handler r h =
    let h' = cors_headers allowed r.origin h in
    if eqb r.method (codes "OPTIONS")
    then replied (record { status = 204; headers = h'; body = empty })
    else handler r h'

-- RequestID, with the generated id
unfoldable pub with_request_id : Bytes → Handler → Handler
with_request_id uuid handler r h =
    let id = if is_empty r.request_id then uuid else r.request_id in
    handler (record r { context_request_id = some id }) (insert (codes "X-Request-ID") id h)

abbrev pub json_error : ℕ → Bytes → Assoc Bytes → Reply
json_error status message h = record {
  status = status;
  headers = insert (codes "Content-Type") (codes "application/json") h;
  body = entry (codes "error") (str message) empty;
}

abbrev pub recovered : Outcome → Outcome
recovered (replied reply) = replied reply
recovered (panicked h) = replied (json_error 500 (codes "internal server error") h)

-- Recovery: the answer
unfoldable pub recovery_answer : Handler → Handler
recovery_answer handler r h = recovered (handler r h)

abbrev pub decided : Decision → Handler → Handler
decided (unauthorized message) handler r h = replied (json_error 401 message h)
decided (next id) handler r h = handler (record r { identity = some id }) h

-- Chain.Protected around a handler, without the log: Recovery, RequestID, Logger, Auth
unfoldable pub guarded : Bytes → Decision → Handler → Handler
unfolding with_request_id
guarded uuid decision handler = recovery_answer (with_request_id uuid (decided decision handler))

-- New: CORS at the root, and the protected group behind it
unfoldable pub serve : List Bytes → Bytes → Decision → Handler → Incoming → Outcome
unfolding guarded
serve allowed uuid decision handler r = cors allowed (guarded uuid decision handler) r []
