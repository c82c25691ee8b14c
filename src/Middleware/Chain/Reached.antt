-- ===== src/Middleware/Chain/Reached.antt =====
-- Which requests reach a protected handler, and which origins are granted access.
use agenthub_skill_runtime.Base.{
  eqb→eq, ◌≡◌, refl, ◌⊎◌, inl, inr, not, ◌&&◌, ◌||◌, List, [], ◌∷◌, some, Bytes, codes, is_empty,
  eqb, any, trim_space, arith, Bool-cases, if◌then◌else◌,
}
use agenthub_skill_runtime.Base.Assoc.{Assoc, insert}
use agenthub_skill_runtime.Executor.{empty}
use agenthub_skill_runtime.Middleware.Auth.{Identity, Decision, unauthorized, next}
use agenthub_skill_runtime.Middleware.Chain.{
  json_error, cors_headers, Incoming, Reply, Outcome, replied, panicked, Handler, allowed_origins,
  is_granted, cors, recovery_answer, with_request_id, guarded, serve,
}

allowed_origins-any :
    (allowed : List Bytes) (origin : Bytes)
    → ((allowed_origins allowed).1 || any (λ o. eqb o origin) (allowed_origins allowed).0)
      ≡ (any (λ o. eqb o (codes "*")) allowed || any (λ o. eqb (trim_space o) origin) allowed)
unfolding allowed_origins
allowed_origins-any [] origin = refl
allowed_origins-any (o ∷ os) origin = elim (Bool-cases (eqb o (codes "*"))) [
  | inl star ↦ ground (arith, star)
  | inr other ↦ ground (arith, other, allowed_origins-any os origin)
]

-- An origin is granted access exactly if it is not empty and the list has "*", at any place, or an
-- entry that equals it but for blanks around the entry.
pub is_granted_lem :
    (allowed : List Bytes) (origin : Bytes)
    → is_granted allowed origin ≡ (
        not (is_empty origin)
        && (any (λ o. eqb o (codes "*")) allowed || any (λ o. eqb (trim_space o) origin) allowed))
unfolding is_granted
is_granted_lem allowed origin = rw (allowed_origins-any allowed origin) refl

-- How a request to a protected route was answered.
pub data Answered (decision : Decision) (handler : Handler) (r : Incoming) (reply : Reply)
    : Type 0 where
  preflight : r.method ≡ codes "OPTIONS" → reply.status ≡ 204 → Answered decision handler r reply
  refused :
      (message : Bytes)
      → decision ≡ unauthorized message
      → reply.status ≡ 401
      → Answered decision handler r reply
  handled :
      (id : Identity) (seen : Incoming) (h : Assoc Bytes)
      → decision ≡ next id
      → seen.identity ≡ some id
      → seen.method ≡ r.method
      → handler seen h ≡ replied reply
      → Answered decision handler r reply
  failed :
      (id : Identity) (seen : Incoming) (h h' : Assoc Bytes)
      → decision ≡ next id
      → seen.identity ≡ some id
      → handler seen h ≡ panicked h'
      → reply.status ≡ 500
      → Answered decision handler r reply

pub Outcome-cases :
    (o : Outcome) → ((reply : Reply) × (o ≡ replied reply)) ⊎ ((h : Assoc Bytes) × (o ≡ panicked h))
Outcome-cases (replied reply) = inl (reply, refl)
Outcome-cases (panicked h) = inr (h, refl)

-- The request and the headers that the innermost handler gets.
abbrev id_of : Bytes → Incoming → Bytes
id_of uuid r = if is_empty r.request_id then uuid else r.request_id

behind_cors :
    (uuid : Bytes) (decision : Decision) (handler : Handler) (r : Incoming) (h : Assoc Bytes)
    → (reply : Reply) × (guarded uuid decision handler r h ≡ replied reply)
      × Answered decision handler r reply
unfolding guarded recovery_answer with_request_id
behind_cors uuid (unauthorized message) handler r h = (_, refl, refused message refl refl)
behind_cors uuid (next id) handler r h =
    let seen = record r { context_request_id = some (id_of uuid r); identity = some id } in
    let h' = insert (codes "X-Request-ID") (id_of uuid r) h in
    elim (Outcome-cases (handler seen h')) [
      | inl (reply, e) ↦ (reply, rw e, handled id seen h' refl refl refl e)
      | inr (h'', e) ↦ (
        json_error 500 (codes "internal server error") h'',
        rw e,
        failed id seen h' h'' refl refl e refl,
      )
    ]

-- Every request to a protected route is answered, also if the handler panics: by 204 for a preflight,
-- by 401 where Auth refuses, and else by the handler, which sees the identity that Auth has verified;
-- its panic is answered by 500.
pub serve-Answered :
    (allowed : List Bytes) (uuid : Bytes) (decision : Decision) (handler : Handler) (r : Incoming)
    → (reply : Reply) × (serve allowed uuid decision handler r ≡ replied reply)
      × Answered decision handler r reply
unfolding serve cors
serve-Answered allowed uuid decision handler r =
    elim (Bool-cases (eqb r.method (codes "OPTIONS"))) [
      | inl options ↦ (
        record { status = 204; headers = cors_headers allowed r.origin []; body = empty },
        rw options,
        preflight (eqb→eq r.method (codes "OPTIONS") options) refl,
      )
      | inr other ↦
          let (reply, e, answered) =
            behind_cors uuid decision handler r (cors_headers allowed r.origin []) in
          (reply, rw other e, answered)
    ]
