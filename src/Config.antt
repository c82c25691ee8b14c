-- ===== src/Config.antt =====
-- internal/config/config.go, internal/database/postgres.go, and what cmd/skillruntime/main.go does
-- with them before it serves. The parsing of the environment by the tags of Config, and pgxpool, are
-- parameters.
pub mod Startup
pub mod Origins
mod Tests
use agenthub_skill_runtime.Base.{
  ℕ, ◌*◌, Bool, true, false, List, [], ◌∷◌, ◌++◌, Bytes, codes, is_empty, eqb, split_byte,
  if◌then◌else◌,
}
use agenthub_skill_runtime.Base.Int.{ℤ, pos, negsuc}
use agenthub_skill_runtime.Executor.{Error, Result, ok, err, ◌>>=◌, or_wrap}

pub record Config : Type 0 where
  pub server_port : Bytes
  pub database_url : Bytes
  pub keycloak_base_url : Bytes
  pub keycloak_public_url : Bytes
  pub cors_allowed_origins : Bytes
  pub log_level : Bytes
  pub otlp_endpoint : Bytes
  pub rabbit_mq_url : Bytes
  pub backend_base_url : Bytes
  pub embedding_url : Bytes

abbrev pub with_public_url : Config → Config
with_public_url cfg =
    if is_empty cfg.keycloak_public_url
    then record cfg { keycloak_public_url = cfg.keycloak_base_url }
    else cfg

-- Load, with what env.Parse gives
unfoldable pub load : Result Config → Result Config
load parsed = or_wrap (codes "config: ") parsed >>= λ cfg. ok (with_public_url cfg)

-- CORSOrigins
unfoldable pub cors_origins : Config → List Bytes
cors_origins cfg = split_byte cfg.cors_allowed_origins b','

-- pgxpool.Config, as far as it is set here, with the rest of the DSN; durations in seconds
pub record PoolConfig : Type 0 where
  pub dsn : Bytes
  pub max_conns : ℕ
  pub min_conns : ℕ
  pub max_conn_lifetime : ℕ
  pub max_conn_idle_time : ℕ

pub record Pgxpool : Type 0 where
  pub parse_config : Bytes → Result PoolConfig
  pub new_with_config : PoolConfig → Result (Unit {0})
  pub ping : PoolConfig → Result (Unit {0})

-- What happens to pools, in order.
pub data PoolEvent : Type 0 where
  opened : PoolConfig → PoolEvent
  closed : PoolConfig → PoolEvent

abbrev pub limited : PoolConfig → PoolConfig
limited cfg = record cfg {
  max_conns = 25;
  min_conns = 2;
  max_conn_lifetime = 3600;
  max_conn_idle_time = 30 * 60;
}

abbrev pub pinged : PoolConfig → Result (Unit {0}) → Result PoolConfig × List PoolEvent
pinged cfg (ok answer) = (ok cfg, opened cfg ∷ [])
pinged cfg (err e) = (or_wrap (codes "database: ping: ") (err e), opened cfg ∷ closed cfg ∷ [])

abbrev pub created : Pgxpool → PoolConfig → Result (Unit {0}) → Result PoolConfig × List PoolEvent
created lib cfg (err e) = (or_wrap (codes "database: create pool: ") (err e), [])
created lib cfg (ok pool) = pinged cfg (lib.ping cfg)

abbrev pub configured : Pgxpool → Result PoolConfig → Result PoolConfig × List PoolEvent
configured lib (err e) = (or_wrap (codes "database: parse DSN: ") (err e), [])
configured lib (ok cfg) = created lib (limited cfg) (lib.new_with_config (limited cfg))

-- NewPool
unfoldable pub new_pool : Pgxpool → Bytes → Result PoolConfig × List PoolEvent
new_pool lib dsn = configured lib (lib.parse_config dsn)

-- slog's levels
unfoldable pub log_level : Bytes → ℤ
log_level level =
    if eqb level (codes "debug")
    then negsuc 3
    else if eqb level (codes "warn")
    then pos 4
    else if eqb level (codes "error")
    then pos 8
    else pos 0

-- The life of the process: it exits by 1, or serves at an address, at which it listens until a
-- signal comes (ok), or an error of the listener (err), which ends it by 1 and closes no pool.
pub data Ending : Type 0 where
  exited : ℕ → List PoolEvent → Ending

abbrev pub listened : PoolConfig → List PoolEvent → Result (Unit {0}) → Ending
listened pool events (ok signal) = exited 0 (events ++ closed pool ∷ [])
listened pool events (err e) = exited 1 events

abbrev pub address : Config → Bytes
address cfg = codes ":" ++ cfg.server_port

abbrev pub with_pool :
    (Bytes → Result (Unit {0})) → Config → Result PoolConfig × List PoolEvent → Ending
with_pool listen cfg (err e, events) = exited 1 events
with_pool listen cfg (ok pool, events) = listened pool events (listen (address cfg))

abbrev pub with_config : Pgxpool → (Bytes → Result (Unit {0})) → Result Config → Ending
with_config lib listen (err e) = exited 1 []
with_config lib listen (ok cfg) = with_pool listen cfg (new_pool lib cfg.database_url)

-- main
unfoldable pub main : Result Config → Pgxpool → (Bytes → Result (Unit {0})) → Ending
unfolding new_pool
main parsed lib listen = with_config lib listen (load parsed)
