-- ===== src/Config/Tests.antt =====
-- A configuration, and a process that is stopped by a signal.
use agenthub_skill_runtime.Base.{
  ◌≡◌, refl, ◌↔◌, not, ◌&&◌, ◌||◌, List, [], ◌∷◌, codes, is_empty, eqb, any, trim_space,
  contains_byte,
}
use agenthub_skill_runtime.Config.{
  Config, cors_origins, PoolConfig, Pgxpool, PoolEvent, opened, closed, limited, exited, main,
}
use agenthub_skill_runtime.Config.Origins.{is_granted-cors_origins}
use agenthub_skill_runtime.Config.Startup.{Served, main_iff}
use agenthub_skill_runtime.Docsearch.{join_comma}
use agenthub_skill_runtime.Executor.{ok}
use agenthub_skill_runtime.Middleware.Chain.{is_granted}

abbrev cfg : Config
cfg = record {
  server_port = codes "8083";
  database_url = codes "postgres://core";
  keycloak_base_url = codes "https://idp";
  keycloak_public_url = [];
  cors_allowed_origins = codes "https://a, https://b";
  log_level = codes "info";
  otlp_endpoint = [];
  rabbit_mq_url = [];
  backend_base_url = codes "http://api";
  embedding_url = codes "http://embed";
}

is_granted-cors_origins_example : is_granted (cors_origins cfg) (codes "https://b") ≡ (
    not (is_empty (codes "https://b"))
    && (any (λ e. eqb e (codes "*")) (codes "https://a" ∷ codes " https://b" ∷ [])
        || any
            (λ e. eqb (trim_space e) (codes "https://b"))
            (codes "https://a" ∷ codes " https://b" ∷ [])))
unfolding join_comma contains_byte
is_granted-cors_origins_example =
    is_granted-cors_origins cfg (codes "https://a") (codes " https://b" ∷ []) (codes "https://b")
      refl (refl, (refl, tt))

abbrev settings : PoolConfig
settings = record {
  dsn = codes "postgres://core";
  max_conns = 4;
  min_conns = 0;
  max_conn_lifetime = 60;
  max_conn_idle_time = 60;
}

abbrev pgxpool : Pgxpool
pgxpool = record {
  parse_config = λ dsn. ok settings;
  new_with_config = λ c. ok tt;
  ping = λ c. ok tt;
}

abbrev events : List PoolEvent
events = opened (limited settings) ∷ closed (limited settings) ∷ []

main_iff_example :
    (main (ok cfg) pgxpool (λ address. ok tt) ≡ exited 0 events)
    ↔ Served (ok cfg) pgxpool (λ address. ok tt) events
main_iff_example = main_iff (ok cfg) pgxpool (λ address. ok tt) events
