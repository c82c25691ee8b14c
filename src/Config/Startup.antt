-- ===== src/Config/Startup.antt =====
-- What becomes of the pool of connections.
use agenthub_skill_runtime.Base.{
  ◌≡◌, ◌↔◌, [], ◌∷◌, inl, inr, List, Bytes, is_empty, Bool-cases, arith,
}
use agenthub_skill_runtime.Executor.{Result, ok, Result-cases}
use agenthub_skill_runtime.Config.{
  Config, load, PoolConfig, Pgxpool, PoolEvent, opened, closed, limited, new_pool, exited, address,
  main,
}

-- A pool's configuration with the limits of the service.
abbrev pub bounded : PoolConfig → PoolConfig
bounded pool = record pool {
  max_conns = 25;
  min_conns = 2;
  max_conn_lifetime = 3600;
  max_conn_idle_time = 1800;
}

module _ (parsed : Result Config) (lib : Pgxpool) (listen : Bytes → Result (Unit {0})) where
  -- A process that has served until a signal came.
  pub record Served (events : List PoolEvent) : Type 0 where
    pub cfg : Config
    pub pool : PoolConfig
    pub configured : parsed ≡ ok cfg
    pub understood : lib.parse_config cfg.database_url ≡ ok pool
    pub created : lib.new_with_config (bounded pool) ≡ ok tt
    pub reached : lib.ping (bounded pool) ≡ ok tt
    pub listened : listen (address cfg) ≡ ok tt
    pub closed_again : events ≡ opened (bounded pool) ∷ closed (bounded pool) ∷ []

  main→Served : (events : List PoolEvent) → main parsed lib listen ≡ exited 0 events → Served events
  unfolding main load new_pool
  main→Served events h = elim (Result-cases parsed) [
    | inr (e, q) ↦ absurd (ground arith)
    | inl (cfg, q) ↦ elim (Result-cases (lib.parse_config cfg.database_url)) [
      | inr (e, q1) ↦ absurd (ground arith)
      | inl (pool, q1) ↦ elim (Result-cases (lib.new_with_config (limited pool))) [
        | inr (e, q2) ↦ absurd (ground arith)
        | inl (made, q2) ↦ elim (Result-cases (lib.ping (limited pool))) [
          | inr (e, q3) ↦ absurd (ground arith)
          | inl (answer, q3) ↦ elim (Result-cases (listen (address cfg))) [
            | inr (e, q4) ↦ absurd (ground arith)
            | inl (signal, q4) ↦ record {
              cfg = cfg;
              pool = pool;
              configured = q;
              understood = q1;
              created = ground arith;
              reached = ground arith;
              listened = ground arith;
              closed_again = ground arith;
            }
          ]
        ]
      ]
    ]
  ]

  Served→main : (events : List PoolEvent) → Served events → main parsed lib listen ≡ exited 0 events
  unfolding main load new_pool
  Served→main events s = elim (Bool-cases (is_empty s.cfg.keycloak_public_url)) [
    | inl e ↦ ground arith
    | inr e ↦ ground arith
  ]

  -- The process exits by 0 exactly if the environment gives a configuration, its database's URL a
  -- pool, of 25 connections at most and 2 at least, each for an hour and half an hour idle, the database answers, and the listener at the
  -- configured port ends by a signal; and then that pool, the only one that was opened, is closed.
  pub main_iff :
      (events : List PoolEvent) → (main parsed lib listen ≡ exited 0 events) ↔ Served events
  main_iff events = (main→Served events, Served→main events)
