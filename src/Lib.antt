-- ===== src/Lib.antt =====
-- The skill runtime of AgentHub: the Go service under internal/ that executes the tools of a
-- tenant's skills on behalf of an agent.
--
-- How the parts interact: a request passes the authentication (internal/middleware/auth.go),
-- which puts the tenant into its context. A handler (internal/server/routes.go) reads the input
-- from the body, resolves a skill's slug or a tool's id to a tool of the tenant
-- (internal/executor/resolver.go), looks up the executor of the tool's type
-- (internal/executor/registry.go) and calls it by an invoker (internal/invoker/invoker.go), which
-- retries and counts failures. The executors send HTTP requests (internal/executor/http), talk to
-- MCP servers (internal/executor/mcp), query databases (internal/executor/sql), run scripts
-- (internal/executor/script) and search documents (internal/executor/docsearch).
--
-- Base.antt and Base/ hold what the modules share: Go strings as lists of bytes with the
-- functions of package strings (ASCII case mapping), maps as association lists, decimal numbers,
-- Go's int with its sign. Executor.antt models internal/executor: Json.antt decoded JSON,
-- Decode.antt json.Unmarshal into structs, Errors.antt error chains and (value, error) results,
-- Types.antt the interface ToolExecutor, Registration.antt registry.go, Resolver.antt resolver.go
-- with its queries on tables as lists. Invoker.antt models invoker.go: one call of Invoke is a
-- function of an environment and of the failure count, with the sequence of attempts and waits
-- that it makes. Http.antt and Http/ model internal/executor/http: Ssrf.antt ssrf.go,
-- Template.antt renderTemplate and renderTemplateURL, Query.antt appendUnusedInputAsQuery,
-- Config.antt parseHTTPConfig, Execute.antt Execute. Mcp.antt and Mcp/ model
-- internal/executor/mcp/executor.go: Environment.antt stdioEnvironment, Allowlist.antt the
-- allowlist of commands, Protocol.antt stdioProtocol, ServerConfig.antt fetchServerConfig,
-- Stdio.antt executeStdio, Outbound.antt the protected dialer, Execute.antt Execute and
-- executeHTTP. Sql.antt and Sql/ model internal/executor/sql/executor.go: Template.antt
-- renderInputTemplate, Datasource.antt fetchDatasource and datasourceDSN, Execute.antt Execute
-- and collectRows. Script.antt models internal/executor/script/executor.go, Docsearch.antt
-- internal/executor/docsearch. Middleware.antt and Middleware/ model internal/middleware:
-- Jwks.antt fetchJWKS and its cache, Jwks/Interleaved.antt calls of it that share the cache,
-- Auth.antt Auth, Chain.antt CORS, RequestID, Recovery and their order, Log.antt what Logger and
-- Recovery log, and the chain with it. Server.antt models internal/server/routes.go,
-- Assembly.antt internal/server/server.go: which executors are registered, the health handlers,
-- and the whole way of a request. Config.antt models internal/config/config.go,
-- internal/database/postgres.go and cmd/skillruntime/main.go. Ai.antt and Ai/ model internal/ai:
-- Ai.antt the types of model.go, Registry.antt registry.go, Transport.antt and Events.antt what
-- the providers use of net/http, encoding/json and bufio.Scanner, Decode.antt the decoding into
-- their structs, and Anthropic, Openai, Openrouter and Ollama the packages under
-- internal/ai/provider: Wire.antt the structs with their tags, Requests.antt buildRequest,
-- Replies.antt convertResponse, parseError and one line of a stream, Chat.antt Chat and
-- ChatStream. Their channel is the list of the chunks that are sent on it before it is closed;
-- Channel.antt models its buffer of 32 chunks, with the goroutine and the reader taking turns.
-- Middleware/Sample.antt has values for the tests. The modules below a component hold its proofs;
-- the modules Tests hold concrete runs.
--
-- State is passed explicitly: the failure count of an invoker, the protocol of a child process,
-- the cache of keys. What is not Go code of the repository is a parameter, a record of functions:
-- the network, the file system, processes, pgx and its pool, the parsing of the environment, the
-- clock, net/url, net.ParseIP, json.Marshal, fmt's %v, the JavaScript engine and the JWT library.
-- A float64 delay is an exact fraction. All recursion is structural, the retry loop on the number
-- of attempts that are left, MaxRetries + 1 at first, so that no fuel can run out.
--
-- Not modelled: chi's matching of paths, whose result is given with a request, the durations and
-- the stacks in the log, and the timeouts of the HTTP server. Concurrent calls on one invoker run
-- one behind the other here, and Auth takes its use of the key cache as one step, which
-- Interleaved.antt divides. JSON texts are not parsed: a body or a configuration is what the
-- decoder yields.
pub mod Base
pub mod Ai
pub mod Executor
pub mod Invoker
pub mod Http
pub mod Mcp
pub mod Sql
pub mod Script
pub mod Docsearch
pub mod Middleware
pub mod Server
pub mod Config
pub mod Assembly
