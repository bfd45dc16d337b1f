-- ===== src/Lib.antt =====
-- Loomabase: offline-first synchronization of SQL tables by per-column last-writer-wins registers.
-- Clients send payloads of changed cells; a server checks them, merges each cell by its version (a
-- Lamport clock, then a device name), and answers with the cells above the client's cursor.
--
-- The parts, and the files that model them:
--   error.rs    Error.antt      `SyncError`, `Result`, and the inversion of a chain of checks
--   crdt.rs     Value.antt      values, versions, cells, rows, payloads, the limits
--               Validate.antt   `validate`, `validate_client_request`, `validate_server_response`;
--                               Validate/Cell.antt has the checks on the parts of a cell
--               Lww.antt        `decide_lww` on the derived order of `ColumnMetadata`
--               Merge.antt      `CrdtState` and the merge loop of `merge_inner`
--               Feed.antt       the change feed of `merge_inner`: candidates and the bounded page
--               Server.antt     `merge_inner`, `merge_with_security`, `merge`
--   policy.rs   Policy.antt     the hooks, the shipped authorizers and validators, audit events
--   schema.rs   Schema.antt     `TableDef` and its checks, column types, the fingerprint;
--                               Schema/Migrate.antt has the migrations, Schema/Contract.antt
--                               `Contract`
--   explain.rs  Explain.antt    `explain_lww`
--   replica.rs  Replica.antt    interests and the checks of a request and a response;
--                               Replica/Plan.antt has `postgres_plan`, Replica/Partial.antt
--                               `merge_partial` and `merge_partial_inner` of crdt.rs
--   simulator.rs Simulator.antt `NetworkSimulator`
--   client.rs   Client.antt     the database of a client for one table, with the update trigger of
--                               `sqlite_schema` (schema.rs); Client/Codec.antt has the text of the
--                               logged values, Client/Evict.antt `cleanup_pending_evictions`,
--                               Client/Sync.antt `get_local_delta` and the acknowledgements,
--                               Client/Remote.antt `apply_remote_payload` and `complete_sync`,
--                               Client/Local.antt `insert`, `set`, `delete` and `restore`,
--                             Client/Scope.antt the requests, answers and removals of the scopes
--                             of partial replicas, Client/Pages.antt the synchronization cycles
--   server.rs   Postgres.antt   the tables of the PostgreSQL server and the statements of one cell;
--                               Postgres/Cell.antt has the merge loop, Postgres/Page.antt the feed,
--                               Postgres/Merge.antt `merge_crdt_states_with_security`,
--                               Postgres/Partial.antt `merge_partial_replica_with_security`,
--                               Postgres/Leases.antt lease expiry and epoch rotation
--   auth.rs     Auth.antt       the HS256 and RS256 authenticators, and those on headers of http.rs;
--                               Auth/Text.antt has the text functions that they use
-- (Paths are under src/ of the repository.) Base, Order and BTree hold what these share: tests and
-- lists over the native numbers, `Ord` with its laws, and `BTreeMap` as its entries in key order.
-- The modules below a component's file hold its proofs; Tests holds concrete inputs.
--
-- How the code is read. A `String` is the native text, ordered by code points, which is the order
-- of its bytes; `len` counts bytes. A `u64` is a number with its wrap or check written out; an
-- `i64` is a number with a sign. An `f64` is its 64 bits, with `==` and `is_finite` on them. The
-- text of an invalid-payload message is one constructor for each message. `&mut self` is a state
-- passed through; `?` is the bind of `Result`; on an error the working copy of
-- `merge_with_security` is dropped. Hooks (`dyn SyncAuthorizer`, `dyn SyncValidator`) are functions.
-- The length of a cell in JSON (`serde_json::to_vec`) is a parameter `json_len`, which may fail, and
-- so is the `{:?}` format of a string in an explanation. `binary_search` is membership: the lists
-- it reads are sorted. Every loop is a recursion over the collection that it walks, so no fuel is
-- needed, but for printing numbers, where twenty decimal or sixteen hexadecimal digits hold every
-- `u64`. The transport of a synchronization is a parameter, told the number of the call.
--
-- A SQL statement is the change that it makes to the state; a transaction that fails returns no
-- state. SQLite's text of a real, and printing and reading an `f64`, are parameters. On PostgreSQL
-- so are `gen_random_uuid()`, `clock_timestamp()` (in seconds), and the order that a text `ORDER BY`
-- gives, which depends on the collation of the database. A `JSONB` value is the value itself; the
-- advisory lock and row-level security change no table. Of a token, base64, the JSON of its parts,
-- the check of its signature and the time are parameters.
--
-- Not modelled: the reads, the todo wrappers and the set-up of the client, the set-up of the
-- PostgreSQL schema, the full DDL text of schema.rs, the HTML report of the simulator, the Supabase
-- authenticator and the token encoders (auth.rs), the HTTP service (http.rs, server_main.rs), code
-- generation (codegen.rs), the C bindings, and the benchmark and example programs.
pub mod Base
pub mod Order
pub mod BTree
pub mod Error
pub mod Value
pub mod Schema
pub mod Validate
pub mod Lww
pub mod Policy
pub mod Merge
pub mod Feed
pub mod Server
pub mod Explain
pub mod Simulator
pub mod Replica
pub mod Client
pub mod Postgres
pub mod Auth
mod Tests
