-- ===== src/Lib.antt =====
-- A model of wiremirage, a host that serves mocked HTTP routes: groups of routes are stored in a
-- registry, each replica keeps a table of them in memory, and a request is answered by the route of
-- its group whose pattern matches the path.
--
-- The parts, and the files that model them:
--   Pattern.antt and Pattern/: crates/wm-host/src/pattern.rs. `Pattern::parse` is `parse`, cut into
--     one function per stage; `match_path`, `has_tail`, `patterns_conflict`, `routes_conflict` and the
--     methods of `Methods` have the names of the source. A text is the list of its bytes; the code's
--     tests are all on ASCII bytes.
--   Registry.antt and Registry/: crates/wm-host/src/registry.rs over the in-memory store. Action.antt
--     has the operations over the registry's bucket; Records.antt and Stored.antt the records as
--     hashes and their keys;
--     Names.antt the lookup and the generation of names, Groups.antt, Routes.antt and Deletion.antt
--     the operations, with the names of the source. The crates ulid, chrono and serde_json are the
--     record `Codec`; new ids, times and random draws are arguments. The listings of handler state are
--     not modelled.
--   Auth.antt and Auth/: crates/wm-host/src/auth.rs. Records.antt and Stored.antt have the records,
--     their keys and the search by email, Users.antt and Tokens.antt the operations, Authenticate.antt
--     whom a token stands for, and Access.antt the read of an access token of
--     crates/wm-host/src/mcp_oauth.rs. The crates chrono, sha2 and serde_json are the record
--     `AuthCodec`; new ids, times and plaintexts are arguments.
--   Session.antt and Session/: crates/wm-host/src/session.rs, with HMAC and serde_json as the record
--     `SessionCodec`.
--   Credential.antt and Credential/: the extractor of crates/wm-host/src/api.rs, from a request's
--     bearer token or session cookie to its user, and the session gate of mcp_oauth.rs.
--   Oauth.antt and Oauth/: the records of crates/wm-host/src/mcp_oauth.rs, and its endpoints `token` in
--     Oauth/Grants.antt and `revoke` in Oauth/Revocation.antt. serde_json, sha2, base64 and the check of
--     a client's secret are the record `OauthCodec`; what a request draws is an argument.
--   Naming.antt and Naming/: crates/wm-host/src/naming.rs.
--   Throttle.antt and Throttle/: crates/wm-host/src/login_throttle.rs, with the readings of the clock
--     as arguments.
--   RouteTable.antt and RouteTable/: crates/wm-host/src/route_table.rs. The loop of
--     `find_match_filtered` is `find_from`, whose round is `candidate`; NearMisses.antt has the
--     suggestions for a request without a route; Cache.antt has the table as it follows the storage
--     (`revalidate_group`, `reload_group`, `apply_invalidation` and the `refresh_after_*` operations)
--     and the caches of compiled and transpiled handlers. The message to the other replicas is the one
--     of crates/wm-host/src/bus.rs. What the registry answers is an argument, and so are wasmtime's
--     compiler and the transpiler, as functions to a result.
--   Replica.antt: the reads of the registry as what the route table takes.
--   Egress.antt and Egress/: the decision of crates/wm-host/src/egress.rs, over the nets of ipnet as a
--     parameter, and in Config.antt `from_parts`, the policy out of its settings. An address is its
--     number; that the settings are variables of the environment is not modelled.
--   Store.antt and Store/: crates/wm-host/src/store/. Memory.antt has the operations of memory.rs on
--     the in-memory map, Bucket.antt the ones of mod.rs, which put the bucket's prefix before each key
--     and take it off the key of an error; Bucket/Lease.antt has `try_acquire_lease`, with chrono's
--     times as the parameter `Chrono`; Counters.antt has `incr`, `hash_incr` and
--     `copy_with_prefix`. Action.antt has the form of a component's operation over its bucket, which
--     reads and writes step by step and keeps what it wrote if it ends with an error. A set is a list
--     without repetitions, whose order stands for any. The Valkey arms
--     call a server and are not modelled.
--   Filters.antt and Filters/: the glob matching of crates/wm-host/src/api_filters.rs.
--   Journal.antt and Journal/: the records of crates/wm-host/src/journal.rs, and the filters of
--     crates/wm-host/src/journal_filter.rs on them, with the parsing of slugs and status codes.
--   Prelude.antt and Prelude/: texts, maps, lists and results as the code uses them.
--
-- The loops are recursions on lists. Only the second loop of `generate_group_name` has fuel, one round
-- more than the store has entries, since each round but the last meets another entry.
--
-- Not modelled: mutexes and logging; the lives of keys, which only Valkey has; the identity providers
-- (local_auth.rs, oidc.rs, github_oauth.rs) and CSRF tokens, which are protocols over cryptography and
-- HTTP; and the HTTP, MCP and WebAssembly layers, which call other libraries throughout.
pub mod Prelude
pub mod Pattern
pub mod Registry
pub mod RouteTable
pub mod Store
pub mod Filters
pub mod Journal
pub mod Naming
pub mod Throttle
pub mod Replica
pub mod Egress
pub mod Auth
pub mod Session
pub mod Credential
pub mod Oauth
