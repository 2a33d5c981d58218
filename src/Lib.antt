-- ===== src/Lib.antt =====
-- The Bitcoin adapter: it follows the chains of block headers that its Bitcoin peers know, downloads
-- blocks on request, and broadcasts transactions. The gRPC server and the loop of the router are tasks
-- that share the blockchain state and the idle state; the server sends requests to the loop through two
-- channels. Within the loop, what one part tells another is a function argument or a result here.
--
-- Files, by the source that each is about:
-- - Base, with Base/Tests, Base/Lists, Base/Map, Base/Set and Base/Linked: shared names; `HashMap` and
--   `HashSet` as lists with their laws; the crate hashlink as records of operations and laws.
-- - Bitcoin: the types of the crate bitcoin that the source uses. The record `BitcoinLib` has what is
--   computed there or in the validation crate: the hash, work and size of blocks, `validate_header`, the
--   Merkle check, the decoding of transactions, checkpoints.
-- - Adapter (src/lib.rs): `Command`, the trait `Channel` over an abstract state, `AdapterState`.
--   Adapter/Channels: what a channel keeps while a component uses it.
-- - Config, Cli (src/config.rs, src/cli.rs): the configuration, its reading and validation. Http has what
--   the source reads of a parsed `Uri`. Cli/Proxy joins the validated proxy with the streams.
-- - HeaderCache, HeaderCache/Tree with its child Shape (src/blockchainstate.rs): `HeaderCache`. The
--   children of a node, which stand behind a shared mutex, are kept in the cache under the hash of the
--   node. `insert` is the method `insert`, and `attach` its last part.
-- - BlockchainState (src/blockchainstate.rs): `BlockchainState`, with a function for each method. Its
--   children: Tips, Valid, Growth, Blocks and History on the invariant, Additions on the outcomes of
--   `add_header` and `add_block`, Persistence on what stays, Locators on `locator_hashes`.
-- - GetSuccessors (src/get_successors_handler.rs): the handler, with its answer and the requests that
--   it sends. The proofs: Listing and Search: the ends of the searches; Response, Handler; Linkage: the
--   parents of what is found; Completeness: what cannot be missing; Generations, Levels and Reference:
--   a description without queues and loops; Known: the hashes in the requests.
-- - BlockchainManager (src/blockchainmanager.rs): the handlers of messages; Data: constants, errors and
--   the state; Sync, with its child Download: peers, timeouts, downloads, `tick` and pruning. The proofs:
--   Selection, Messages, Ticks, Pruning; Effects and its child Ticks, on what the channel is asked; Limits
--   with its children Peers, Messages and Ticks, on the open requests for blocks; Known with its children
--   Operations and Headers, on the hashes that are queued and requested.
-- - AddressBook, AddressBook/Bounds (src/addressbook.rs). Random choices, name resolution and
--   whether the system time lies before the epoch are the record `Environment`.
-- - Connection (src/connection.rs): the state machine of one connection.
-- - ConnectionManager (src/connectionmanager.rs): the state and what every entry point shares; Manage:
--   `tick`; Messages: messages and stream events. The proofs: Manage/Reconnect and Manage/Limit, on new
--   connections; Reaping, Departure, and Invariant with its children Messages and Ticks.
-- - TransactionManager (src/transaction_manager.rs). The proofs: Cache, Effects, and Serving, on the
--   answers to `getdata`.
-- - Stream (src/stream.rs): events, errors, and the loop that reads one message; Task: `connect`, `tick`
--   and `handle_stream`. The proofs: Bounds; Chunks, on the delivery of messages; Events.
-- - Rpc (src/rpc_server.rs): the conversions of the wire types and the two calls, over a record of what
--   encodes and decodes. Rpc/Wire has the proofs.
-- - Router (src/router.rs): the start and one round of the loop of `start_router`; the event that
--   `select!` picks is an argument. The proofs: Invariant, Rounds, Rejection, Isolation, Limits, Known.
-- - Main (src/main.rs): what `main` makes and connects. `get_successors` and `submit` are the calls of
--   the server, with what they send into the channels; `turn` is one pass of the loop of
--   `start_router`, where `receive` takes from the channels what `select!` picks. The proofs:
--   Requests, on what a call sends; Invariant; Submission; Download.
-- - Samples and the modules Tests: concrete parameters and tests.
--
-- How state is modelled: a function takes the state and gives the new one, with the result if there is
-- one; the clock is an argument, in nanoseconds; a handler that writes to a `Channel` takes and gives the
-- channel's state. Locks are not modelled: each entry point runs with the state to itself, and calls and
-- turns of the loop follow each other in any order. The channel of requests holds 10, and `try_send`
-- into a full one drops the request; `send` waits for room, so the list of the transactions that are
-- sent has no bound. An `Environment` is fixed within a step only: in the relations `Reach` each
-- step has its own. They also have a step for the end of a stream's task, after which writing to its
-- connection fails.
--
-- Fuel: the searches below the anchor take fuel, and the number of cached headers is enough, since a
-- node is pushed once. The loop of `manage_connections` takes fuel, and one more than the maximum number
-- of connections is enough, since each turn adds a connection. Heights are `u32` and wrap at 2 ^ 32, as
-- written in `next_height`; `prune_blocks` of the manager gives `none` where the source panics.
--
-- The loop of `handle_stream` does not end: `run` is so many iterations of it, as its argument is long.
--
-- Not modelled: the serving of the calls by the gRPC library (`spawn_grpc_server`), metrics
-- (src/metrics.rs), logging, the shutdown signal, and the sockets themselves, whose outcomes are
-- arguments: these are input and output around the parts above. The bodies of third-party functions are
-- parameters.
pub mod Base
pub mod Bitcoin
pub mod Adapter
pub mod TransactionManager
pub mod BlockchainManager
pub mod HeaderCache
pub mod BlockchainState
pub mod AddressBook
pub mod Config
pub mod Connection
pub mod Stream
pub mod ConnectionManager
pub mod GetSuccessors
pub mod Router
pub mod Http
pub mod Rpc
mod Samples
pub mod Main
pub mod Cli
