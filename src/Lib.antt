-- ===== src/Lib.antt =====
-- Allonet, the network library of Alloverse: a model of its core, with the theorems that make it
-- correct.
--
-- Parts. A server and its clients share a world of entities. The server keeps a history of world
-- states and sends each client a delta from the state that the client last acknowledged. Clients
-- also exchange assets, files named by a hash of their contents, in chunks and over a channel of
-- their own. A client asks the server for an asset; the server answers from its store, or asks all
-- other clients for it, downloads it from the first that delivers, and then sends it on to all who
-- asked. Components of the world that stand for audio or video become media tracks of a client.
--
-- Files.
--   Common       what all parts share: numbers, lists and tests, `size_t` (Size), `int64_t` (Int),
--                the outcome of a C function that may assert, access memory that is not there or
--                run on (Outcome), what is asked of cJSON's keys and numbers (Cjson), and lemmas
--                to split on computed values (Cases) and on all entries of a list (All)
--   Ranges       src/assetstore.c, `_missing_ranges` and `_merge_range`: the ranges of an asset
--                that have arrived. The search and the two merges are functions of their own
--   AssetStore   src/assetstore.c: the state of a store (State), pruning (Prune: `_lru_tag` and
--                `_lru_prune`), the operations of an in-memory store (Access: `_memstore_*`,
--                `_memstorestore_write`), and those of one that only tracks transfers (Plain)
--   Server       src/server.c, the handlers of the asset channel (Handle) and the events of
--                `allo_poll` as a step relation (Reach). The server uses its store through a record
--                of two operations, which the in-memory store fills (Memory)
--   Packet       src/asset.c: the packets of the asset channel, their headers (Header), and what
--                the server does with a packet, `asset_handle` (Receive)
--   Jobs         src/jobs.c and src/arr.c: the tick of the scheduler, and how an array grows
--   Delta        src/delta.c: the history of states, the computation of deltas with its cache, and
--                their application
--   World        src/state.c: looking up an entity and removing it, with its descendants (Cascade)
--                or from above its children
--   Media        src/media/media.c: the list of media tracks and how a state difference changes it
--   Proxy        src/clientproxy.c: the messages between the program's thread and the network's, the
--                functions that send them (Calls, Callbacks), the handlers and loops of the two
--                threads (Bridge, Poll), the threads interleaved (Steps, Flow, Polled, Fifo,
--                Queues), the loops to their ends (Drain, Direct, Told, Ending), and the two mutexes
--                (Locks, Stuck)
--   Diff         src/delta.c and src/client/client.c: what has changed between two states, and the
--                list of entities of a client (Handle), which follows it (Lists, Changes, Mirror)
--   Client       src/client/client.c, `_alloclient_poll`: the turn of a client, the events that come in
--                (Turn), how often it sends (Rate), its side of the asset channel (Assets), and what it
--                makes of a URL, in `_alloclient_connect` (Connect, Url), and interactions, sent and
--                received (Interact)
--   Transfer     src/asset.c: a client that downloads an asset from the server, one chunk (Round, Fetch)
--                and the whole (Download), from a server with an in-memory store, by a client whose program
--                keeps what it receives (Memory)
--   Sync         src/client/client.c, src/standalone_server.cpp: a client that follows the state of
--                the server over a network that loses and reorders (Steps), what a delta does to the
--                client (Delivered), what the server computes (Computed), what holds throughout
--                (Agreed, Reach), and one exchange (Round)
--
-- Correspondence. A function of the model stands under a comment that names the function of the
-- code. State that the code changes in place is passed in and out. `cJSON` objects that the code
-- uses as records are records, with an option for a field that can be missing. A lock that is held
-- over a whole operation makes it one step. Peers are numbers, and a client is its peer. Times are
-- whole milliseconds.
--
-- Bounds and fuel. `size_t` has 64 bits and `int` 32, with the wrap-around written out. The binary
-- search of `_merge_range` runs on as much fuel as there are ranges, and one more; the scheduler's
-- tick on one round more than there are jobs; `__arr_reserve` on 64 rounds; the loop of
-- `_forward_wanted_asset` on one round more than there are recipients. Each is shown to be enough,
-- the last one while the store serves the asset. A download takes two rounds for each chunk, and one
-- more. The removal of an entity with its descendants recurses at most as deep as there are
-- entities.
--
-- Parameters. The cJSON library (keys, numbers, printing and parsing, merge patches), `qsort`,
-- `malloc` of the store, `realloc` of the arrays, the clock, what the program does in its
-- callbacks, the work functions of jobs and the media subsystems are arguments of the definitions
-- that use them; what is asked of them is a field of a record or a hypothesis of the theorem.
--
-- Not modelled. Of the world state, what is not lookup and removal of entities; of the client,
-- connecting, but for the URL, and the clock; the simulation, floating-point mathematics, audio and
-- video coding, hashing, statistics and logging, and what the standalone server does beyond a
-- broadcast. `malloc` outside the store and the growing arrays is taken to succeed, and memory that
-- is freed is not tracked, beyond an entity that is taken out twice.
pub mod AssetStore
pub mod Client
pub mod Common
pub mod Delta
pub mod Diff
pub mod Jobs
pub mod Media
pub mod Packet
pub mod Proxy
pub mod Ranges
pub mod Server
pub mod Sync
pub mod Transfer
pub mod World
