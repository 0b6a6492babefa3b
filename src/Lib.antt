-- ===== src/Lib.antt =====
-- Verification of the programs of the CS 2620 problem sets.
--
-- The repository has the coroutine library Cotamer (cotamer/, an earlier copy in pset2/), and three
-- problem sets that use it: a guessing game over RPC (pset1/), Chandra-Toueg consensus on a
-- simulated network (pset2/), and Pancy, a replicated key-value store (pset3/ and, on another
-- network interface, pset3-altnet/). Pancy clients send requests over simulated channels
-- (netsim.hh) to one of several services: one server (pt-single.cc), a primary and a backup
-- (pt-backup.cc), or replicas that are to run Paxos (pt-paxos.cc). Each server holds a pancydb.
-- Cotamer's driver keeps its timers in a heap (timer_heap.hh), whose elements are ordered by time
-- and then by a wrapping counter (circular_int.hh).
--
-- The files and the code that each models:
--   Base, Base/*        lists, options, signed integers and tests over the native numbers
--   Bytes               std::string: bytes, equality and order
--   Pancy/Map           std::map as pancydb uses it: an association list in key order
--   Pancy/Msgs          pset3/pancy_msgs.hh: requests, responses, errc and their accessors
--   Pancy/Db            pset3/pancydb.hh and pancydb.cc: class pancydb, its direct interface
--                       (version, exists, get, put, remove) and its message interface (process,
--                       process_req). The object vv::nonexistent_vv, to which pointers are handed
--                       out, is a field, so that a write through such a pointer would show
--   Pancy/Diff          pancydb::diff and find_recent_remove
--   Pancy/Invariant, Effect, Preserve, Recent, Versions, Lock, Direct, DiffZero: its theorems
--   Pancy/Spec, Refinement: the specification, a counter and a function from keys to versioned
--                       values with one conditional update, and the refinement
--   Netsim/Defs         pset3/netsim.hh: port and channel (send, send_after, receive, connect,
--                       disconnect); Netsim/Fifo, Order, Through: what a connected
--                       channel promises
--   Lockseq/Digits, Keys, Check: pset3/lockseq_model.hh and lockseq_model.cc: parse_digits, the
--                       formats of the keys, and check, which validates a database
--   Lockseq/Strings, Accepts: string functions, and what check accepts
--   Client/Defs, Scan   pset3/client_model.hh and client_model.cc: receive_task and
--                       receive_response on the queue that all clients share
--   Backup/Defs         pset3/pt-backup.cc: primary() and backup() as functions on one state, one
--                       for what a coroutine does between two waits; Backup/Logs, BackupLogs,
--                       Stage, Protocol, FromPrimary, FromBackup, Failover, Progress: their
--                       theorems
--   Service/Single      pset3/pt-single.cc: run
--   Service/Replica     pset3/pt-paxos.cc: run, as it is handed out, with a fixed leader
--   Consensus/Msgs, Server, Net: pset2/ctconsensus_msgs.hh and ctconsensus.cc: server::receive with
--                       its stash, the phases of server::consensus, and servers on a network that
--                       delivers in any order; Consensus/Nancy: nancy(), the observer;
--                       Consensus/Validity, Colors: where colors come from.
--                       Cases, Once, OnceServer, OnceHeld, OnceNet, OnceStart, Counts: what is
--                       counted. World, Quorums, OneColor, Proposing, Facts: what is known of a
--                       run; Moves, Steps, Votes, Proposals, Takes, Counting, Handles: what a step
--                       does to it; Invariant, Start, Agreement: the invariant of a run
--   CircularInt, CircularInt/*: cotamer/circular_int.hh, for 32 bits
--   TimerHeap, TimerHeap/*: cotamer/timer_heap.hh, for arity 4 and any element type
--   Http/Chars, Status, Message, Send: cotamer/http.hh, http.cc and the string helpers of
--                       cotamer_impl.hh: the character table, the status messages, http_message
--                       with its header buffer, and what the send functions write
--   Http/Callbacks      http_parser: the callbacks that llhttp calls
--   Http/Query, Url     http_message::make_info: parameters and parts of a URL
--   Http/Strings        what ieq and trim_hws are compared with; Http/Params, UrlParts: what the
--                       parameters of a query and the parts of a URL are
--   Http/Lookup, Views, Lines, Headers, Trim, Pieces, Parsed, RoundTrip: theorems on messages;
--                       Http/Machine, MachineParams, Tracks, TrackSteps, Rounds, SearchParams: on
--                       the loop for the parameters; Http/UrlFields, UrlEnds, UrlSplit: on the
--                       parts of a URL
-- Each component has its examples in a file Tests.
--
-- State is passed explicitly. Coroutines are functions from state to state between the points where
-- they wait, and a run is a list of events: which event comes next and which message is lost is
-- for the environment to choose, so that a theorem on all lists holds for every schedule and for
-- every loss. Fallible code returns an Option, and a failed assertion is none (TimerHeap) or a
-- state of its own (Backup). Fields called logs, and the sender, counted, voted and proposed of
-- Consensus, are history: no step reads them.
--
-- Bounds and fuel:
--   - circular_int and the capacity, the counter and the random numbers of timer_heap wrap at 2^32;
--     parse_digits wraps at 2^32 as `unsigned` does. Heaps have fewer than 2^30 elements, so that
--     the index of a child does not wrap.
--   - The positions that http_message keeps wrap at 2^32 as `unsigned` does; the theorems are on
--     buffers and URLs shorter than that.
--   - Versions are int64_t and serial numbers uint64_t in the code; in the model they are natural
--     numbers and do not wrap. The theorem on the version counter is on runs that cannot take it to
--     2^63; diff, which computes with signed differences, is considered for counters below 2^63.
--   - The loops of timer_heap run on fuel, one more than the number of elements: each round moves
--     to another level of the heap or removes an element. std::format of an unsigned runs on ten
--     digits.
--
-- Not modelled: printing (print, print_near, std::format support, verbose modes); time, delays and
-- the probability of a loss (only the order of events is); the test drivers' option parsing;
-- Cotamer's tasks, events and driver; its sockets and curl; http_parser::receive with its buffer, and
-- llhttp, whose calls of the callbacks are arguments; pset1; the stubborn variant of pset2; the
-- coroutine lockseq_model::client; the network interface of pset3-altnet.
pub mod Base
pub mod Bytes
pub mod Pancy
pub mod CircularInt
pub mod TimerHeap
pub mod Netsim
pub mod Lockseq
pub mod Backup
pub mod Client
pub mod Service
pub mod Consensus
pub mod Http
