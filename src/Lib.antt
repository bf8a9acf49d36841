-- ===== src/Lib.antt =====
-- The Kademlia DHT of go-libp2p with its batching provider: a model of its core, with the theorems
-- that make it correct.
--
-- The program. A node answers and runs lookups (query.go) over a set of peers ordered by their
-- distance to the key (qpeerset/qpeerset.go), and admits to its routing table only so many peers
-- of one IP group (rt_diversity_filter.go). The provider (provider/) keeps the keys that the node
-- provides in binary tries over the keyspace (provider/internal/keyspace), puts the keyspace
-- prefixes to be provided or reprovided in queues without overlaps (provider/internal/queue), stores
-- the multihashes in a datastore by their place in the keyspace (provider/keystore), and keeps
-- statistics over time (provider/internal/timeseries).
--
-- The files.
--   Prelude: Boolean tests and lists on the native numbers, equality tests, association lists.
--   Keyspace.Key: provider/internal/keyspace/key.go. A key or a prefix is the list of its bits;
--     the SHA-256 of multihashes and peers is an argument of what uses it. Children: Prefixes,
--     Siblings, Bytes, Chunks, CoverLoop and Covered, on what the functions compute.
--   Keyspace.Trie: provider/internal/keyspace/trie.go, on the shapes that the accessors of the
--     trie library tell apart. Api has the library's Add and Remove as a record, with the laws
--     that the code relies on; Reference is one implementation of it, with the laws proved.
--     Shape has the well-formedness of a trie: every key stands under the path of its bits. Iter,
--     Find and Prune are on the traversals, the searches and the pruning, Next has the search for
--     the entry after a key, and After, Following and Present what it finds.
--   Keyspace.Subtract and Keyspace.Regions: SubtractTrie and the regions of the same trie.go. Covers
--     has which keys of one trie begin keys of another. Keyspace.Coverage: KeyspaceCovered.
--   Queue.Prefix: prefix.go and reprovide.go of provider/internal/queue. Push, Positions,
--     Superstrings, Indexes and Refines relate the index arithmetic of the deque to an operation
--     on the list.
--   Queue.Provide: provider/internal/queue/provide.go, the state in memory; Under is on the
--     keys under a prefix, and Batches has what a dequeue takes and leaves.
--   Buffered: provider/buffered/provider.go, the encoding of the operations and the batches of its
--     worker; Batch relates a batch to its operations in sequence.
--   Connectivity: provider/internal/connectivity/connectivity.go, its loop and calls as steps;
--     Callbacks has the documented states.
--   QueryPeerset: qpeerset/qpeerset.go; Closest is on the order of the answers, Laws on the set.
--   Query: query.go. A round of the loop of run is a function from the query and an event, an
--     update of a peer or the end of the context, to the query and the peers to be queried;
--     Found and Termination have the verdict of a round, Sound what holds of the set, Updates and
--     Rounds the safety; Done counts the peers that are done, Inside has the peers that can come
--     up, Waits and Going what a round leaves, Ends the end of the loop, and Result
--     what is reported of it.
--   Provider: provider/provider.go. Times has the offsets in the reprovide cycle, Schedule the
--     schedule with its cursor and timer, Reprovide the handler of the timer over the schedule and
--     the queue of late regions, and Claims the regions that are being reprovided. Bounds,
--     Unscheduling, Scheduling, Delay, Due and Exclusive have what is proved of them.
--   RtDiversityFilter: rt_diversity_filter.go; Counts and Limits relate the maps to the peers
--     counted. Responses, Sets and Groups: filterPeersByIPDiversity of the same file.
--   Keystore: provider/keystore/keystore.go. Keys has the texts under which multihashes are stored,
--     and RoundTrip their decoding; Operations has the operations over a datastore, with which of
--     its calls fail; Contents has what the code relies on of the datastore; Holds, Fresh and Puts,
--     Present and Deletes, and Gets have what the operations find and change, Worker the size
--     that is kept.
--   Timeseries: provider/internal/timeseries/series.go; Window has what a reading finds.
--   Tests: runs of the model, and the theorems at concrete inputs.
--
-- Conventions. A method that changes its receiver returns the new one. A Go panic is the result
-- `none` of an Option, in the keystore an error of its own, and the theorems on such functions
-- state that the result is there. A deque or a slice is a list, a map an association list whose
-- order is not seen, and an int that never falls below zero a native number. A mutex makes a
-- method atomic and is not seen. Loops recurse on the trie, on the bits or on the list that they
-- walk, so no fuel is needed; the loop of run has a bound on its rounds, and a round for each peer
-- that can come up, and the first, is enough.
-- Times are numbers, and a reading of the clock is an argument.
--
-- Not modelled: network, streams, dialling, events, tracing and metrics; the datastores, of which
-- the keystore's is a parameter; the resettable keystore and the provider records; configuration
-- and the option functions; the protobuf messages; the accelerated and the dual client.
-- Goroutines show only in the order of the events that they send.
mod Prelude
pub mod Keyspace
pub mod Queue
pub mod QueryPeerset
pub mod Query
pub mod Timeseries
pub mod Keystore
pub mod Buffered
pub mod Connectivity
pub mod Provider
pub mod RtDiversityFilter
mod Tests
