-- ===== src/Lib.antt =====
-- The forwarding daemon of ndnShare: fuzzy-NFDAndroid, a Named Data Networking forwarder that is
-- changed to answer queries by close words. All paths below are in fuzzy-NFDAndroid/.
--
-- A face's link service takes link-layer packets from a transport, reassembles the fragments, and
-- hands Interests, Data and Nacks to the forwarder; on the way out it cuts packets that do not fit.
-- The forwarder runs its pipelines over the face table, the PIT, the Content Store and the Dead
-- Nonce List, asks a strategy where Interests go, and gives packets to faces.
--
-- - Base: numbers, lists, std's algorithms, maps as association lists, lists with one element per key,
--   positions in lists.
-- - Link: face/lp-fragmenter.cpp (Link/Fragmenter), face/lp-reassembler.cpp (Link/Reassembler) and
--   face/generic-link-service.cpp (Link/Service). What is handed to the transport, and up, is a result.
-- - Face, Packet: face/face.hpp and the fields of ndn-cxx's packets that forwarding reads.
-- - Face/Transport: face/transport.cpp, the state machine of a transport (Face/Transport/Lifecycle).
-- - Pit: table/pit-entry.cpp and its records; Pit/Algorithm is fw/pit-algorithm.cpp.
-- - Fib: table/fib-entry.cpp, the next hops of an entry; Fib/Table: table/fib.cpp, over the name tree.
-- - DeadNonceList: table/dead-nonce-list.cpp, as the sequence of its entries.
-- - Cs: the Content Store, by its entries (Cs/Entry, table/cs-entry.cpp), the order of its table
--   (Cs/Order, table/cs-entry-impl.cpp), an interface for replacement policies with its laws
--   (Cs/Policy), which table/cs-policy-lru.cpp (Cs/Lru) and table/cs-policy-priority-fifo.cpp
--   (Cs/PriorityFifo) fill, and table/cs.cpp (Cs/Store).
-- - NameTree: table/name-tree-hashtable.cpp, the hashes of names (NameTree/Hashes) and the hash table
--   of the name tree's nodes, as a map from names (NameTree/Hashtable); over that map,
--   table/name-tree.cpp and table/name-tree-entry.cpp (NameTree/Tree).
-- - Strategies: fw/strategy.cpp (Strategies/Common), the suppression of retransmissions
--   (Strategies/Retx, fw/retx-suppression*.cpp, where the product with a float is a function),
--   best-route and multicast (Strategies/Simple) and fw/best-route-strategy2.cpp
--   (Strategies/BestRoute2). They fill the forwarder's interface.
-- - Fw: fw/face-table.cpp (Fw/FaceTable), fw/forwarder.cpp as a state (Fw/State) with the outgoing
--   pipelines (Fw/Outgoing), the incoming ones (Fw/Incoming), the marks of queries (Fw/Uri), and what
--   can happen to it as a step relation (Fw/Run). table/pit.cpp is in Fw/State.
-- - Tests: runs at concrete inputs.
--
-- A function of the source that changes an object is a function that returns the new one; the name
-- is the source's in snake_case. Faces are compared by address, as the source compares references.
-- Time is an argument, in nanoseconds; a timer is what it will do and when, and its firing is a
-- call or a step. Sequence numbers wrap around at 2^64. Loops are recursions on a list, but for
-- four with fuel: the evictions of the Content Store, whose fuel is the size of the table, as each
-- takes an entry out of it, findRightmost, whose fuel is one more, as each round goes to an earlier
-- position, and the two that go up the name tree, whose fuel is one more than the length of the
-- name.
--
-- Parameters stand for what is not in this repository: ndn-cxx's names, its matching of Data, its
-- wire encoding with the TLV sizes that the fragmenter relies on (HasTlvSizes), its packet parser,
-- the order of names that the Content Store asks for (CsEnv, with OrderLaws, SearchLaws and
-- FindLastLaws), the reasons of Nacks, and the hashes of the Dead Nonce List and of the name tree.
-- The FIB lookup of the strategies and the search for a close word (Forwarder::getFuzzWord), which
-- reads a file of word vectors, are parameters too. A strategy is a function from what it sees in a
-- trigger to the actions that it takes; to the forwarder the Content Store is an interface.
--
-- Not modelled: the PIT entries as attached to the name tree, so that the PIT is the list of its
-- entries, in whose order matches are found; the strategy choice; the measurements, and the
-- strategies that stand on them; concrete transports, channels and factories, which are socket
-- input and output; mgmt/; and the Android application ndnShareApp. Loops that the source leaves
-- undefined (findRightmost under a full name) have no result. FaceIds, times and counters of
-- packets are unbounded, where the source has 64 bits.
pub mod Base
pub mod Face
pub mod Packet
pub mod Link
pub mod Pit
pub mod DeadNonceList
pub mod Fw
pub mod Tests
pub mod Cs
pub mod Fib
pub mod NameTree
pub mod Strategies
