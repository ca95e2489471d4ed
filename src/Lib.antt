-- ===== src/Lib.antt =====
-- IndexedDB for the Boa JavaScript engine: its storage core.
--
-- The crate crates/boa_idb_core holds the engine without a JavaScript interpreter and without I/O:
-- keys and their order-preserving encoding, the scheduling of transactions, the queue of open and
-- delete requests, and the traits that a storage backend implements. A backend stores records and
-- index entries under encoded keys; crates/boa_idb_memory is the one that keeps them in memory. The
-- driver asks the open queue and the scheduler what may start, and runs each request of a started
-- transaction between a begin and a commit or rollback of the request on the backend.
--
-- Base            shared names; Rust's Ordering and Result, bit operations, and BTreeMap as a sorted
--                 list of entries.
-- Float           f64 by its bit pattern.
-- Key             crates/boa_idb_core/src/key: value.rs and limits.rs (Key), compare.rs (Compare),
--                 encode.rs (Encode, Decode) and range.rs (Range). Words and Units hold arithmetic on
--                 words and on code units, Floats the order of encoded numbers, Canonical what
--                 encoding forgets of a key.
-- Engine          crates/boa_idb_core/src/engine: scheduler.rs (Scheduler) and open_queue.rs
--                 (OpenQueue); proto.rs gives the transaction modes. Store is the deletions of
--                 ops_store.rs over the interface of a backend: delete is delete_records, and clear
--                 clear_store.
-- Backend         the types of crates/boa_idb_core/src/backend; Traits is the interface of a
--                 transaction, which Memory.Traits fills.
-- Memory          crates/boa_idb_memory/src/txn.rs and the state of storage.rs: Txn has the requests
--                 and the writes of records and key generators, Index the index entries and commit,
--                 Schema the operations of an upgrade. Cursor is cursor.rs: Store and Index are its
--                 loops, Calls the calls of the trait, with scan of txn.rs. A loop runs on fuel, one
--                 round more than its two maps have entries, and is enough since each round moves past
--                 an entry. The other modules below Memory hold the proofs.
-- Clone           crates/boa_idb_core/src/clone: the checksum of crc32c.rs (Crc) and the unsigned varints
--                 of varint.rs (Varint). A u64 takes ten rounds of the loop at most, the bound of the
--                 model's.
-- Fs              crates/boa_idb_fs/src, the backend on files: its write-ahead log, wal.rs (Wal). Decode
--                 reads frames, Pack cuts a transaction into frames, Recover scans a log when a database
--                 is opened. A u64 is written in ten bytes at most, and the scan runs on fuel, the
--                 number of bytes: each frame takes some. A writer gives the bytes it appends.
--                 Meta and Manifest are the formats of meta.scf and of the manifest (meta.rs),
--                 Segment that of a segment (segment.rs), State the state and its replay (state.rs,
--                 apply.rs), Commit what a transaction logs and does to the state (txn.rs): its
--                 operations on files are taken to succeed, and commit is followed up to the compaction
--                 of the log (commit_before_compact), which is not modelled. The persistent maps of the
--                 state are a library's: their operations are parameters.
--
-- State is passed explicitly: an operation with &mut self returns the new state and its result, and
-- a buffer that is appended to is passed and returned. Functions keep their names; `get` of MemoryTxn
-- is get_record. Numbers of the source's machine types are natural numbers; where the source
-- truncates, masks or complements a word, so does the model. The ids of stores and indexes wrap around,
-- as a release build has it; the counts of deleted records are not bounded. Error texts are left
-- out, except that a key error keeps which of its texts it carries.
--
-- The decoder recurses at most 33 levels, the source's limit, and its element loop runs on fuel, the
-- number of bytes left: each element consumes at least one, and running out would be the value
-- out_of_fuel, which the source does not have.
--
-- The committed state of the memory backend stands behind a lock shared by the transactions of a
-- database; it is an argument of the operations, so that what other transactions do in between is
-- not modelled: where a theorem follows several calls, that state is fixed.
--
-- Not modelled: the rest of the structured clone codec, key paths, the other operations of the engine
-- on stores and indexes, count, the requests, cursor and files of the file system backend, the SQLite
-- backend, and the bindings to Boa.
pub mod Base
pub mod Float
pub mod Key
pub mod Engine
pub mod Backend
pub mod Memory
pub mod Clone
pub mod Fs
