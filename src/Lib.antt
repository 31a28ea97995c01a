-- ===== src/Lib.antt =====
-- lithicdb (the Go module theseon): the storage engine, its log and clocks, and the cluster layer.
--
-- The program is an LSM storage engine (kv, memtable, sstable, wal, manifest, compaction, iterator,
-- db) under a replicated key-value service (hashring, hlc, cluster). A write gets a sequence number
-- and goes to the log and to the memtable under an internal key; reads pick, for each user key, the
-- newest version that their snapshot sees. The cluster layer stamps each write with a hybrid
-- logical clock, stores it in an envelope, and places it on replicas by a consistent hash ring.
--
-- Conventions. Numbers are the native naturals; a uint's wrap-around is written out, an int64 is an
-- integer cut to 64 bits where the code may leave the range. A byte slice or a string is the list
-- of its bytes. A method takes the state and returns the new one; a mutex makes each method one
-- step. The physical clock and the contents of files are arguments. Go's standard library is
-- modelled as far as it is used (bytes.Compare, encoding/binary, hash/crc32, sort.Search,
-- sort.Slice, strconv.AppendInt); xxhash, which is a third-party package, is a parameter.
--
-- Files and code (paths from the repository's root):
--   Common    lists, bytes, byte orders, crc32, binary search, integers.
--   Kv        kv/key.go and kv/value.go: MakeInternalKey is make_internal_key, and so on. KeyOrder
--             has the order of internal keys.
--   Hlc       hlc/timestamp.go and hlc/clock.go: Less, Equal, Encode, DecodeTimestamp, Now, Update.
--             History runs a clock over any list of events.
--   Wal       wal/encoding.go (encodeRecord, decodeRecord) and the loop of Recover in
--             wal/reader.go over the bytes of a file. The loop's fuel is the file's length; each
--             record takes eight bytes at least.
--   Memtable  memtable/skiplist.go and memtable/memtable.go: findGreaterOrEqual through the levels,
--             Put, Get, GetNewest, GetAt. A skip list is its nodes in the order of level 0 with their
--             heights, which determine every `next` pointer; randomHeight's result is an argument
--             of Put. Log is a memtable after any sequence of writes; Scan is the iterator of
--             memtable/iterator.go.
--   Iterator  iterator/: Snapshot is snapshot.go, Merge is merge.go with its heap
--             (container/heap is known by the order in which Pop gives the entries), Buffer is
--             write_buffer.go. An iterator is the list of the entries that it has ahead;
--             a loop's fuel is one round more than the entries of its sources.
--   Db        db/: Registry is db/snapshot_registry.go with Snapshot.Close of db/snapshot.go.
--             Engine is the state with Put, Delete, Get, the rotation of the memtable and the flush
--             of db/write.go, db/read.go and db/flush.go; Batch is db/batch.go, Transaction is
--             db/transaction.go, Scan is the scans of db/read.go, db/snapshot.go and
--             db/transaction.go. A table, and the body of flushMemtable that builds one, are
--             parameters, with what the engine relies on as hypotheses. The outcomes of the log's calls and the heights of the skip
--             list are an argument, Calls. A call that must wait for the flusher returns blocked.
--   Manifest  manifest/encoding.go is Manifest.antt, manifest/manifest.go is its State: AddSSTable is
--             add_sstable, and so on, and Open's replay is open_manifest over the bytes of the file.
--             The outcome of each write is an argument. Keyed has the maps as lists of their
--             entries in one order. The fuel is the file's length.
--   Hashring  hashring/ring.go: AddNode, RemoveNode, ReplaceMembers, GetNode, GetNodes and
--             CoReplicas over the sorted virtual nodes. The walk makes one round, as the source's
--             loop does; Owners has its specification. sort.Slice is an insertion sort that keeps
--             equal hashes in order.
--   Cluster   cluster/: Membership is the table of cluster/membership.go; its Merge has mergeLocked,
--             the ring descriptor and the message handlers of cluster/gossip.go, and the suspect
--             timer and the reaping of cluster/swim.go. Admin is cluster/admin.go, each request a
--             read with a decision and a later application. Envelope is cluster/envelope.go.
--   Compaction  compaction/picker.go: PickCompaction and what it calls.
--
-- Not modelled: files and the network (wal/wal.go, cluster/grpc_transport.go, server/, node/), which
-- are I/O; proto/, which is generated; vector/ and internal/simd/, which compute on floats; the
-- probe loop of cluster/swim.go, which is timing and random choice; and sstable/, buildState of
-- manifest/manifest.go, compaction/executor.go, db/compact.go, the recovery at Open of db/db.go,
-- range scans over tables, cluster/coordinator.go, cluster/antientropy/ and
-- cluster/hintedhandoff/.
pub mod Common
pub mod Kv
pub mod Hlc
pub mod Wal
pub mod Db
pub mod Iterator
pub mod Manifest
pub mod Memtable
pub mod Compaction
pub mod Hashring
pub mod Cluster
