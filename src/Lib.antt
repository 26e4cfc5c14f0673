-- ===== src/Lib.antt =====
-- A verification library for kv_mem, a key-value store on a log-structured merge tree.
--
-- The program's parts. A write is a batch of operations (write_batch) that is appended to a
-- write-ahead log (wal) and then put into a memtable; full memtables are flushed to sorted tables,
-- and compactions merge tables and drop versions that no reader can see (db). Each record carries a
-- sequence number; a snapshot is such a number, and a read sees of each key the newest version that
-- is not newer than its sequence. Integers, internal keys and file names have one encoding, shared by
-- all files on disk (format, storage_util).
--
-- Where each part is modelled:
--   Bytes               strings and buffers as lists of bytes, compared as std::string compares them
--   Status              include/status.h, src/status.cc: `Result A` is a Status beside an output
--   Format              src/format.cc, src/storage_util.cc
--   WriteBatch          src/write_batch.cc
--   Wal                 src/wal.cc: Wal.Writer is WALWriter and Wal.Reader is WALReader
--   Types               include/types.h
--   Compaction          DB::CompactUnlocked of src/db.cc
--   BloomFilter         src/bloom_filter.cc
--   BlockCache          src/block_cache.cc
--   Sstable.Block       EncodeBlock of src/sstable.cpp, and in Sstable.Block.Decode its readers
--   Sstable.Lookup      SSTable::GetFromBlock of src/sstable.cpp on the bytes of a block
--   Sstable.Create      SSTable::CreateFromEntries of src/sstable.cpp
--   Sstable.Table       LoadIndex, ReadRawBlock, Get and Entries of SSTable in src/sstable.cpp
--   Sstable.Iterator    SSTableInternalIterator of src/sstable.cpp
--   Db.Store            ValidateKey, DB::Write and what it calls down to DB::FlushMemTable
--   Db.Recover          DB::Recover; Db.Recover.Scan has the directory and the order of the logs
--   Db.Get              DB::Get over memtables and tables
--   Db.Flush            DB::FlushImmutableMemTable, and what BackgroundWorkerLoop publishes behind it
--   Db.Writes           runs of DB::Write, against what the log and the memtable then hold
--   Db.Snapshots        the snapshots of DB and the functions that read them
--   Tests               tests on small inputs, and the theorems at concrete inputs
--
-- Conventions. Numbers are natural numbers; where the source computes in 32 or 64 bits and can leave
-- the range, the remainder is written out. A file is the list of its bytes. What the file system, the
-- streams, the hooks for tests and fsync answer is an argument of the definitions (AppendIo, ReadIo):
-- each call may fail, and a read or a write may stop in the middle. Messages keep their fixed text.
--
-- Loops. WriteBatch::Decode recurs on the accessibility of what is left of its buffer, since each
-- round takes at least the nine bytes of a header, so it has no fuel. The decimal digits of a number
-- take 20 rounds, enough for 64 bits. The replay of a WAL file has fuel, one for each call of the
-- reader; the theorems on recovery say how much is enough. In a block, the search over the restarts has
-- a round for each restart, and the scan one for each byte before the restart area. Splitting entries
-- into blocks has a round for each entry, and evicting one for each node. The iterator of
-- a table passes over an entry in each round of SkipUntilVisible; the theorems on it say how many
-- rounds are enough. All other loops are
-- structural.
--
-- Interfaces. The database uses a memtable through the record MemTableOps, and what the proofs need of
-- it is the record
-- MemTableLaws for the writes, and MemTableReads for Get. The manifest in memory is a record of its three numbers; whether its
-- save succeeded is an argument of the write. Tables read their blocks through the cache; a Reader is
-- what such a read changes, and what a table needs of a cache is the predicate Serves.
--
-- Not modelled: the skip list behind the memtable (src/skiplist.cc, src/memtable.cc) and the file of
-- the manifest (src/manifest.cpp), of which the database uses the interfaces above; the merge of a
-- compaction; WALWriter::Open, FsyncFile, FsyncDirectory and RemoveFileIfExists, which are system
-- calls; the file system's part of SSTable::CreateFromEntries and SSTable::Open, and reads of a table
-- that fail; locks, since each modelled function runs under the lock that its caller holds; the vector
-- extension and its index (src/vector_*.cc, src/hnsw_*.cc), which compute with floating point.
pub mod Prelude
pub mod Status
pub mod Bytes
pub mod Format
pub mod WriteBatch
pub mod Wal
pub mod Types
pub mod Compaction
pub mod Db
pub mod BloomFilter
pub mod BlockCache
pub mod Sstable
mod Tests
