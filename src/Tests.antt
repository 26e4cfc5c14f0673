-- ===== src/Tests.antt =====
-- Tests on small inputs, and the theorems at inputs that meet their hypotheses.
mod Format
mod Log
mod Readers
mod Stores
mod Filters
mod Directory
mod Replays
mod Tables
mod Blocks
mod Reads
mod Iterators
mod Flushes
