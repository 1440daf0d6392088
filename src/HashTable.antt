-- ===== src/HashTable.antt =====
-- 202110421_assign5/hashtable.c: a chained hash table with a reader-writer lock for each bucket.
-- `Strings` has C strings and the hash, `Chain` one bucket, `Locks` what the table asks of a lock, `Ops`
-- the entry points.
pub mod Strings
pub mod Chain
pub mod Locks
pub mod Ops
pub mod Valid
pub mod Spec
pub mod Refine
pub mod Lifetime
pub mod Rw
