-- ===== src/Tests.antt =====
-- Tests, and the theorems at concrete inputs.
mod RwLock
mod Decomment
mod HashTable
mod Dirtree
mod Bins
mod HeapManager
mod Server
mod Order
mod Walk
