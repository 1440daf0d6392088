-- ===== src/HeapManager/Units.antt =====
-- Lab3/src/heapmgr1.c: the units that `bytes_to_payload_units` asks for.
use system_programming.Base.{ℕ, ◌+◌, ◌*◌, ◌^◌, ◌≤◌, ◌<◌, ◌≡◌, arith}
use system_programming.HeapManager.Alloc.{bytes_to_payload_units}
use system_programming.HeapManager.Chunk.{chunk_unit}

-- For a size at least 16 below 2 ^ 64, the payload of the units that are asked for holds the bytes, and
-- one unit less would not.
pub bytes_to_payload_units-bounds :
    (bytes : ℕ)
    → bytes + 15 < 2 ^ 64
    → (bytes ≤ bytes_to_payload_units bytes * chunk_unit)
      × (bytes_to_payload_units bytes * chunk_unit < bytes + chunk_unit)
unfolding bytes_to_payload_units
bytes_to_payload_units-bounds bytes small = omega (arith, small)

-- A larger size wraps, and gets no unit at all.
pub bytes_to_payload_units_wraps :
    (bytes : ℕ) → 2 ^ 64 ≤ bytes + 15 → bytes < 2 ^ 64 → bytes_to_payload_units bytes ≡ 0
unfolding bytes_to_payload_units
bytes_to_payload_units_wraps bytes big below = omega (arith, big, below)
