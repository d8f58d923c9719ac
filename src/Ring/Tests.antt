-- ===== src/Ring/Tests.antt =====
-- A run of the buffer.
use waffynx.Ring.{Ring, new_ring}
use waffynx.Common.{ℕ}

abbrev two_slots : Ring ℕ
two_slots = new_ring 2
