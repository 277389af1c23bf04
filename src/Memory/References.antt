-- ===== src/Memory/References.antt =====
-- `Memory::increase_reference`.
use solix.Prelude.{ℕ, ◌+◌, ◌-◌, ◌||◌, leb, ltb, if◌then◌else◌}
use solix.Outcome.{Outcome, ok, ◌>>=◌}
use solix.Memory.State.{Memory, read_u32, write_u32, ref_of, with_ref}

unfoldable pub increase_reference : ℕ → Memory → Outcome Memory
increase_reference address m = if ltb address 8 || leb m.heap_size address then ok m else do
  let header_addr = address - 8
  tag_and_ref ← read_u32 header_addr 4 m
  write_u32 header_addr 4 (with_ref tag_and_ref (ref_of tag_and_ref + 1)) m
