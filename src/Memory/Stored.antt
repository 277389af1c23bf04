-- ===== src/Memory/Stored.antt =====
-- The bytes of the live blocks, and the sizes that `Memory::deallocate` reads from their headers.
use solix.Prelude.{ℕ, ◌+◌, ◌≤◌, ◌<◌, ◌≡◌, ◌∙◌, ap₂, ◌∷◌, arith}
use solix.Memory.FreeLists.{Pairs}
use solix.Memory.Heap.{Bytes, load, load_cong}
use solix.Memory.State.{Memory, tag_of}
use solix.Memory.Allocate.{aligned_payload, start_dynamic}
use solix.Memory.Deallocate.{freed_bytes}
use solix.Memory.Blocks.{cover, entries, cover_of_entries}
use solix.Memory.Tiling.{Tiled}

-- The size of the payload that the header at `a` stands for.
abbrev pub header_payload : ℕ → Bytes → ℕ
header_payload a h = aligned_payload (freed_bytes (tag_of (load 4 (a + 4) h)) (load 4 a h))

abbrev pub Stored : Pairs → Bytes → Type 0
Stored live h = (a p : ℕ) → 0 < entries a p live → header_payload a h ≡ p

-- No byte of a live block differs.
abbrev pub Keeps : Pairs → Bytes → Bytes → Type 0
Keeps live h g = (x : ℕ) → 0 < cover x live → g x ≡ h x

pub header_cong :
    (a : ℕ) (h g : Bytes)
    → ((x : ℕ) → a ≤ x → x < a + 8 → g x ≡ h x)
    → header_payload a g ≡ header_payload a h
header_cong a h g e =
    ap₂ (λ t c. aligned_payload (freed_bytes (tag_of t) c))
      (load_cong 4 (a + 4) g h (λ x l u. e x (omega arith) (omega arith)))
      (load_cong 4 a g h (λ x l u. e x l (omega arith)))

pub Stored-Keeps : (live : Pairs) (h g : Bytes) → Stored live h → Keeps live h g → Stored live g
Stored-Keeps live h g s k a p i =
    header_cong a h g (λ x l u. k x (let c = cover_of_entries x a p live i in ground arith))
    ∙ s a p i

pub Stored-tail :
    (header payload : ℕ) (live : Pairs) (h : Bytes)
    → Stored ((header, payload) ∷ live) h
    → Stored live h
unfolding entries
Stored-tail header payload live h s a p i = s a p (omega arith)

-- The dynamic heap is tiled by the live blocks and the free ones. A live block of any tag is
-- allowed.
abbrev pub Tiles : Pairs → Memory → Type 0
Tiles live m =
    Tiled live m.heap_size (start_dynamic m).next_free_dynamic m.free_by_addr m.free_by_size

-- The heap is tiled, and every live block is released with the size that it has. A live tuple that
-- is not empty does not satisfy this.
pub record IsTiled (live : Pairs) (m : Memory) : Type 0 where
  pub layout : Tiles live m
  pub stored : Stored live m.heap
