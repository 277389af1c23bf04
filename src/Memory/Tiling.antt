-- ===== src/Memory/Tiling.antt =====
-- The layout invariant of the dynamic heap of core/include/solix/runtime.hpp, and the steps by
-- which allocation and release change the layout. `live` lists the blocks that are handed out.
use solix.Prelude.{ℕ, ◌+◌, ◌^◌, ◌≤◌, ◌<◌, ◌≡◌, ◌∷◌, arith, ltb, leb, ◌&&◌, if◌then◌else◌, some}
use solix.Memory.FreeLists.{Pairs, find, erase_key, erase_entry, put, add}
use solix.Memory.Allocate.{dynamic_start}
use solix.Memory.Blocks.{
  cover, entries, cover-erase_key, cover-put, entries-erase_key, entries-put, entries-add,
  entries-erase_entry, cover_of_entries, find_of_cover_zero, find_of_entries,
}

-- Every byte between the start of the dynamic heap and its top is in exactly one block, live or
-- free, no other byte is in any, and the two free lists hold the same blocks.
pub record Tiled (live : Pairs) (size next : ℕ) (by_addr by_size : Pairs) : Type 0 where
  pub small : size < 2 ^ 32
  pub room : 16 ≤ size
  pub above : dynamic_start size ≤ next
  pub below : next ≤ size
  pub tile :
      (x : ℕ)
      → cover x live + cover x by_addr ≡ (if leb (dynamic_start size) x && ltb x next then 1 else 0)
  pub mirror : (a p : ℕ) → entries a p by_addr ≡ entries p a by_size

module _ {live : Pairs} {size next : ℕ} {by_addr by_size : Pairs}
    (t : Tiled live size next by_addr by_size) where
  -- A free block lies in the dynamic heap, and is found by its address.
  pub free_block :
      (a p : ℕ)
      → 0 < entries a p by_addr
      → (dynamic_start size ≤ a) × (a + 8 + p ≤ next) × (find a by_addr ≡ some p)
  free_block a p h =
      let c = cover_of_entries a a p by_addr h in
      let d = cover_of_entries (a + 7 + p) a p by_addr h in
      let e = t.tile a in
      let f = t.tile (a + 7 + p) in
      (ground arith, ground arith, find_of_entries a p by_addr h (ground arith))

  -- So does a live one.
  pub live_block : (a p : ℕ) → 0 < entries a p live → (dynamic_start size ≤ a) × (a + 8 + p ≤ next)
  live_block a p h =
      let c = cover_of_entries a a p live h in
      let d = cover_of_entries (a + 7 + p) a p live h in
      let e = t.tile a in let f = t.tile (a + 7 + p) in (ground arith, ground arith)

  -- A free block is handed out whole.
  pub Tiled-unlink :
      (a p : ℕ)
      → 0 < entries a p by_addr
      → Tiled ((a, p) ∷ live) size next (erase_key a by_addr) (erase_entry p a by_size)
  unfolding cover
  Tiled-unlink a p h =
      let (lo, hi, f) = free_block a p h in
      record {
        small = t.small;
        room = t.room;
        above = t.above;
        below = t.below;
        tile = λ x. omega (arith, t.tile x, cover-erase_key x a p by_addr f);
        mirror = λ b q. ground (
          arith,
          t.mirror b q,
          t.mirror a p,
          entries-erase_key b q a p by_addr f,
          entries-erase_entry q b p a by_size,
        );
      }

  -- Fresh space is handed out at the top.
  pub Tiled-raise :
      (p : ℕ) → next + 8 + p ≤ size → Tiled ((next, p) ∷ live) size (next + 8 + p) by_addr by_size
  unfolding cover
  Tiled-raise p h = record {
    small = t.small;
    room = t.room;
    above = omega (arith, t.above);
    below = h;
    tile = λ x. ground (arith, t.tile x, t.above);
    mirror = t.mirror;
  }

module _ {live : Pairs} {size next : ℕ} {by_addr by_size : Pairs} {a p : ℕ}
    (t : Tiled ((a, p) ∷ live) size next by_addr by_size) where
  -- A live block lies in the dynamic heap, apart from the other blocks.
  pub first_block : (dynamic_start size ≤ a) × (a + 8 + p ≤ next)
  unfolding entries
  first_block = live_block t a p (ground arith)

  pub cover_first : (x : ℕ) → a ≤ x → x < a + 8 + p → (cover x live ≡ 0) × (cover x by_addr ≡ 0)
  unfolding cover
  cover_first x l u = let e = t.tile x in (ground arith, ground arith)

  -- It goes to the free lists.
  pub Tiled-link : Tiled live size next (put a p by_addr) (add p a by_size)
  unfolding cover
  Tiled-link =
      let c : cover a by_addr ≡ 0 = (cover_first a (omega arith) (omega arith)).1 in
      let f = find_of_cover_zero a by_addr c in
      record {
        small = t.small;
        room = t.room;
        above = t.above;
        below = t.below;
        tile = λ x. omega (arith, t.tile x, cover-put x a p by_addr f);
        mirror = λ b q.
            ground
              (arith, t.mirror b q, entries-put b q a p by_addr f, entries-add q b p a by_size);
      }

  -- Or, at the top, back to the uncommitted space.
  pub Tiled-lower : a + 8 + p ≡ next → Tiled live size a by_addr by_size
  unfolding cover
  Tiled-lower e =
      let b = first_block in
      record {
        small = t.small;
        room = t.room;
        above = b.0;
        below = omega (arith, t.below);
        tile = λ x. ground (arith, t.tile x);
        mirror = t.mirror;
      }

module _ {live : Pairs} {size next : ℕ} {by_addr by_size : Pairs} {a p q : ℕ} where
  -- A block is cut in two, the second with a header of its own.
  pub Tiled-cut :
      Tiled ((a, p + 8 + q) ∷ live) size next by_addr by_size
      → Tiled ((a + 8 + p, q) ∷ (a, p) ∷ live) size next by_addr by_size
  unfolding cover
  Tiled-cut t = record {
    small = t.small;
    room = t.room;
    above = t.above;
    below = t.below;
    tile = λ x. ground (arith, t.tile x);
    mirror = t.mirror;
  }

  -- Two neighbours become one block.
  pub Tiled-join :
      Tiled ((a + 8 + p, q) ∷ (a, p) ∷ live) size next by_addr by_size
      → Tiled ((a, p + 8 + q) ∷ live) size next by_addr by_size
  unfolding cover
  Tiled-join t = record {
    small = t.small;
    room = t.room;
    above = t.above;
    below = t.below;
    tile = λ x. ground (arith, t.tile x);
    mirror = t.mirror;
  }

-- The invariant depends on the live blocks only through the bytes that they hold.
pub Tiled-of_cover :
    {live live' : Pairs} {size next : ℕ} {by_addr by_size : Pairs}
    → Tiled live size next by_addr by_size
    → ((x : ℕ) → cover x live' ≡ cover x live)
    → Tiled live' size next by_addr by_size
Tiled-of_cover t e = record {
  small = t.small;
  room = t.room;
  above = t.above;
  below = t.below;
  tile = λ x. omega (arith, e x, t.tile x);
  mirror = t.mirror;
}
