-- ===== src/Memory/FreeSpace.antt =====
-- Steps 1 and 2 of `Memory::dynamic_allocation`: what a search of the free lists finds.
use solix.Prelude.{
  ℕ, ◌+◌, ◌-◌, ◌^◌, ◌≤◌, ◌<◌, ◌≡◌, refl, sym, ◌∙◌, subst, ◌⊎◌, inl, inr, none, some, ◌∷◌, ◌≢◌,
  arith, Option-cases,
}
use native.Mathlib.Nat.{add-zero}
use solix.Outcome.{ok}
use solix.Word.{u32}
use solix.Memory.Heap.{store, store_outside}
use solix.Memory.FreeLists.{Pairs, find, lower_bound, erase_key, erase_entry, put, add}
use solix.Memory.State.{Memory, write, write_u32}
use solix.Memory.Allocate.{take_exact, split_block, take_free}
use solix.Memory.Blocks.{entries, entries_of_find, entries_of_lower_bound, cover_of_entries}
use solix.Memory.Tiling.{Tiled, free_block, Tiled-unlink, Tiled-cut, Tiled-link}
use solix.Memory.Stored.{Keeps}

-- An access inside the heap succeeds, and its address does not wrap.
pub write-ok :
    (n address offset v : ℕ) (m : Memory)
    → address + offset + n ≤ m.heap_size
    → m.heap_size < 2 ^ 32
    → write n address offset v m ≡ ok (record m { heap = store n (address + offset) v m.heap })
unfolding write
write-ok n address offset v m h s =
    let e : u32 (address + offset) ≡ address + offset = omega arith in rw e (ground arith)

-- The layout invariant at the memory's own top.
abbrev pub Layout : Pairs → Memory → Type 0
Layout live m = Tiled live m.heap_size m.next_free_dynamic m.free_by_addr m.free_by_size

after_split : ℕ → ℕ → ℕ → Memory → Memory
after_split aligned rem header m =
    let rem_addr = header + 8 + aligned in
    record m {
      heap = store 4 (rem_addr + 4) 0 (store 4 rem_addr rem m.heap);
      free_by_addr = put rem_addr rem (erase_key header m.free_by_addr);
      free_by_size = add rem rem_addr (erase_entry (aligned + 8 + rem) header m.free_by_size);
    }

module _ (live : Pairs) (aligned rem header : ℕ) (m : Memory) (t : Layout live m)
    (free : 0 < entries header (aligned + 8 + rem) m.free_by_addr) where
  split_block-ok :
      split_block aligned (aligned + 8 + rem) header m
      ≡ ok (header, after_split aligned rem header m)
  unfolding split_block after_split write_u32
  split_block-ok =
      let (lo, hi, f) = free_block t header (aligned + 8 + rem) free in
      let e : u32 (aligned + 8 + rem + 2 ^ 32 + 2 ^ 32 - u32 aligned - 8) ≡ rem =
        omega (arith, t.below, t.small) in
      let a : u32 (header + 8 + u32 aligned) ≡ header + 8 + aligned =
        omega (arith, t.below, t.small) in
      let m1 : Memory = record m {
        free_by_size = erase_entry (aligned + 8 + rem) header m.free_by_size;
        free_by_addr = erase_key header m.free_by_addr;
      } in
      let m2 : Memory = record m1 { heap = store 4 (header + 8 + aligned + 0) rem m1.heap } in
      rw (
        e,
        a,
        write-ok 4 (header + 8 + aligned) 0 rem m1 (omega (arith, t.below)) t.small,
        write-ok 4 (header + 8 + aligned) 4 0 m2 (omega (arith, t.below)) t.small,
        add-zero,
      )

  split_block-Layout : Layout ((header, aligned) ∷ live) (after_split aligned rem header m)
  unfolding after_split
  split_block-Layout = Tiled-link (Tiled-cut (Tiled-unlink t header (aligned + 8 + rem) free))

  split_block-Keeps : Keeps live m.heap (after_split aligned rem header m).heap
  unfolding after_split
  split_block-Keeps x c =
      let (lo, hi, f) = free_block t header (aligned + 8 + rem) free in
      let d = t.tile x in
      let e = cover_of_entries x header (aligned + 8 + rem) m.free_by_addr free in
      store_outside 4 (header + 8 + aligned + 4) 0 _ x (ground arith)
      ∙ store_outside 4 (header + 8 + aligned) rem m.heap x (ground arith)

-- What steps 1 and 2 find: a block outside the live ones, or nothing, and then nothing changes.
pub record Found (live : Pairs) (aligned : ℕ) (m : Memory) (r : ℕ × Memory) : Type 0 where
  pub not_null : r.0 ≢ 0
  pub layout : Layout ((r.0, aligned) ∷ live) r.1
  pub keeps : Keeps live m.heap r.1.heap
  pub size_kept : r.1.heap_size ≡ m.heap_size

module _ (live : Pairs) (aligned : ℕ) (m : Memory) (t : Layout live m)
    (fits : aligned + 16 < 2 ^ 32) where
  take_exact_lem :
      (take_exact aligned m ≡ none)
      ⊎ ((r : ℕ × Memory) × (take_exact aligned m ≡ some r) × Found live aligned m r)
  unfolding take_exact
  take_exact_lem = elim (Option-cases (find aligned m.free_by_size)) [
    | inl e ↦ inl (let u : u32 aligned ≡ aligned = omega arith in rw (u, e, take_exact))
    | inr (header, e) ↦
        let i = entries_of_find aligned header m.free_by_size e in
        let b = free_block t header aligned (ground (arith, t.mirror header aligned)) in
        inr (
          (
            header,
            record m {
              free_by_size = erase_entry aligned header m.free_by_size;
              free_by_addr = erase_key header m.free_by_addr;
            },
          ),
          (let u : u32 aligned ≡ aligned = omega arith in rw (u, e, take_exact) (rw u)),
          record {
            not_null = λ z. absurd (omega (arith, t.room, t.small));
            layout = Tiled-unlink t header aligned (ground (arith, t.mirror header aligned));
            keeps = λ x c. refl;
            size_kept = refl;
          },
        )
  ]

  split_lem :
      (blk header : ℕ)
      → aligned + 16 ≤ blk
      → 0 < entries blk header m.free_by_size
      → (r : ℕ × Memory) × (split_block aligned blk header m ≡ ok r) × Found live aligned m r
  split_lem blk header le i =
      let rem : ℕ = blk - aligned - 8 in
      let e : blk ≡ aligned + 8 + rem = omega arith in
      let i' : 0 < entries header (aligned + 8 + rem) m.free_by_addr =
        subst (λ b. 0 < entries header b m.free_by_addr) e (ground (arith, t.mirror header blk)) in
      let b = free_block t header (aligned + 8 + rem) i' in
      (
        (header, after_split aligned rem header m),
        subst (λ k. split_block aligned k header m ≡ ok (header, after_split aligned rem header m))
            (sym e) (split_block-ok live aligned rem header m t i'),
        record {
          not_null = λ z. absurd (omega (arith, t.room, t.small));
          layout = split_block-Layout live aligned rem header m t i';
          keeps = split_block-Keeps live aligned rem header m t i';
          size_kept = (unfold after_split in refl);
        },
      )

  pub take_free_lem :
      (take_free aligned m ≡ ok (0, m))
      ⊎ ((r : ℕ × Memory) × (take_free aligned m ≡ ok r) × Found live aligned m r)
  unfolding take_free
  take_free_lem = elim take_exact_lem [
    | inr (r, e, f) ↦ inr (r, rw (e, take_free), f)
    | inl e ↦ elim (Option-cases (lower_bound (aligned + 16) m.free_by_size)) [
      | inl e' ↦
          inl (let u : u32 (aligned + 16) ≡ aligned + 16 = omega arith in rw (e, u, e', take_free))
      | inr ((blk, header), e') ↦
          let (le, i) = entries_of_lower_bound (aligned + 16) blk header m.free_by_size e' in
          let (r, e2, f) = split_lem blk header le i in
          inr (
            r,
            (let u : u32 (aligned + 16) ≡ aligned + 16 = omega arith in
                rw (e, u, e', e2, take_free)),
            f,
          )
    ]
  ]
