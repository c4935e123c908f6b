-- ===== src/Pmm/Setup.antt =====
-- `pmm_memory_setup`: the bitmap that the bootloader's memory map gives.
use just_kernel.Base.{
  ℕ, ◌*◌, ◌/◌, ◌%◌, ◌≤◌, ◌<◌, ◌≡◌, refl, ◌∙◌, inl, inr, Bool, false, ◌&&◌, ◌||◌, arith, u32,
  Bool-cases, List, [], ◌∷◌, page_size,
}
use just_kernel.Pmm.{
  Pmm, bitmap_max_page, MemoryBlock, is_usable, block_start, block_len, add_block, add_blocks,
  fill_bitmap, pmm_memory_setup, pmm_get_bit,
}
use just_kernel.Pmm.Bits.{is_free, IsBytes, full_byte}
use just_kernel.Pmm.Ranges.{in_range, is_free-clear_bits, clear_bits-IsBytes}
use just_kernel.Pmm.Alloc.{WellFormed, memory_sum}

-- The frames that a block gives: none unless it is available memory at or above 1 MiB, and then
-- those from its rounded start on.
abbrev pub gives : MemoryBlock → ℕ → Bool
gives b q = is_usable b && in_range (block_start b / page_size) (block_len b / page_size) q

abbrev pub some_gives : List MemoryBlock → ℕ → Bool
some_gives [] q = false
some_gives (b ∷ bs) q = gives b q || some_gives bs q

add_block-IsBytes : (b : MemoryBlock) (s : Pmm) → IsBytes s.bitmap → IsBytes (add_block b s).bitmap
unfolding add_block
add_block-IsBytes b s bytes = elim (Bool-cases (is_usable b)) [
  | inl use_it ↦ rw use_it (clear_bits-IsBytes _ _ s.bitmap bytes)
  | inr skip ↦ rw skip bytes
]

is_free-add_block :
    (b : MemoryBlock) (s : Pmm) (q : ℕ)
    → IsBytes s.bitmap
    → is_free (add_block b s).bitmap q ≡ (gives b q || is_free s.bitmap q)
unfolding add_block
is_free-add_block b s q bytes = ground (
  arith,
  is_free-clear_bits (block_len b / page_size) (block_start b / page_size) s.bitmap q bytes
      (omega arith),
)

add_blocks-IsBytes :
    (bs : List MemoryBlock) (s : Pmm) → IsBytes s.bitmap → IsBytes (add_blocks bs s).bitmap
unfolding add_blocks
add_blocks-IsBytes [] s bytes = bytes
add_blocks-IsBytes (b ∷ bs) s bytes =
    add_blocks-IsBytes bs (add_block b s) (add_block-IsBytes b s bytes)

is_free-add_blocks :
    (bs : List MemoryBlock) (s : Pmm) (q : ℕ)
    → IsBytes s.bitmap
    → is_free (add_blocks bs s).bitmap q ≡ (some_gives bs q || is_free s.bitmap q)
unfolding add_blocks
is_free-add_blocks [] s q bytes = refl
is_free-add_blocks (b ∷ bs) s q bytes = ground (
  arith,
  is_free-add_blocks bs (add_block b s) q (add_block-IsBytes b s bytes),
  is_free-add_block b s q bytes,
)

fill_bitmap-IsBytes : (bitmap : ℕ → ℕ) → IsBytes bitmap → IsBytes (fill_bitmap bitmap)
fill_bitmap-IsBytes bitmap bytes i = ground (arith, bytes i)

is_free-fill_bitmap :
    (bitmap : ℕ → ℕ) (q : ℕ) → q < 8 * bitmap_max_page → is_free (fill_bitmap bitmap) q ≡ false
unfolding pmm_get_bit
is_free-fill_bitmap bitmap q h = ground (arith, full_byte (q % 8) (omega arith))

-- The bitmap after `pmm_memory_setup` marks a page of the array as free exactly if a block of the
-- map gives it.
pub is_free-pmm_memory_setup :
    (mmap : List MemoryBlock) (s : Pmm) (q : ℕ)
    → IsBytes s.bitmap
    → q < 8 * bitmap_max_page
    → is_free (pmm_memory_setup mmap s).bitmap q ≡ some_gives mmap q
unfolding pmm_memory_setup
is_free-pmm_memory_setup mmap s q bytes h = ground (
  arith,
  is_free-add_blocks mmap (record s { bitmap = fill_bitmap s.bitmap }) q
      (fill_bitmap-IsBytes s.bitmap bytes),
  is_free-fill_bitmap s.bitmap q h,
)

-- No block starts in the last page below 4 GiB, where rounding up would wrap.
abbrev pub NoWrap : List MemoryBlock → Type 0
NoWrap [] = Unit
NoWrap (b ∷ bs) = (u32 b.addr ≤ 0xfffff000) × NoWrap bs

some_gives-zero : (bs : List MemoryBlock) → NoWrap bs → some_gives bs 0 ≡ false
some_gives-zero [] h = refl
some_gives-zero (b ∷ bs) h = ground (arith, some_gives-zero bs h.1)

add_block-counters :
    (b : MemoryBlock) (s : Pmm)
    → s.available_memory < 4294967296
    → ((add_block b s).available_memory < 4294967296)
      × ((add_block b s).used_memory ≡ s.used_memory)
unfolding add_block
add_block-counters b s h = ground arith

add_blocks-counters :
    (bs : List MemoryBlock) (s : Pmm)
    → s.available_memory < 4294967296
    → ((add_blocks bs s).available_memory < 4294967296)
      × ((add_blocks bs s).used_memory ≡ s.used_memory)
unfolding add_blocks
add_blocks-counters [] s h = (h, refl)
add_blocks-counters (b ∷ bs) s h =
    let one = add_block-counters b s h in
    let rest = add_blocks-counters bs (add_block b s) one.0 in (rest.0, rest.1 ∙ one.1)

-- From the state at boot `pmm_memory_setup` reaches a well-formed state in which the counters add
-- up to the total.
pub pmm_memory_setup-WellFormed :
    (mmap : List MemoryBlock) (s : Pmm)
    → NoWrap mmap
    → IsBytes s.bitmap
    → s.used_memory ≡ 0
    → s.available_memory ≡ 0
    → WellFormed (pmm_memory_setup mmap s)
      × (memory_sum (pmm_memory_setup mmap s) ≡ (pmm_memory_setup mmap s).total_memory)
unfolding pmm_memory_setup
pmm_memory_setup-WellFormed mmap s nowrap bytes used avail = (
  record {
    bytes = filled;
    zero_taken =
        is_free-pmm_memory_setup mmap s 0 bytes (omega arith) ∙ some_gives-zero mmap nowrap;
    used = omega (arith, counters);
    available = omega (arith, counters);
  },
  omega (arith, counters),
)
  where
    start : Pmm
    start = record s { bitmap = fill_bitmap s.bitmap }

    filled : IsBytes (pmm_memory_setup mmap s).bitmap
    filled = add_blocks-IsBytes mmap start (fill_bitmap-IsBytes s.bitmap bytes)

    counters :
        ((pmm_memory_setup mmap s).available_memory < 4294967296)
        × ((pmm_memory_setup mmap s).used_memory ≡ s.used_memory)
        × ((pmm_memory_setup mmap s).total_memory ≡ (pmm_memory_setup mmap s).available_memory)
    counters = let c = add_blocks-counters mmap start (omega arith) in (c.0, c.1, refl)
