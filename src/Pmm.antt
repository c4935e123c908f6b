-- ===== src/Pmm.antt =====
-- The physical memory manager, src/mm/pmm.c: a bitmap with one bit for each page frame (a set bit
-- is a page that is taken) and three counters of bytes.
pub mod Bits
pub mod Search
pub mod Ranges
pub mod Alloc
pub mod Accounting
pub mod Setup
mod Tests
use just_kernel.Base.{
  ℕ, zero, suc, ◌+◌, ◌-◌, ◌*◌, ◌/◌, ◌%◌, ◌^◌, ◌≤◌, ◌<◌, ◌≡◌, Bool, true, false, not, ◌&&◌, ◌||◌,
  Option, none, some, List, [], ◌∷◌, ltb, leb, ◌==◌, if◌then◌else◌, u32, sub32, page_size, bit_and,
  bit_or, bit_xor,
}

-- `BITMAP_MAX_PAGE`: the length of `bitmap` in bytes.
abbrev pub bitmap_max_page : ℕ
bitmap_max_page = 4294967295 / page_size / 8

-- The globals of the file. The bitmap gives the byte at each index.
pub record Pmm : Type 0 where
  pub bitmap : ℕ → ℕ
  pub total_memory : ℕ
  pub used_memory : ℕ
  pub available_memory : ℕ

-- `1 << bit`
abbrev pub mask : ℕ → ℕ
mask bit = 2 ^ bit

pub set_byte : (ℕ → ℕ) → ℕ → ℕ → ℕ → ℕ
set_byte bitmap byte v i = if i == byte then v else bitmap i

-- The array is written through its index; the mask of `pmm_clear_bit` is `~(1 << bit)`, cut to a
-- byte by the store.
unfoldable pub pmm_set_bit : ℕ → (ℕ → ℕ) → ℕ → ℕ
unfolding set_byte
pmm_set_bit page bitmap = set_byte bitmap (page / 8) (bit_or (bitmap (page / 8)) (mask (page % 8)))

unfoldable pub pmm_clear_bit : ℕ → (ℕ → ℕ) → ℕ → ℕ
unfolding set_byte
pmm_clear_bit page bitmap =
    set_byte bitmap (page / 8) (bit_and (bitmap (page / 8)) (bit_xor 255 (mask (page % 8))))

unfoldable pub pmm_get_bit : ℕ → (ℕ → ℕ) → ℕ
pmm_get_bit page bitmap = bit_and (bitmap (page / 8)) (mask (page % 8))

-- The loops `for (i = 0; i < pages; i++) pmm_set_bit(page + i)` and the same of `pmm_clear_bit`,
-- over the rounds left and the current index.
unfoldable pub set_bits : ℕ → ℕ → (ℕ → ℕ) → ℕ → ℕ
set_bits zero page bitmap = bitmap
set_bits (suc n) page bitmap = set_bits n (page + 1) (pmm_set_bit (u32 page) bitmap)

unfoldable pub clear_bits : ℕ → ℕ → (ℕ → ℕ) → ℕ → ℕ
clear_bits zero page bitmap = bitmap
clear_bits (suc n) page bitmap = clear_bits n (page + 1) (pmm_clear_bit (u32 page) bitmap)

-- One round of the search of `find_free_page` from index `i`, with its two locals. `none` is the
-- halt behind the loop.
unfoldable pub find_loop : ℕ → ℕ → (ℕ → ℕ) → (pages found first : ℕ) → Option ℕ
find_loop zero i bitmap pages found first = none
find_loop (suc n) i bitmap pages found first =
    let free = pmm_get_bit i bitmap == 0 in
    let found' = if free then found + 1 else 0 in
    let first' = if free then (if first == 0 then i else first) else 0 in
    let rest = find_loop n (i + 1) bitmap pages found' first' in
    if found' == pages then some first' else rest

unfoldable pub find_free_page : ℕ → (ℕ → ℕ) → Option ℕ
find_free_page pages bitmap = find_loop bitmap_max_page 0 bitmap pages 0 0

-- `(size + PAGE_SIZE - 1) / PAGE_SIZE` in 32 bits
abbrev pub pages_of : ℕ → ℕ
pages_of size = u32 (size + (page_size - 1)) / page_size

-- What `pmm_alloc` and `pmm_alloc_from` do once the pages are known.
unfoldable pub take_pages : ℕ → ℕ → Pmm → Pmm
take_pages page pages s = record s {
  bitmap = set_bits pages page s.bitmap;
  available_memory = sub32 s.available_memory (pages * page_size);
  used_memory = u32 (s.used_memory + pages * page_size);
}

-- The address and the new state; `none` if the search halts the machine.
unfoldable pub pmm_alloc : ℕ → Pmm → Option (ℕ × Pmm)
pmm_alloc size s = elim (find_free_page (pages_of size) s.bitmap) [
  | none ↦ none
  | some page ↦ some (u32 (page * page_size), take_pages page (pages_of size) s)
]

-- The first loop of `pmm_alloc_from`: whether no page of the range is taken.
unfoldable pub range_free : ℕ → ℕ → (ℕ → ℕ) → Bool
range_free zero page bitmap = true
range_free (suc n) page bitmap =
    let rest = range_free n (page + 1) bitmap in
    if pmm_get_bit (u32 page) bitmap == 0 then rest else false

unfoldable pub pmm_alloc_from : ℕ → ℕ → Pmm → ℕ × Pmm
pmm_alloc_from addr size s =
    let page = addr / page_size in
    if range_free (pages_of size) page s.bitmap
    then (u32 (page * page_size), take_pages page (pages_of size) s)
    else (0, s)

-- `none` is the halt on a range beyond `BITMAP_MAX_PAGE`; a misaligned address is only reported.
unfoldable pub pmm_unalloc : ℕ → ℕ → Pmm → Option Pmm
pmm_unalloc addr size s =
    let page = addr / page_size in
    let pages = pages_of size in
    if ltb bitmap_max_page (u32 (page + pages))
    then none
    else some (record s {
      bitmap = clear_bits pages page s.bitmap;
      available_memory = u32 (s.available_memory + pages * page_size);
      used_memory = sub32 s.used_memory (pages * page_size);
    })

-- `multiboot_memory_map_t`: 64-bit address and length, and the type of the block.
pub record MemoryBlock : Type 0 where
  pub addr : ℕ
  pub len : ℕ
  pub type : ℕ

-- `ROUND_UP(N, PAGE_SIZE)` in 32 bits
abbrev pub round_up : ℕ → ℕ
round_up n = u32 (n + (page_size - 1)) / page_size * page_size

abbrev pub is_usable : MemoryBlock → Bool
is_usable b = (b.type == 1) && leb 0x100000 (u32 b.addr)

abbrev pub block_start : MemoryBlock → ℕ
block_start b = round_up (u32 b.addr)

abbrev pub block_len : MemoryBlock → ℕ
block_len b = sub32 (round_up (u32 (b.addr + b.len))) (block_start b)

-- The body of the loop over the blocks: a usable block clears its pages and adds its length.
unfoldable pub add_block : MemoryBlock → Pmm → Pmm
add_block b s =
    if is_usable b
    then record s {
      bitmap = clear_bits (block_len b / page_size) (block_start b / page_size) s.bitmap;
      available_memory = u32 (s.available_memory + block_len b);
    }
    else s

unfoldable pub add_blocks : List MemoryBlock → Pmm → Pmm
add_blocks [] s = s
add_blocks (b ∷ bs) s = add_blocks bs (add_block b s)

-- `memset(bitmap, 0xFF, BITMAP_MAX_PAGE)`
abbrev pub fill_bitmap : (ℕ → ℕ) → ℕ → ℕ
fill_bitmap bitmap i = if ltb i bitmap_max_page then 255 else bitmap i

unfoldable pub pmm_memory_setup : List MemoryBlock → Pmm → Pmm
pmm_memory_setup mmap s =
    let s' = add_blocks mmap (record s { bitmap = fill_bitmap s.bitmap }) in
    record s' { total_memory = s'.available_memory }
