-- ===== src/Heap.antt =====
-- The kernel heap, src/mm/heap.c: chunks with boundary tags in the pages from `start_addr` to
-- `end_addr`, and the list of free chunks in order of size. A chunk is known by its address; its two
-- words are functions of the address, which do not collide since chunks are 8 bytes apart at least.
pub mod Results
pub mod Release
pub mod Sizes
pub mod Chain
pub mod Order
pub mod Alloc
pub mod Inv
pub mod Take
pub mod Split
pub mod Serve
pub mod Fit
pub mod Free
pub mod GiveBack
pub mod Grow
pub mod Rounds
mod Tests
use just_kernel.Base.{
  ℕ, zero, suc, ◌+◌, ◌*◌, ◌-◌, ◌/◌, ◌%◌, Bool, true, false, not, ◌&&◌, ◌||◌, Option, none, some,
  List, [], ◌∷◌, ltb, leb, ◌==◌, if◌then◌else◌, u32, sub32, bit_and, bit_or, page_size,
}
use just_kernel.Pmm.{pmm_alloc, pmm_unalloc}
use just_kernel.Vmm.{Layout, Vmm, vmm_map_pages, vmm_unmap_pages, is_mapped, virt_to_phys}
use just_kernel.Vmm.Directories.{vmm_map}
use just_kernel.Heap.Results.{Outcome, ok, panics, halts, corrupts, faults, no_fuel, ◌>>=◌}

-- `Heap_t`, the `prevFoot` and `head` words of its chunks, and the memory managers.
pub record Heap : Type 0 where
  pub start_addr : ℕ
  pub end_addr : ℕ
  pub max_addr : ℕ
  pub cr3 : ℕ
  pub perms : ℕ
  pub free_list : List ℕ
  pub prev_foot : ℕ → ℕ
  pub head : ℕ → ℕ
  pub vmm : Vmm

abbrev pub heap_min_size : ℕ
heap_min_size = 0x100000

abbrev pub min_chunk_size : ℕ
min_chunk_size = 16

-- `chunksize`, `pinuse` and `cinuse`, of a `head` word
abbrev pub size_of : ℕ → ℕ
size_of word = bit_and word 0xFFFFFFF8

abbrev pub chunk_size : Heap → ℕ → ℕ
chunk_size h p = size_of (h.head p)

abbrev pub pinuse : Heap → ℕ → Bool
pinuse h p = not (bit_and (h.head p) 1 == 0)

abbrev pub cinuse : Heap → ℕ → Bool
cinuse h p = not (bit_and (h.head p) 2 == 0)

abbrev pub ok_inuse : Heap → ℕ → Bool
ok_inuse h p = not (bit_and (h.head p) 3 == 1)

abbrev pub ok_address : Heap → ℕ → Bool
ok_address h p = leb h.start_addr p && ltb p h.end_addr

-- `request2size`, with `pad_request`
unfoldable pub request2size : ℕ → ℕ
request2size req = if ltb req 11 then min_chunk_size else bit_and (u32 (req + 11)) 0xFFFFFFF8

abbrev pub set_head : (p word : ℕ) → Heap → Heap
set_head p word h = record h { head = λ q. if q == p then word else h.head q }

unfoldable pub set_size_and_pinuse : (p size : ℕ) → Heap → Heap
set_size_and_pinuse p size h = set_head p (bit_or size 1) h

unfoldable pub tag_inuse : (p size : ℕ) → Heap → Heap
tag_inuse p size h =
    let h1 = set_head p (bit_or (bit_or (bit_and (h.head p) 1) 2) size) h in
    let next = u32 (p + size) in set_head next (bit_or (h1.head next) 1) h1

-- `set_inuse`: the second write is to the chunk behind, whose word has to lie within the heap.
unfoldable pub set_inuse : (p size : ℕ) → Heap → Outcome Heap
set_inuse p size h = if leb h.end_addr (u32 (p + size)) then faults else ok (tag_inuse p size h)

unfoldable pub set_foot : (p size : ℕ) → Heap → Heap
set_foot p size h = record h {
  prev_foot = λ q. if q == u32 (p + size) then size else h.prev_foot q;
}

-- The first chunk of the list that is large enough.
unfoldable pub find_smallest : (head : ℕ → ℕ) (size : ℕ) → List ℕ → Option ℕ
find_smallest head size [] = none
find_smallest head size (c ∷ cs) =
    let rest = find_smallest head size cs in if leb size (size_of (head c)) then some c else rest

-- A chunk goes before the first one that is at least as large.
unfoldable pub insert_before : (head : ℕ → ℕ) (chunk : ℕ) → List ℕ → List ℕ
insert_before head chunk [] = chunk ∷ []
insert_before head chunk (c ∷ cs) =
    let rest = insert_before head chunk cs in
    if leb (size_of (head chunk)) (size_of (head c)) then chunk ∷ c ∷ cs else c ∷ rest

unfoldable pub insert_chunk : ℕ → Heap → Heap
insert_chunk chunk h = record h { free_list = insert_before h.head chunk h.free_list }

unfoldable pub remove_from : ℕ → List ℕ → Option (List ℕ)
remove_from chunk [] = none
remove_from chunk (c ∷ cs) =
    let rest = remove_from chunk cs in
    if c == chunk then some cs else elim rest [ none ↦ none | some cs' ↦ some (c ∷ cs') ]

unfoldable pub remove_chunk : ℕ → Heap → Outcome Heap
remove_chunk chunk h = elim (remove_from chunk h.free_list) [
  | none ↦ corrupts
  | some cs ↦ ok (record h { free_list = cs })
]

-- `assert`
abbrev pub assert : Bool → Heap → Outcome Heap
assert true h = ok h
assert false h = panics

-- A size rounded up to whole pages.
abbrev pub round_pages : ℕ → ℕ
round_pages size = if size % page_size == 0 then size else u32 (bit_and size 0xFFFFF000 + page_size)

-- The chunk with the highest address on the list.
unfoldable pub highest : List ℕ → (tmp : Option ℕ) → Option ℕ
highest [] tmp = tmp
highest (c ∷ cs) tmp =
    highest cs (elim tmp [ none ↦ some c | some t ↦ if ltb t c then some c else some t ])

-- A heap with more pages: the highest free chunk grows if it ended at the old end, otherwise a new
-- chunk begins there.
unfoldable pub add_top : (old_end top size : ℕ) → Heap → Heap
add_top old_end top size h = insert_chunk top (set_size_and_pinuse top size h)

unfoldable pub grow_top : (old_end : ℕ) (top : Option ℕ) → Heap → Outcome Heap
grow_top old_end none h = ok (add_top old_end old_end (sub32 h.end_addr old_end) h)
grow_top old_end (some top) h =
    if not (pinuse h top) && cinuse h top
    then panics
    else if u32 (top + chunk_size h top) == old_end
    then (remove_chunk top h >>= λ h1. ok (add_top old_end top (sub32 h1.end_addr top) h1))
    else ok (add_top old_end old_end (sub32 h.end_addr old_end) h)

-- The chunk that was found, split if the rest is large enough.
unfoldable pub split_hole : (nb hole : ℕ) → Heap → Outcome Heap
split_hole nb hole h =
    if leb (u32 (nb + min_chunk_size)) (chunk_size h hole)
    then (let new = u32 (hole + nb) in
        set_inuse hole nb (insert_chunk new (set_head new (sub32 (chunk_size h hole) nb) h)))
    else set_inuse hole (chunk_size h hole) h

unfoldable pub take_hole : (nb hole : ℕ) → Heap → Outcome (ℕ × Heap)
take_hole nb hole h = assert (leb nb (chunk_size h hole)) h >>= λ h1.
    remove_chunk hole h1 >>= λ h2. split_hole nb hole h2 >>= λ h3. ok (u32 (hole + 8), h3)

module _ (l : Layout) where
  unfoldable pub create_heap :
      (cr3 start size max perms : ℕ) (prev_foot head : ℕ → ℕ) → Vmm → Outcome Heap
  create_heap cr3 start size max perms prev_foot head vmm =
      let end = u32 (start + size) in
      if (start % page_size == 0) && (end % page_size == 0)
      then elim (pmm_alloc size vmm.pmm) [
        | none ↦ halts
        | some (phys, pmm') ↦
            elim (vmm_map_pages l phys start cr3 (size / page_size) (bit_or perms 1)
              (record vmm { pmm = pmm' })) [
                | none ↦ halts
                | some (ret, vmm') ↦ ok (
                    insert_chunk start (
                      set_size_and_pinuse start size (record {
                        start_addr = start;
                        end_addr = end;
                        max_addr = max;
                        cr3 = cr3;
                        perms = perms;
                        free_list = [];
                        prev_foot = λ q. if q == start then 0 else prev_foot q;
                        head = head;
                        vmm = vmm';
                      })))
              ]
      ]
      else panics

  -- The pages behind the old end of the heap.
  unfoldable pub map_pages : (old_end size : ℕ) → Heap → Outcome Heap
  map_pages old_end size h = elim (pmm_alloc size h.vmm.pmm) [
    | none ↦ halts
    | some (phys, pmm') ↦
        elim (vmm_map l phys old_end (size / page_size) (bit_or h.perms 1)
          (record (h.vmm) { pmm = pmm' })) [
            | none ↦ halts
            | some (ret, vmm') ↦ ok (record h { vmm = vmm' })
          ]
  ]

  unfoldable pub expand : (new_size : ℕ) → Heap → Outcome Heap
  expand new_size h =
      let end = u32 (h.start_addr + round_pages new_size) in
      assert (ltb (sub32 h.end_addr h.start_addr) new_size) h >>= λ h1.
      assert (leb end h1.max_addr) h1 >>= λ h2.
      map_pages h2.end_addr (sub32 end h2.end_addr) (record h2 { end_addr = end })

  unfoldable pub grow : (nb : ℕ) → Heap → Outcome Heap
  grow nb h = expand (u32 (sub32 h.end_addr h.start_addr + nb)) h >>= λ h1.
      grow_top h.end_addr (highest h1.free_list none) h1

  -- `alloc` calls itself once the heap has grown.
  unfoldable pub alloc_rounds : (fuel size : ℕ) → Heap → Outcome (ℕ × Heap)
  alloc_rounds zero size h = no_fuel
  alloc_rounds (suc fuel) size h = elim (find_smallest h.head (request2size size) h.free_list) [
    | some hole ↦ take_hole (request2size size) hole h
    | none ↦ grow (request2size size) h >>= alloc_rounds fuel size
  ]

  unfoldable pub alloc : (size : ℕ) → Heap → Outcome (ℕ × Heap)
  alloc size h = alloc_rounds 2 size h
