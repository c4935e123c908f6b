-- ===== src/Vmm/Offsets.antt =====
-- The parts of a virtual address: `vmm_virt_to_offs` and `vmm_offs_to_virt` in arithmetic, and
-- as inverses of each other.
use just_kernel.Base.{
  ℕ, ◌+◌, ◌*◌, ◌/◌, ◌%◌, ◌^◌, ◌<◌, ◌≡◌, sym, ap, ◌∙◌, arith, u32, bit_and, bit_or,
}
use just_kernel.Base.Bits.{shl, ones, bit_and-ones, bit_and-shl, bit_or-shl, zero-bit_or}
use just_kernel.Vmm.{TableOff, vmm_virt_to_offs, vmm_offs_to_virt}

-- A mask of `k` ones, for a value split at bit `k`.
and_low : (k a q r : ℕ) → shl k q + r ≡ a → r < shl k 1 → bit_and a (ones k) ≡ r
and_low k a q r e h = ap (λ (t : ℕ). bit_and t (ones k)) (sym e) ∙ bit_and-ones k q r h

and_high :
    (k m a q r : ℕ) → shl k q + r ≡ a → r < shl k 1 → bit_and a (shl k m) ≡ shl k (bit_and q m)
and_high k m a q r e h = ap (λ (t : ℕ). bit_and t (shl k m)) (sym e) ∙ bit_and-shl k q r m h

and_3ff : (a : ℕ) → bit_and a 0x3ff ≡ a % 1024
and_3ff a = and_low 10 a (a / 1024) (a % 1024) (omega arith) (omega arith)

and_fff : (a : ℕ) → bit_and a 0xfff ≡ a % 4096
and_fff a = and_low 12 a (a / 4096) (a % 4096) (omega arith) (omega arith)

and_fffff : (a : ℕ) → a < 1048576 → bit_and a 0xfffff ≡ a
and_fffff a h = and_low 20 a 0 a (omega arith) (omega arith)

-- `addr & VMM_4K_PERM_MASK` is the start of the page.
pub bit_and-page_mask : (a : ℕ) → a < 4294967296 → bit_and a 0xfffff000 ≡ a / 4096 * 4096
bit_and-page_mask a h =
    and_high 12 0xfffff a (a / 4096) (a % 4096) (omega arith) (omega arith)
    ∙ omega (arith, and_fffff (a / 4096) (omega arith))

-- A page's address with flags in its low 12 bits.
pub bit_or-flags : (a flags : ℕ) → a % 4096 ≡ 0 → flags < 4096 → bit_or a flags ≡ a + flags
bit_or-flags a flags aligned small =
    ap (λ (t : ℕ). bit_or t flags) e ∙ bit_or-shl 12 (a / 4096) flags (omega arith) ∙ omega arith
  where
    e : a ≡ shl 12 (a / 4096)
    e = omega arith

-- The directory index, the table index and the page offset, by division.
abbrev pub offs_of : ℕ → TableOff
offs_of v = record { tid = v / 4194304 % 1024; pid = v / 4096 % 1024; off = v % 4096 }

pub vmm_virt_to_offs-eq : (v : ℕ) → vmm_virt_to_offs v ≡ offs_of v
unfolding vmm_virt_to_offs
vmm_virt_to_offs-eq v = ground (arith, and_3ff (v / 2 ^ 22), and_3ff (v / 2 ^ 12), and_fff v)

vmm_offs_to_virt-eq :
    (o : TableOff)
    → o.tid < 1024
    → o.pid < 1024
    → o.off < 4096
    → vmm_offs_to_virt o ≡ o.tid * 4194304 + o.pid * 4096 + o.off
unfolding vmm_offs_to_virt
vmm_offs_to_virt-eq o ht hp ho =
    rw
      (
        high,
        middle,
        low,
        zero-bit_or (shl 22 o.tid),
        bit_or-shl 22 o.tid (shl 12 o.pid) (omega arith),
      )
      (ap (λ (t : ℕ). bit_or t o.off) e
        ∙ bit_or-shl 12 (o.tid * 1024 + o.pid) o.off (omega arith)
        ∙ omega arith)
  where
    high : bit_and (u32 (o.tid * 2 ^ 22)) 0xffc00000 ≡ shl 22 o.tid
    high =
        and_high 22 0x3ff (u32 (o.tid * 2 ^ 22)) o.tid 0 (omega arith) (omega arith)
        ∙ omega (arith, and_3ff o.tid)

    middle : bit_and (u32 (o.pid * 2 ^ 12)) 0x003ff000 ≡ shl 12 o.pid
    middle =
        and_high 12 0x3ff (u32 (o.pid * 2 ^ 12)) o.pid 0 (omega arith) (omega arith)
        ∙ omega (arith, and_3ff o.pid)

    low : bit_and o.off 0x00000fff ≡ o.off
    low = omega (arith, and_fff o.off)

    e : shl 22 o.tid + shl 12 o.pid ≡ shl 12 (o.tid * 1024 + o.pid)
    e = omega arith

-- Taking a virtual address apart and putting it together gives the address back.
pub vmm_offs_to_virt-vmm_virt_to_offs :
    (v : ℕ) → v < 4294967296 → vmm_offs_to_virt (vmm_virt_to_offs v) ≡ v
vmm_offs_to_virt-vmm_virt_to_offs v h =
    rw (vmm_virt_to_offs-eq v)
      (vmm_offs_to_virt-eq (offs_of v) (omega arith) (omega arith) (omega arith) ∙ omega arith)

-- Parts in range are found again in the address that is put together from them.
pub vmm_virt_to_offs-vmm_offs_to_virt :
    (o : TableOff)
    → o.tid < 1024
    → o.pid < 1024
    → o.off < 4096
    → vmm_virt_to_offs (vmm_offs_to_virt o) ≡ o
vmm_virt_to_offs-vmm_offs_to_virt o ht hp ho =
    rw (vmm_offs_to_virt-eq o ht hp ho, vmm_virt_to_offs-eq) (ground arith)
