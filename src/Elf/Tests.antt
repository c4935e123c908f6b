-- ===== src/Elf/Tests.antt =====
-- The theorem on the nearest symbol at an image with two functions.
use just_kernel.Base.{ℕ, ◌<◌, ◌≡◌, refl, ◌==◌, if◌then◌else◌, arith}
use just_kernel.Elf.{Elf, symbol_at, find_nearest_symbol_by_address}
use just_kernel.Elf.Nearest.{IsClosest, find_nearest_symbol_by_address-IsClosest}

-- The symbols stand at 0x100: functions at 0x40 and 0x80.
abbrev memory : ℕ → ℕ
memory a =
    if a == 0x104
    then 0x40
    else if a == 0x10c
    then 2
    else if a == 0x114
    then 0x80
    else if a == 0x11c
    then 2
    else 0

bytes : (x : ℕ) → memory x < 256
bytes x = ground arith

abbrev image : Elf
image = record {
  header = 0x200;
  sectab_head = 0x300;
  sectab_size = 1;
  progtab_head = 0;
  progtab_size = 0;
  symtab_head = 0x100;
  symtab_size = 2;
  strtab_head = 0;
  strtab_size = 0;
  hstrtab_head = 0;
  start = 0x40;
  end = 0xff;
}

find_nearest_symbol_by_address-IsClosest_example :
    (k : ℕ) × (find_nearest_symbol_by_address memory image 2 0x79 ≡ symbol_at memory image k)
    × IsClosest memory image 2 0x79 k
find_nearest_symbol_by_address-IsClosest_example =
    find_nearest_symbol_by_address-IsClosest memory image 2 0x79 0 bytes refl (omega arith)
      (omega arith) (omega arith) (omega arith) refl (omega arith)
