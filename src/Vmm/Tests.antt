-- ===== src/Vmm/Tests.antt =====
-- The theorems on the virtual memory manager at a small address space.
use just_kernel.Base.{◌+◌, ◌*◌, ◌≡◌, refl, true, ◌&&◌, some, ◌==◌, if◌then◌else◌, arith}
use just_kernel.Pmm.{pmm_get_bit}
use just_kernel.Samples.{small, small-WellFormed}
use just_kernel.Vmm.{Layout, Vmm, virt_to_phys, vmm_map_pages}
use just_kernel.Vmm.Windows.{IsLayout, Same}
use just_kernel.Vmm.Walk.{translate, or_no_page, Closed, virt_to_phys-translate}
use just_kernel.Vmm.Space.{IsSpace}
use just_kernel.Vmm.Enter.{Keeps}
use just_kernel.Vmm.Map.{Mapped}
use just_kernel.Vmm.MapPages.{IsRequest, vmm_map_pages-Mapped}
use just_kernel.Vmm.MapStuck.{vmm_map_pages-stuck}
use just_kernel.Vmm.Tables.{count_where, missing}

-- The static tables in frames 1 to 4.
abbrev layout : Layout
layout = record { base_dir = 0x1000; base_table = 0x2000; dir = 0x3000; table = 0x4000 }

layout-IsLayout : IsLayout layout
layout-IsLayout = omega arith

-- The directory in frame 5 has one table, in frame 7, which maps the page at 4 MiB to frame 9.
abbrev space : Vmm
space = record {
  frames = λ f i.
      if f == 2
      then i * 4096 + 7
      else if (f == 5) && (i == 1)
      then 0x7003
      else if (f == 7) && (i == 0)
      then 0x9003
      else 0;
  paging = true;
  cr3 = 0x5000;
  base_kernel_cr3 = 0x1000;
  pmm = small;
}

space-IsSpace : IsSpace layout 0x5000 space
unfolding pmm_get_bit
space-IsSpace = record {
  paging = refl;
  aligned = refl;
  dir_apart = omega arith;
  pmm = small-WellFormed;
  dir_taken = refl;
  base_taken = refl;
  taken = λ t h p. ground arith;
  tables = λ t h h' p. (ground arith, ground arith);
  distinct = λ t u h h' h'' ne p q. ground arith;
}

none_missing : missing space.frames 0x5000 0x401000 2 ≡ 0
unfolding missing count_where
none_missing = refl

request : IsRequest layout layout-IsLayout 0x5000 0x8000 0x401000 2 3 space
unfolding translate
request = record {
  phys_page = refl;
  virt_page = refl;
  above = λ h. omega arith;
  virt_fits = omega arith;
  phys_fits = omega arith;
  flags = omega arith;
  present = refl;
  unmapped = λ v from to. ground arith;
  enough = omega (arith, none_missing);
}

virt_to_phys-translate_example :
    ((virt_to_phys layout 0x400123 0x5000 space).0
      ≡ or_no_page (translate space.frames 0x5000 0x400123))
    × Closed layout (virt_to_phys layout 0x400123 0x5000 space).1
    × Same layout space (virt_to_phys layout 0x400123 0x5000 space).1
virt_to_phys-translate_example =
    virt_to_phys-translate layout layout-IsLayout 0x400123 0x5000 space refl refl refl refl

vmm_map_pages-Mapped_example :
    (t : Vmm) × (vmm_map_pages layout 0x8000 0x401000 0x5000 2 3 space ≡ some (0, t))
    × Mapped layout layout-IsLayout 0x5000 0x8000 0x401000 2 space t
    × IsSpace layout 0x5000 t
    × Closed layout t
vmm_map_pages-Mapped_example =
    vmm_map_pages-Mapped layout layout-IsLayout 0x5000 2 0x8000 0x401000 3 space space-IsSpace
      request (omega arith) (omega arith)

mapped_page : translate space.frames 0x5000 0x400000 ≡ some 0x9000
unfolding translate
mapped_page = refl

vmm_map_pages-stuck_example :
    (t : Vmm) × (vmm_map_pages layout 0x8000 0x400000 0x5000 2 3 space ≡ some (1, t))
    × Keeps layout layout-IsLayout 0x5000 space t
vmm_map_pages-stuck_example =
    vmm_map_pages-stuck layout layout-IsLayout 0x5000 2 0x8000 0x400000 3 space 0x9000 space-IsSpace
      (omega arith) (omega arith) refl (omega arith) (omega arith) refl mapped_page
