-- ===== src/Acpi/Tests.antt =====
-- The theorems on the ACPI tables at a memory with a root table of one entry.
use just_kernel.Base.{ℕ, ◌/◌, ◌%◌, ◌≡◌, ◌≢◌, refl, ◌==◌, if◌then◌else◌, arith}
use just_kernel.Acpi.{
  checksum_loop, checksum_calc, checked, get_root_sdt_header, search_sdt_header, rsdt_entry,
  table_length,
}
use just_kernel.Acpi.Search.{
  sum_bytes, checksum_calc-sum_bytes, IsResult, search_sdt_header-IsResult,
}

-- The root pointer at 0x100, the root table at 0x200, and a table `APIC` at 0x300.
abbrev memory : ℕ → ℕ
memory a =
    if a == 0x111
    then 2
    else if a == 0x204
    then 40
    else if a == 0x209
    then 213
    else if a == 0x225
    then 3
    else if a == 0x300
    then 65
    else if a == 0x301
    then 80
    else if a == 0x302
    then 73
    else if a == 0x303
    then 67
    else if a == 0x304
    then 8
    else if a == 0x305
    then 0
    else if a == 0x309
    then 219
    else 0

checksum_calc-sum_bytes_example : checksum_calc memory 0x200 40 ≡ sum_bytes memory 0x200 40 % 256
checksum_calc-sum_bytes_example = checksum_calc-sum_bytes memory 0x200 40 (omega arith)

root : get_root_sdt_header memory 0x100 ≡ 0x200
unfolding get_root_sdt_header checked checksum_calc checksum_loop
root = refl

root_present : get_root_sdt_header memory 0x100 ≢ 0
root_present = omega (arith, root)

search_sdt_header-IsResult_example :
    IsResult memory
      (rsdt_entry memory (get_root_sdt_header memory 0x100))
      (λ i. rsdt_entry memory (get_root_sdt_header memory 0x100) i == 0)
      0x43495041
      0
      (table_length memory (get_root_sdt_header memory 0x100) / 4)
      (search_sdt_header memory 0x100 0x43495041)
search_sdt_header-IsResult_example =
    search_sdt_header-IsResult memory 0x100 0x43495041 root_present refl
