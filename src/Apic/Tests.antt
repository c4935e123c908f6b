-- ===== src/Apic/Tests.antt =====
-- Two controllers with 24 numbers each: the theorems at their registers.
use just_kernel.Base.{
  ℕ, ◌+◌, ◌<◌, ◌≤◌, ◌≡◌, ◌≢◌, refl, true, none, some, List, [], ◌∷◌, ◌==◌, if◌then◌else◌, arith,
}
use just_kernel.Apic.{
  IoApic, Registers, apic_find_valid_ioapic, find_valid, apic_get_gsi_max,
  apic_read_redirection_table, apic_write_redirection_table, mask_gsi, redirect_gsi,
}
use just_kernel.Klibc.{Memory}
use just_kernel.Apic.Madt.{Madt, parse_loop, parse_madt}
use just_kernel.Apic.Parse.{Entry, Laid, IsParsed, parse_madt-IsParsed}
use just_kernel.Apic.Configure.{
  pic_disable, apic_configure_ap, mask_loop, redirect_isos, configure_ioapic, configure_ioapics,
  map_rest, apic_configure,
}
use just_kernel.Apic.Legacy.{first_at, map_rest-vectors}
use just_kernel.Apic.Redirect.{apic_read-write}

abbrev first_ioapic : IoApic
first_ioapic = record { ioapic_addr = 0xFEC00000; gsi_base = 0 }

abbrev second_ioapic : IoApic
second_ioapic = record { ioapic_addr = 0xFEC10000; gsi_base = 24 }

-- Register 1 says that the last entry is number 23.
abbrev registers : Registers
registers a r = if r == 1 then 0x170011 else 0x10000

find_run :
    apic_find_valid_ioapic 30 registers (first_ioapic ∷ second_ioapic ∷ []) ≡ some second_ioapic
unfolding apic_find_valid_ioapic find_valid apic_get_gsi_max
find_run = refl

apic_read-write_example :
    (apic_read_redirection_table
        (some second_ioapic)
        30
        (apic_write_redirection_table (some second_ioapic) 30 0x100000000002E registers).1
      ≡ 0x100000000002E)
    × ((other : ℕ)
        → other ≢ 30
        → 24 ≤ other
        → other < 24 + 1048576
        → other < 4294967296
        → apic_read_redirection_table
            (some second_ioapic)
            other
            (apic_write_redirection_table (some second_ioapic) 30 0x100000000002E registers).1
          ≡ apic_read_redirection_table (some second_ioapic) other registers)
apic_read-write_example =
    apic_read-write second_ioapic 30 0x100000000002E registers (omega arith) (omega arith)
      (omega arith) (omega arith)

-- A table at 0x1000 with a processor, a controller and an override of number 2.
abbrev table : Memory
table x =
    if x == 0x1004
    then 72
    else if x == 0x102D
    then 6
    else if x == 0x1032
    then 1
    else if x == 0x1033
    then 12
    else if x == 0x1038
    then 0xC0
    else if x == 0x1039
    then 0xFE
    else if x == 0x103E
    then 2
    else if x == 0x103F
    then 10
    else if x == 0x1042
    then 2
    else 0

abbrev entries : List Entry
entries =
    record { type = 0; size = 6 }
    ∷ record { type = 1; size = 12 }
    ∷ record { type = 2; size = 10 }
    ∷ []

entries-Laid : Laid table 0x1000 0 entries 28
unfolding Laid
entries-Laid = (
  refl,
  refl,
  omega arith,
  omega arith,
  omega arith,
  (
    refl,
    refl,
    omega arith,
    omega arith,
    omega arith,
    (refl, refl, omega arith, omega arith, omega arith, refl),
  ),
)

abbrev no_lists : Madt
no_lists = record {
  lapic_base = 0;
  madt_cpu = [];
  madt_ioapic = [];
  madt_iso = [];
  madt_nmi = [];
  mapped = [];
}

parse_madt-IsParsed_example :
    (s' : Madt) × (parse_madt table 0x1000 40 no_lists ≡ some (true, s'))
    × IsParsed table 0x1000 entries s'
parse_madt-IsParsed_example =
    parse_madt-IsParsed table 0x1000 40 28 entries no_lists (omega arith) refl entries-Laid
      (omega arith) (omega arith)

-- The low half of the entry of number 2 after a set-up: vector 32, since the override is of interrupt 0.
abbrev low_entry : ℕ → ℕ
low_entry fuel =
    elim (apic_configure table fuel 0x1000
      (record { msr = λ r. 0; lapic = λ r. 0; ports = []; regs = registers; madt = no_lists })) [
        | none ↦ 0
        | some (code, s) ↦ s.regs 0xFEC00000 20
      ]

configure_run : low_entry 9 ≡ 32
unfolding apic_configure parse_madt parse_loop pic_disable apic_configure_ap configure_ioapics
    configure_ioapic redirect_isos mask_loop map_rest redirect_gsi mask_gsi apic_find_valid_ioapic
    find_valid apic_get_gsi_max apic_read_redirection_table apic_write_redirection_table
configure_run = refl

first_max : apic_get_gsi_max (first_at 0xFEC00000) registers ≡ 23
unfolding apic_get_gsi_max
first_max = refl

map_rest-vectors_example :
    apic_read_redirection_table
      (some (first_at 0xFEC00000))
      5
      (map_rest 16 0 (first_at 0xFEC00000 ∷ []) (λ i. i == 2) registers)
    ≡ 37
map_rest-vectors_example =
    map_rest-vectors 0xFEC00000 5 (λ i. i == 2) registers (omega (arith, first_max))
      (omega (arith, first_max)) (omega arith)
