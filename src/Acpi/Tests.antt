-- ===== src/Acpi/Tests.antt =====
-- The theorems of src/hal/acpi.rs at a small MADT.
use planck_os.Prelude.{◌≤◌, ◌≡◌, false, some, ◌==◌, ltb, if◌then◌else◌, [], ◌++◌, take, arith}
use planck_os.Acpi.{Acpi, Table, parse_madt}
use planck_os.Acpi.Cpus.{cpus, enabled, entries, parse_madt-cpus}

abbrev start : Acpi
start = record {
  lapic_base = 0xFEE00000;
  io_apic_addr = 0;
  io_apic_id = 0;
  cpu_count = 0;
  cpu_apic_ids = λ j. 0;
  pcat_compat = false;
  pm1a_cnt_blk = 0;
  slp_typ_a = 0;
  slp_typ_b = 0;
  acpi_ready = false;
}

-- One local APIC with the identifier 5.
abbrev one_cpu : Table
one_cpu = record {
  bytes = λ j. if j == 45 then 8 else if j == 47 then 5 else if j == 48 then 1 else 0;
  len = 52;
}

parse_madt-cpus_example :
    (h : Acpi) × (parse_madt one_cpu start ≡ some h)
    × (cpus h
        ≡ take 8 (cpus start ++ enabled one_cpu (if ltb 52 48 then [] else entries 52 one_cpu 44)))
    × (h.cpu_count ≤ 8)
parse_madt-cpus_example = parse_madt-cpus one_cpu start (omega arith)
