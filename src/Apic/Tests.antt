-- ===== src/Apic/Tests.antt =====
-- The theorems of src/hal/apic.rs at an I/O APIC with 24 pins.
use planck_os.Prelude.{◌+◌, ◌*◌, ◌^◌, ◌≡◌, refl, false, ◌==◌, if◌then◌else◌, [], arith}
use planck_os.Prelude.{◌^◌}
use planck_os.Apic.{Apic, init, lapic_id, calibrate_hz, calibrate_rounds}
use planck_os.Apic.Routes.{init-routes}

abbrev fresh : Apic
fresh = record {
  ready = false;
  bsp_apic_id = 0;
  ioapic_base = 0xFEC00000;
  io = λ r. if r == 1 then 0x170011 else 0;
  ticks_per_ms = 0;
  msr = 0xFEE00900;
  outs = [];
  reads = 0;
  writes = [];
}

-- A clock that ticks in proportion is brought to 1000 ticks in a second.
calibrated : (calibrate_hz (λ k. if k == 0 then 400 else 100) fresh).ticks_per_ms ≡ 0x04000000
unfolding calibrate_hz calibrate_rounds
calibrated = refl

init-routes_example :
    ((init 0x03000000 0 0 fresh).io (0x10 + 1 * 2) ≡ (if 1 == 1 then 0x21 else 2 ^ 16))
    × ((init 0x03000000 0 0 fresh).io (0x10 + 1 * 2 + 1)
        ≡ (if 1 == 1 then lapic_id 0x03000000 * 2 ^ 24 else 0))
init-routes_example = init-routes 0x03000000 0 0 1 fresh (omega arith)
