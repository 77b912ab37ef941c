-- ===== src/Smp/Segments.antt =====
-- The descriptor of the task state segment in src/hal/smp.rs.
use planck_os.Prelude.{ℕ, ◌+◌, ◌*◌, ◌/◌, ◌%◌, ◌^◌, ◌<◌, ◌≡◌, arith}
use planck_os.Prelude.{◌^◌}
use planck_os.Smp.{tss_desc_lo}

-- What the processor reads from the two words of a system descriptor.
abbrev pub descriptor_base : ℕ → ℕ → ℕ
descriptor_base lo hi = lo / 2 ^ 16 % 2 ^ 24 + lo / 2 ^ 56 % 2 ^ 8 * 2 ^ 24 + hi * 2 ^ 32

abbrev pub descriptor_limit : ℕ → ℕ
descriptor_limit lo = lo % 2 ^ 16 + lo / 2 ^ 48 % 2 ^ 4 * 2 ^ 16

abbrev pub descriptor_type : ℕ → ℕ
descriptor_type lo = lo / 2 ^ 40 % 2 ^ 8

-- For every base, and every limit of 20 bits, the low word by `tss_desc_lo` with the base's upper
-- half as the high word give the processor this base, this limit and the type 0x89, a present and
-- free 64-bit task state segment, without granularity; and the low word is below 2^64.
pub tss_desc_lo-fields :
    (base limit : ℕ)
    → limit < 2 ^ 20
    → (descriptor_base (tss_desc_lo base limit) (base / 2 ^ 32) ≡ base)
      × (descriptor_limit (tss_desc_lo base limit) ≡ limit)
      × (descriptor_type (tss_desc_lo base limit) ≡ 0x89)
      × (tss_desc_lo base limit / 2 ^ 52 % 2 ^ 4 ≡ 0)
      × (tss_desc_lo base limit < 2 ^ 64)
unfolding tss_desc_lo
tss_desc_lo-fields base limit h = (omega arith, omega arith, omega arith, omega arith, omega arith)
