-- ===== src/Ata.antt =====
-- The disk driver of src/hal/ata.rs. A drive is what the reads of its status and data ports give,
-- each numbered from 0; the driver's effects are the reads it has made and the writes to ports, in
-- order. The waiting loops take fuel, and `none` is lack of it.
pub mod Sector
mod Tests
use planck_os.Prelude.{
  bind, ℕ, zero, suc, ◌+◌, ◌*◌, ◌/◌, ◌%◌, Bool, true, false, not, ◌&&◌, ◌||◌, Option, none, some,
  ◌==◌, ltb, if◌then◌else◌, update, List, [], ◌∷◌, ◌++◌,
}

pub record AtaChannel : Type 0 where
  pub base : ℕ
  pub drive_select : ℕ
  pub sector_count : ℕ

pub record Drive : Type 0 where
  pub status : ℕ → ℕ
  pub words : ℕ → ℕ

pub record Io : Type 0 where
  pub status_reads : ℕ
  pub data_reads : ℕ
  pub other_reads : ℕ
  pub out : List (ℕ × ℕ)

abbrev pub new : ℕ → Bool → AtaChannel
new base master = record {
  base = base;
  drive_select = if master then 0xA0 else 0xB0;
  sector_count = 0;
}

-- `st & bit != 0`, for the bit of the value `2 ^ k`.
abbrev pub bit : ℕ → ℕ → Bool
bit value st = st / value % 2 == 1

abbrev pub stat_bsy : ℕ → Bool
stat_bsy st = bit 0x80 st

abbrev pub stat_drdy : ℕ → Bool
stat_drdy st = bit 0x40 st

abbrev pub stat_drq : ℕ → Bool
stat_drq st = bit 0x08 st

abbrev pub stat_err : ℕ → Bool
stat_err st = bit 0x01 st

abbrev pub outb : ℕ → ℕ → Io → Io
outb port val io = record io { out = io.out ++ ((port, val) ∷ []) }

abbrev pub skip_status : Io → Io
skip_status io = record io { status_reads = io.status_reads + 1 }

abbrev pub delay : Io → Io
delay io = record io { other_reads = io.other_reads + 4 }

-- `loop { let st = inb(status); if ready(st) { return st; } }`
pub wait_until : (ℕ → Bool) → ℕ → Drive → Io → Option (ℕ × Io)
wait_until ready zero d io = none
wait_until ready (suc fuel) d io =
    let st = d.status io.status_reads in
    let rest = wait_until ready fuel d (skip_status io) in
    if ready st then some (st, skip_status io) else rest

abbrev pub wait_bsy : ℕ → Drive → Io → Option (ℕ × Io)
wait_bsy = wait_until (λ st. not (stat_bsy st))

abbrev pub wait_for_drq : ℕ → Drive → Io → Option (ℕ × Io)
wait_for_drq = wait_until (λ st. not (stat_bsy st) && (stat_drq st || stat_err st))

abbrev pub wait_drq : ℕ → Drive → Io → Option (ℕ × Io)
wait_drq = wait_until (λ st. stat_drq st || stat_err st)

pub lba_write : AtaChannel → ℕ → ℕ → Io → Io
lba_write ch lba count io =
    let io1 = outb (ch.base + 2) count io in
    let io2 = outb (ch.base + 3) (lba % 256) io1 in
    let io3 = outb (ch.base + 4) (lba / 256 % 256) io2 in
    let io4 = outb (ch.base + 5) (lba / 65536 % 256) io3 in
    outb (ch.base + 6) (ch.drive_select + 0x40 + lba / 16777216 % 16) io4

-- The reset of a drive that is not ready.
abbrev pub reset : AtaChannel → Io → Io
reset ch io = delay (outb (ch.base + 0x206) 0x00 (delay (outb (ch.base + 0x206) 0x04 io)))

-- Both transfers begin by waiting, and by a reset if the drive is not ready.
pub get_ready : ℕ → Drive → AtaChannel → Io → Option Io
get_ready fuel d ch io =
    bind (wait_bsy fuel d io) (λ r.
      if stat_drdy r.0 then some r.1 else bind (wait_bsy fuel d (reset ch r.1)) (λ q. some q.1))

-- `for chunk in buf.chunks_mut(2)`, from the chunk `i` on.
pub read_words : ℕ → ℕ → Drive → Io → (ℕ → ℕ) → (ℕ → ℕ) × Io
read_words zero i d io buf = (buf, io)
read_words (suc left) i d io buf =
    let w = d.words io.data_reads in
    read_words left (i + 1) d (record io { data_reads = io.data_reads + 1 })
      (update (update buf (2 * i) (w % 256)) (2 * i + 1) (w / 256 % 256))

-- `for chunk in buf.chunks(2)`, from the chunk `i` on.
pub write_words : ℕ → ℕ → AtaChannel → (ℕ → ℕ) → Io → Io
write_words zero i ch buf io = io
write_words (suc left) i ch buf io =
    write_words left (i + 1) ch buf (outb ch.base (buf (2 * i) + 256 * buf (2 * i + 1)) io)

abbrev pub read_data : Drive → Io → (ℕ → ℕ) → Bool × (ℕ → ℕ) × Io
read_data d io buf = let r = read_words 256 0 d io buf in (true, r.0, skip_status r.1)

-- The result, the buffer, and the effects.
pub read_sector : ℕ → Drive → AtaChannel → ℕ → (ℕ → ℕ) → Io → Option (Bool × (ℕ → ℕ) × Io)
read_sector fuel d ch lba buf io = bind (get_ready fuel d ch io) (λ ready.
    bind (wait_for_drq fuel d (outb (ch.base + 7) 0x20 (lba_write ch lba 1 ready))) (λ r. some (
      if stat_err r.0
      then (false, buf, record (r.1) { other_reads = r.1.other_reads + 1 })
      else read_data d r.1 buf)))

-- The end of a write, whose error is cleared.
abbrev pub finish_write : ℕ → Drive → Io → Option (Bool × Io)
finish_write fuel d io = bind (wait_bsy fuel d io) (λ r.
    some (true, if stat_err r.0 then record (r.1) { other_reads = r.1.other_reads + 1 } else r.1))

-- What follows the command of a write.
abbrev pub write_data : ℕ → Drive → AtaChannel → (ℕ → ℕ) → Io → Option (Bool × Io)
write_data fuel d ch buf io = bind (wait_bsy fuel d io) (λ r.
    if stat_err r.0
    then some (false, r.1)
    else bind (wait_drq fuel d r.1) (λ q.
      if stat_err q.0
      then some (false, q.1)
      else finish_write fuel d (write_words 256 0 ch buf q.1)))

pub write_sector : ℕ → Drive → AtaChannel → ℕ → (ℕ → ℕ) → Io → Option (Bool × Io)
write_sector fuel d ch lba buf io =
    bind (get_ready fuel d ch io) (λ ready.
      write_data fuel d ch buf (delay (outb (ch.base + 7) 0x30 (lba_write ch lba 1 ready))))

-- The number of sectors, from the words 60 and 61 of the identification.
abbrev pub identified : AtaChannel → Drive → Io → AtaChannel
identified ch d io = record ch {
  sector_count = d.words (io.data_reads + 60) + 65536 * d.words (io.data_reads + 61);
}

abbrev pub identify : AtaChannel → Io → Io
identify ch io =
    let io1 = outb (ch.base + 2) 0 io in
    let io2 = outb (ch.base + 3) 0 io1 in
    let io3 = outb (ch.base + 4) 0 io2 in
    let io4 = outb (ch.base + 5) 0 io3 in delay (outb (ch.base + 7) 0xEC io4)

pub probe : ℕ → Drive → AtaChannel → Io → Option (Bool × AtaChannel × Io)
probe fuel d ch io =
    let io1 = delay (outb (ch.base + 6) (ch.drive_select + 0x40) io) in
    if d.status io1.status_reads == 0xFF
    then some (false, ch, skip_status io1)
    else bind (wait_bsy fuel d (identify ch (skip_status io1))) (λ r. some (
        if stat_err r.0 || not (stat_drq r.0) then (false, ch, r.1) else (
          true,
          identified ch d r.1,
          skip_status (record (r.1) { data_reads = r.1.data_reads + 256 }),
        )))

abbrev pub is_present : AtaChannel → Bool
is_present ch = ltb 0 ch.sector_count
