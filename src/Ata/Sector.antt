-- ===== src/Ata/Sector.antt =====
-- The transfer of a sector in src/hal/ata.rs.
use planck_os.Prelude.{
  bind, ℕ, zero, suc, ◌+◌, ◌-◌, ◌*◌, ◌/◌, ◌%◌, ◌^◌, ◌≤◌, ◌<◌, ◌≡◌, refl, sym, ap, ◌∙◌, Bool, true,
  false, not, ◌&&◌, ◌||◌, Option, some, ◌==◌, if◌then◌else◌, update, List, [], ◌∷◌, ◌++◌, arith,
  inl, inr, Bool-cases, update_self, update_ne, ==→eq, ==→ne,
}
use mathlib.Core.List.{append_assoc}
use planck_os.Ata.{
  AtaChannel, Drive, Io, stat_bsy, stat_drq, stat_err, stat_drdy, outb, skip_status, wait_until,
  lba_write, reset, get_ready, read_words, read_sector,
}

-- A status with which every wait ends.
abbrev pub answers : ℕ → Bool
answers st = not (stat_bsy st) && (stat_drq st || stat_err st)

-- From any read of the status on, one of the next `n` answers.
abbrev pub Answers : ℕ → Drive → Type 0
Answers n d = (k : ℕ) → (m : ℕ) × (m < n) × (answers (d.status (k + m)) ≡ true)

-- What a wait ends with.
pub record Waited (ready : ℕ → Bool) (d : Drive) (o : Option (ℕ × Io)) (io : Io) : Type 0 where
  pub st : ℕ
  pub next : Io
  pub ends : o ≡ some (st, next)
  pub last : ℕ
  pub is_last : st ≡ d.status last
  pub read_it : next.status_reads ≡ last + 1
  pub is_ready : ready st ≡ true
  pub same_data : next.data_reads ≡ io.data_reads
  pub same_out : next.out ≡ io.out

-- A wait ends within as many rounds as it takes to the next answer.
wait_until-Waited :
    (ready : ℕ → Bool) (fuel m : ℕ) (d : Drive) (io : Io)
    → m < fuel
    → ready (d.status (io.status_reads + m)) ≡ true
    → Waited ready d (wait_until ready fuel d io) io
unfolding wait_until
wait_until-Waited ready zero m d io l h = absurd (omega arith)
wait_until-Waited ready (suc fuel) zero d io l h =
    let here : io.status_reads + 0 ≡ io.status_reads = omega arith in
    let now : ready (d.status io.status_reads) ≡ true =
      ap (λ k. ready (d.status k)) (sym here) ∙ h in
    record {
      st = d.status io.status_reads;
      next = skip_status io;
      ends = rw now refl;
      last = io.status_reads;
      is_last = refl;
      read_it = refl;
      is_ready = now;
      same_data = refl;
      same_out = refl;
    }
wait_until-Waited ready (suc fuel) (suc m) d io l h =
    let moved : io.status_reads + 1 + m ≡ io.status_reads + suc m = omega arith in
    let w =
      wait_until-Waited ready fuel m d (skip_status io) (omega arith)
        (ap (λ k. ready (d.status k)) moved ∙ h) in
    elim (Bool-cases (ready (d.status io.status_reads))) [
      | inl e ↦ record {
        st = d.status io.status_reads;
        next = skip_status io;
        ends = rw e refl;
        last = io.status_reads;
        is_last = refl;
        read_it = refl;
        is_ready = e;
        same_data = refl;
        same_out = refl;
      }
      | inr e ↦ record {
        st = w.st;
        next = w.next;
        ends = rw e w.ends;
        last = w.last;
        is_last = w.is_last;
        read_it = w.read_it;
        is_ready = w.is_ready;
        same_data = w.same_data;
        same_out = w.same_out;
      }
    ]

-- Both waits of a read end at an answer.
answered :
    (ready : ℕ → Bool) (fuel : ℕ) (d : Drive) (io : Io)
    → Answers fuel d
    → ((st : ℕ) → answers st ≡ true → ready st ≡ true)
    → Waited ready d (wait_until ready fuel d io) io
answered ready fuel d io a w =
    let (m, l, h) = a io.status_reads in
    wait_until-Waited ready fuel m d io l (w (d.status (io.status_reads + m)) h)

not_busy : (a b : Bool) → (a && b) ≡ true → a ≡ true
not_busy true b h = refl
not_busy false b h = h

bind-some : {A B : Type 0} {o : Option A} {a : A} (f : A → Option B) → o ≡ some a → bind o f ≡ f a
bind-some f e = ap (λ x. bind x f) e

get_ready-ends :
    (fuel : ℕ) (d : Drive) (ch : AtaChannel) (io : Io)
    → Answers fuel d
    → (next : Io) × (get_ready fuel d ch io ≡ some next) × (next.data_reads ≡ io.data_reads)
unfolding get_ready
get_ready-ends fuel d ch io a =
    let w = answered (λ st. not (stat_bsy st)) fuel d io a (λ st. not_busy _ _) in
    let v = answered (λ st. not (stat_bsy st)) fuel d (reset ch w.next) a (λ st. not_busy _ _) in
    elim (Bool-cases (stat_drdy w.st)) [
      | inl e ↦ (w.next, bind-some _ w.ends ∙ rw e refl, w.same_data)
      | inr e ↦ (v.next, bind-some _ w.ends ∙ rw e (bind-some _ v.ends), v.same_data ∙ w.same_data)
    ]

read_words-below :
    (left i : ℕ) (d : Drive) (io : Io) (buf : ℕ → ℕ) (j : ℕ)
    → j < 2 * i
    → (read_words left i d io buf).0 j ≡ buf j
unfolding read_words
read_words-below zero i d io buf j l = refl
read_words-below (suc left) i d io buf j l =
    let w = d.words io.data_reads in
    let first = update buf (2 * i) (w % 256) in
    read_words-below left (i + 1) d (record io { data_reads = io.data_reads + 1 })
      (update first (2 * i + 1) (w / 256 % 256)) j (omega arith)
    ∙ update_ne first (2 * i + 1) j (w / 256 % 256) (omega arith)
    ∙ update_ne buf (2 * i) j (w % 256) (omega arith)

-- Each word of the drive gives two bytes, the low one first.
read_words-at :
    (left i : ℕ) (d : Drive) (io : Io) (buf : ℕ → ℕ) (k : ℕ)
    → i ≤ k
    → k < i + left
    → let w = d.words (io.data_reads + (k - i)) in
      let new = (read_words left i d io buf).0 in
      (new (2 * k) ≡ w % 256) × (new (2 * k + 1) ≡ w / 256 % 256)
unfolding read_words
read_words-at zero i d io buf k l m = absurd (omega arith)
read_words-at (suc left) i d io buf k l m =
    let w = d.words io.data_reads in
    let first = update buf (2 * i) (w % 256) in
    let both = update first (2 * i + 1) (w / 256 % 256) in
    let io1 : Io = record io { data_reads = io.data_reads + 1 } in
    elim (Bool-cases (k == i)) [
      | inl e ↦
          let same = ==→eq k i e in
          let here : d.words (io.data_reads + (k - i)) ≡ w = ap d.words (omega (arith, same)) in
          (
            read_words-below left (i + 1) d io1 both (2 * k) (omega (arith, same))
                ∙ update_ne first (2 * i + 1) (2 * k) (w / 256 % 256) (omega (arith, same))
                ∙ ap (λ n. first (2 * n)) same
                ∙ update_self buf (2 * i) (w % 256)
                ∙ ap (λ x. x % 256) (sym here),
            read_words-below left (i + 1) d io1 both (2 * k + 1) (omega (arith, same))
                ∙ ap (λ n. both (2 * n + 1)) same
                ∙ update_self first (2 * i + 1) (w / 256 % 256)
                ∙ ap (λ x. x / 256 % 256) (sym here),
          )
      | inr e ↦
          let differ = ==→ne k i e in
          let rest = read_words-at left (i + 1) d io1 both k (ground arith) (omega arith) in
          let here : io.data_reads + 1 + (k - (i + 1)) ≡ io.data_reads + (k - i) = ground arith in
          (rest.0 ∙ ap (λ n. d.words n % 256) here, rest.1 ∙ ap (λ n. d.words n / 256 % 256) here)
    ]

-- The writes of `lba_write` for one sector, and the command behind them.
abbrev pub commands : AtaChannel → ℕ → ℕ → List (ℕ × ℕ)
commands ch lba command =
    (ch.base + 2, 1)
    ∷ (ch.base + 3, lba % 256)
    ∷ (ch.base + 4, lba / 256 % 256)
    ∷ (ch.base + 5, lba / 65536 % 256)
    ∷ (ch.base + 6, ch.drive_select + 0x40 + lba / 16777216 % 16)
    ∷ (ch.base + 7, command)
    ∷ []

lba_write-commands :
    (ch : AtaChannel) (lba command : ℕ) (io : Io)
    → outb (ch.base + 7) command (lba_write ch lba 1 io)
      ≡ record io { out = io.out ++ commands ch lba command }
unfolding lba_write
lba_write-commands ch lba command io = ap (λ o. record io { out = o }) (simp append_assoc refl)

read_words-out :
    (left i : ℕ) (d : Drive) (io : Io) (buf : ℕ → ℕ) → (read_words left i d io buf).1.out ≡ io.out
unfolding read_words
read_words-out zero i d io buf = refl
read_words-out (suc left) i d io buf =
    read_words-out left (i + 1) d (record io { data_reads = io.data_reads + 1 }) _

read_words-status :
    (left i : ℕ) (d : Drive) (io : Io) (buf : ℕ → ℕ)
    → (read_words left i d io buf).1.status_reads ≡ io.status_reads
unfolding read_words
read_words-status zero i d io buf = refl
read_words-status (suc left) i d io buf =
    read_words-status left (i + 1) d (record io { data_reads = io.data_reads + 1 }) _

-- A status whose bit 0 is clear has no error.
verdict_of : (st : ℕ) (b : Bool) → stat_err st ≡ b → not b ≡ (st % 2 == 0)
verdict_of st true e = ground arith
verdict_of st false e = ground arith

-- What a read of the sector `lba` ends with. `last` is the number of the read of the status with
-- which the second wait ends; after the data the status is read once more.
pub record Read (d : Drive) (ch : AtaChannel) (lba : ℕ) (buf : ℕ → ℕ) (io : Io)
    (o : Option (Bool × (ℕ → ℕ) × Io)) : Type 0 where
  pub ok : Bool
  pub new : ℕ → ℕ
  pub next : Io
  pub before : List (ℕ × ℕ)
  pub ends : o ≡ some (ok, new, next)
  pub last : ℕ
  pub answer : answers (d.status last) ≡ true
  pub then_read : next.status_reads ≡ last + (if ok then 2 else 1)
  pub verdict : ok ≡ (d.status last % 2 == 0)
  pub asked : next.out ≡ before ++ commands ch lba 0x20
  pub bytes :
      ok ≡ true
      → (k : ℕ) → k < 256
      → (new (2 * k) ≡ d.words (io.data_reads + k) % 256)
        × (new (2 * k + 1) ≡ d.words (io.data_reads + k) / 256 % 256)
  pub kept : ok ≡ false → new ≡ buf

-- If from every read of the status on one of the next `fuel` reads is an answer, not busy and with
-- data or an error, then `read_sector` ends: the last ports written are the registers with the low
-- 28 bits of the sector's number and the command to read one sector; its result is whether the
-- answer that ended its last wait has bit 0, ERR, clear; if it is true, the buffer has the two bytes
-- of each of the drive's next 256 words, and if it is false, the buffer is as it was.
pub read_sector-Read :
    (fuel : ℕ) (d : Drive) (ch : AtaChannel) (lba : ℕ) (buf : ℕ → ℕ) (io : Io)
    → Answers fuel d
    → Read d ch lba buf io (read_sector fuel d ch lba buf io)
unfolding read_sector
read_sector-Read fuel d ch lba buf io a =
    let (ready, got, same) = get_ready-ends fuel d ch io a in
    let asking = outb (ch.base + 7) 0x20 (lba_write ch lba 1 ready) in
    let asked = lba_write-commands ch lba 0x20 ready in
    let w =
      answered (λ st. not (stat_bsy st) && (stat_drq st || stat_err st)) fuel d asking a
        (λ st h. h) in
    let start : w.next.data_reads ≡ io.data_reads =
      w.same_data ∙ ap (λ x. x.data_reads) asked ∙ same in
    let out : w.next.out ≡ ready.out ++ commands ch lba 0x20 = w.same_out ∙ ap (λ x. x.out) asked in
    elim (Bool-cases (stat_err w.st)) [
      | inl e ↦ record {
        ok = false;
        new = buf;
        next = record (w.next) { other_reads = w.next.other_reads + 1 };
        before = ready.out;
        ends = bind-some _ got ∙ bind-some _ w.ends ∙ rw e refl;
        last = w.last;
        answer = ap answers (sym w.is_last) ∙ w.is_ready;
        then_read = w.read_it;
        verdict = verdict_of w.st true e ∙ ap (λ st. st % 2 == 0) w.is_last;
        asked = out;
        bytes = λ f. absurd (ground arith);
        kept = λ f. refl;
      }
      | inr e ↦ record {
        ok = true;
        new = (read_words 256 0 d w.next buf).0;
        next = skip_status ((read_words 256 0 d w.next buf).1);
        before = ready.out;
        ends = bind-some _ got ∙ bind-some _ w.ends ∙ rw e refl;
        last = w.last;
        answer = ap answers (sym w.is_last) ∙ w.is_ready;
        then_read =
            ap (λ n. n + 1) (read_words-status 256 0 d w.next buf ∙ w.read_it) ∙ omega arith;
        verdict = verdict_of w.st false e ∙ ap (λ st. st % 2 == 0) w.is_last;
        asked = read_words-out 256 0 d w.next buf ∙ out;
        bytes = λ f k l.
            let (low, high) = read_words-at 256 0 d w.next buf k (omega arith) (omega arith) in
            let here : w.next.data_reads + (k - 0) ≡ io.data_reads + k = omega (arith, start) in
            (low ∙ ap (λ n. d.words n % 256) here, high ∙ ap (λ n. d.words n / 256 % 256) here);
        kept = λ f. absurd (ground arith);
      }
    ]

-- The drive register: the channel's drive in the high half, the top bits of the address in the low.
drive_register :
    (master : Bool) (select top : ℕ)
    → top < 16
    → select ≡ (if master then 0xA0 else 0xB0)
    → ((select + 0x40 + top) % 16 ≡ top)
      × ((select + 0x40 + top) / 16 * 16 ≡ (if master then 0xE0 else 0xF0))
drive_register true select top l s = (omega arith, omega arith)
drive_register false select top l s = (omega arith, omega arith)

-- `lba_write` writes the count, three bytes and the drive register, whose low half and the bytes
-- hold the address up to 28 bits: a larger one is cut, and asks for another sector. The high half
-- holds the channel's drive with the bit for such addresses.
pub lba_write-registers :
    (ch : AtaChannel) (master : Bool) (lba count : ℕ) (io : Io)
    → ch.drive_select ≡ (if master then 0xA0 else 0xB0)
    → (low mid high drive : ℕ) × ((lba_write ch lba count io).out
        ≡ io.out
          ++ ((ch.base + 2, count)
              ∷ (ch.base + 3, low)
              ∷ (ch.base + 4, mid)
              ∷ (ch.base + 5, high)
              ∷ (ch.base + 6, drive)
              ∷ []))
      × (low + 256 * mid + 65536 * high + 16777216 * (drive % 16) ≡ lba % 2 ^ 28)
      × (drive / 16 * 16 ≡ (if master then 0xE0 else 0xF0))
unfolding lba_write
lba_write-registers ch master lba count io s =
    let top = lba / 16777216 % 16 in
    let (low_half, high_half) = drive_register master ch.drive_select top (omega arith) s in
    (
      lba % 256,
      lba / 256 % 256,
      lba / 65536 % 256,
      ch.drive_select + 0x40 + top,
      simp append_assoc refl,
      omega (arith, low_half),
      high_half,
    )
