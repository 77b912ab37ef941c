-- ===== src/Apic/Commands.antt =====
-- The interrupts between cores that src/hal/apic.rs sends, with a local APIC that becomes idle.
use planck_os.Prelude.{
  ℕ, zero, suc, ◌+◌, ◌-◌, ◌*◌, ◌^◌, ◌≤◌, ◌<◌, ◌≡◌, refl, ap, ◌∙◌, true, false, Option, some, ◌∷◌,
  arith, inl, inr, Bool-cases,
}
use planck_os.Prelude.{◌^◌}
use planck_os.Apic.{
  Apic, is_busy, lapic_write, wait_icr_idle, command, send_ipi, send_init, send_sipi, reg_icr_lo,
  reg_icr_hi,
}

-- From any read of the command register on, one of the next `n` finds it idle.
abbrev pub BecomesIdle : ℕ → (ℕ → ℕ) → Type 0
BecomesIdle n icr = (k : ℕ) → (j : ℕ) × (j < n) × (is_busy (icr (k + j)) ≡ false)

-- The wait ends right behind a read that found the register idle, and has done nothing but read.
pub record Idle (icr : ℕ → ℕ) (a b : Apic) : Type 0 where
  pub later : a.reads < b.reads
  pub seen : is_busy (icr (b.reads - 1)) ≡ false
  pub only_reads : b ≡ record a { reads = b.reads }

-- A later read than a busy one.
next_read :
    (icr : ℕ → ℕ) (k j n : ℕ)
    → j < suc n
    → is_busy (icr k) ≡ true
    → is_busy (icr (k + j)) ≡ false
    → (i : ℕ) × (i < n) × (is_busy (icr (k + 1 + i)) ≡ false)
next_read icr k zero n h busy e =
    let here : k + 0 ≡ k = omega arith in absurd (cc (busy, rw here at e))
next_read icr k (suc j) n h busy e =
    let here : k + 1 + j ≡ k + suc j = omega arith in (j, omega arith, rw here e)

wait_icr_idle-Idle :
    (j n : ℕ) (icr : ℕ → ℕ) (a : Apic)
    → j < n
    → is_busy (icr (a.reads + j)) ≡ false
    → (b : Apic) × (wait_icr_idle n icr a ≡ some b) × Idle icr a b
unfolding wait_icr_idle
wait_icr_idle-Idle j zero icr a h e = absurd (omega arith)
wait_icr_idle-Idle j (suc n) icr a h e =
    let seen = record a { reads = a.reads + 1 } in
    elim (Bool-cases (is_busy (icr a.reads))) [
      | inl busy ↦
          let (i, below, found) = next_read icr a.reads j n h busy e in
          let (b, eq, w) = wait_icr_idle-Idle i n icr seen below found in
          (
            b,
            rw busy eq,
            record { later = omega (arith, w.later); seen = w.seen; only_reads = w.only_reads },
          )
      | inr idle ↦
          let same : a.reads + 1 - 1 ≡ a.reads = omega arith in
          (
            seen,
            rw idle refl,
            record { later = omega arith; seen = rw same idle; only_reads = refl },
          )
    ]

-- A command has been sent: the two halves of its word are written, the target's first, with no
-- other effect, after one wait and before another, which saw the register idle.
pub record Sent (icr : ℕ → ℕ) (apic_id word : ℕ) (a : Apic) (o : Option Apic) : Type 0 where
  pub after : Apic
  pub ends : o ≡ some after
  pub waited : a.reads + 2 ≤ after.reads
  pub seen : is_busy (icr (after.reads - 1)) ≡ false
  pub only_sends : after ≡ record a {
    reads = after.reads;
    writes = (reg_icr_lo, word) ∷ (reg_icr_hi, apic_id * 2 ^ 24) ∷ a.writes;
  }

command-Sent :
    (n : ℕ) (icr : ℕ → ℕ) (apic_id word : ℕ) (a : Apic)
    → BecomesIdle n icr
    → Sent icr apic_id word a (command n icr apic_id word a)
unfolding command lapic_write
command-Sent n icr apic_id word a idle =
    let (j, below, found) = idle a.reads in
    let (b, eq, w) = wait_icr_idle-Idle j n icr a below found in
    let sent = lapic_write reg_icr_lo word (lapic_write reg_icr_hi (apic_id * 2 ^ 24) b) in
    let (j', below', found') = idle sent.reads in
    let (d, eq', w') = wait_icr_idle-Idle j' n icr sent below' found' in
    record {
      after = d;
      ends = rw eq eq';
      waited = omega (arith, w.later, w'.later);
      seen = w'.seen;
      only_sends =
          w'.only_reads
          ∙ ap
              (λ (x : Apic).
                record (lapic_write reg_icr_lo word (lapic_write reg_icr_hi (apic_id * 2 ^ 24) x)) {
                  reads = d.reads;
                })
              w.only_reads;
    }

-- With a local APIC whose command register is found idle at one of any `n` reads in a row, each of
-- `send_ipi`, `send_init` and `send_sipi` ends: it has waited for an idle register before and
-- after, has written the target and then its own command word, and nothing else has changed.
pub send-Sent :
    (n : ℕ) (icr : ℕ → ℕ) (apic_id vector : ℕ) (a : Apic)
    → BecomesIdle n icr
    → Sent icr apic_id vector a (send_ipi n icr apic_id vector a)
      × Sent icr apic_id 0x500 a (send_init n icr apic_id a)
      × Sent icr apic_id (0x600 + vector) a (send_sipi n icr apic_id vector a)
unfolding send_ipi send_init send_sipi
send-Sent n icr apic_id vector a idle = (
  command-Sent n icr apic_id vector a idle,
  command-Sent n icr apic_id 0x500 a idle,
  command-Sent n icr apic_id (0x600 + vector) a idle,
)
