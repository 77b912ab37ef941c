-- ===== src/Apic/Routes.antt =====
-- The redirection entries of the I/O APIC that `init` of src/hal/apic.rs leaves.
use planck_os.Prelude.{
  ℕ, zero, suc, ◌+◌, ◌*◌, ◌/◌, ◌%◌, ◌^◌, ◌≤◌, ◌<◌, ◌≡◌, refl, ◌∙◌, ◌==◌, if◌then◌else◌, arith, inl,
  inr, Bool-cases, ==→eq,
}
use planck_os.Prelude.{◌^◌}
use planck_os.Apic.{
  Apic, init, lapic_id, lapic_write, ioapic_write, ioapic_mask_all, ioapic_route, mask_from,
  enable_msr, choose_base, reg_svr, with_spurious,
}

mask_from-below : (left i r : ℕ) (a : Apic) → r < 0x10 + i * 2 → (mask_from left i a).io r ≡ a.io r
unfolding mask_from ioapic_write
mask_from-below zero i r a h = refl
mask_from-below (suc left) i r a h =
    let masked = ioapic_write (0x10 + i * 2) (2 ^ 16) (ioapic_write (0x10 + i * 2 + 1) 0 a) in
    let low : masked.io r ≡ a.io r = ground arith in
    mask_from-below left (i + 1) r masked (omega arith) ∙ low

mask_from-masks :
    (left i p : ℕ) (a : Apic)
    → i ≤ p
    → p < i + left
    → ((mask_from left i a).io (0x10 + p * 2) ≡ 2 ^ 16)
      × ((mask_from left i a).io (0x10 + p * 2 + 1) ≡ 0)
unfolding mask_from ioapic_write
mask_from-masks zero i p a h l = absurd (omega arith)
mask_from-masks (suc left) i p a h l =
    let masked = ioapic_write (0x10 + i * 2) (2 ^ 16) (ioapic_write (0x10 + i * 2 + 1) 0 a) in
    elim (Bool-cases (p == i)) [
      | inl e ↦
          let same : p ≡ i = ==→eq p i e in
          let lo : masked.io (0x10 + p * 2) ≡ 2 ^ 16 = ground arith in
          let hi : masked.io (0x10 + p * 2 + 1) ≡ 0 = ground arith in
          (
            mask_from-below left (i + 1) (0x10 + p * 2) masked (omega arith) ∙ lo,
            mask_from-below left (i + 1) (0x10 + p * 2 + 1) masked (omega arith) ∙ hi,
          )
      | inr e ↦ mask_from-masks left (i + 1) p masked (ground arith) (omega arith)
    ]

ioapic_route-entry :
    (irq vector dest p lo hi : ℕ) (a : Apic)
    → a.io (0x10 + p * 2) ≡ lo
    → a.io (0x10 + p * 2 + 1) ≡ hi
    → ((ioapic_route irq vector dest a).io (0x10 + p * 2) ≡ (if p == irq then vector else lo))
      × ((ioapic_route irq vector dest a).io (0x10 + p * 2 + 1)
          ≡ (if p == irq then dest * 2 ^ 24 else hi))
unfolding ioapic_route ioapic_write
ioapic_route-entry irq vector dest p lo hi a g h = (ground arith, ground arith)

-- After `init`, of the pins that the I/O APIC says it has, pin 1 delivers the vector 0x21 to the
-- core that runs `init`, and every other pin is masked.
pub init-routes :
    (id_reg svr addr p : ℕ) (a : Apic)
    → p ≤ a.io 1 / 2 ^ 16 % 256
    → ((init id_reg svr addr a).io (0x10 + p * 2) ≡ (if p == 1 then 0x21 else 2 ^ 16))
      × ((init id_reg svr addr a).io (0x10 + p * 2 + 1)
          ≡ (if p == 1 then lapic_id id_reg * 2 ^ 24 else 0))
unfolding init lapic_write ioapic_mask_all
init-routes id_reg svr addr p a h =
    let bsp = lapic_id id_reg in
    let known = record (enable_msr a) { bsp_apic_id = bsp } in
    let enabled = choose_base addr (lapic_write reg_svr (with_spurious svr) known) in
    let masked =
      mask_from-masks (enabled.io 1 / 2 ^ 16 % 256 + 1) 0 p enabled (omega arith)
        (omega (arith, h)) in
    ioapic_route-entry 1 0x21 bsp p (2 ^ 16) 0 (ioapic_mask_all enabled) (masked.0) (masked.1)
