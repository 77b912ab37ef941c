-- ===== src/SpinLock/Tests.antt =====
-- The theorem of src/hal/memory.rs at a run in which one of the cores takes the lock.
use planck_os.Prelude.{true, false, refl}
use planck_os.SpinLock.{
  State, flags_read, saved, spinning, holding, new, at, flag_at, pushfq, save, cli, acquire, Steps,
  done, more,
}
use planck_os.SpinLock.Exclusion.{Exclusive, Steps-Exclusive}

abbrev start : State
start = new (λ i. true)

abbrev locked : State
locked =
    at 0 holding
      (record (flag_at 0 spinning false
        (at 0 saved (record (at 0 (flags_read true) start) { saved_if = true }))) { flag = true })

locked-Steps : Steps start locked
locked-Steps =
    more 0
      (more 0
        (more 0 (more 0 (done start) (pushfq start refl))
          (save (at 0 (flags_read true) start) true refl))
        (cli (at 0 saved (record (at 0 (flags_read true) start) { saved_if = true })) refl))
      (acquire
        (flag_at 0 spinning false
          (at 0 saved (record (at 0 (flags_read true) start) { saved_if = true })))
        refl refl)

Steps-Exclusive_example : Exclusive locked
Steps-Exclusive_example = Steps-Exclusive (λ i. true) locked locked-Steps
