-- ===== src/SpinLock/Exclusion.antt =====
-- At most one core holds the lock of src/hal/memory.rs.
use planck_os.Prelude.{
  ℕ, Bool, true, false, ◌≡◌, ◌≢◌, refl, sym, ◌∙◌, ◌⊎◌, inl, inr, update, ◌==◌, Bool-cases, ==→eq,
  ==→ne,
}
use planck_os.SpinLock.{
  idle, flags_read, saved, spinning, holding, released, Core, State, new, Step, pushfq, save, cli,
  acquire, retry, store, restore, leave, Steps, done, more,
}

-- A core that holds the lock has the flag set, and no two cores hold it.
pub record Exclusive (s : State) : Type 0 where
  pub flagged : (i : ℕ) → (s.cores i).place ≡ holding → s.flag ≡ true
  pub alone : (i j : ℕ) → (s.cores i).place ≡ holding → (s.cores j).place ≡ holding → i ≡ j

-- A core that holds the lock after core `i` has become `c`: it is `i`, or it held it before.
who :
    (cores : ℕ → Core) (i : ℕ) (c : Core) (j : ℕ)
    → (update cores i c j).place ≡ holding
    → ((j ≡ i) × (c.place ≡ holding)) ⊎ ((j ≢ i) × ((cores j).place ≡ holding))
who cores i c j h = elim (Bool-cases (j == i)) [
  | inl e ↦ inl (==→eq j i e, rw e at h)
  | inr e ↦ inr (==→ne j i e, rw e at h)
]

-- Core `i` moves outside the lock.
outside :
    (s : State) (i : ℕ) (c : Core) (b : Bool)
    → ¬ (c.place ≡ holding)
    → Exclusive s
    → Exclusive (record s { saved_if = b; cores = update s.cores i c })
outside s i c b n x = record {
  flagged =
      λ j h. elim (who s.cores i c j h) [ inl (e, k) ↦ absurd (n k) | inr (e, k) ↦ x.flagged j k ];
  alone = λ j k h l. elim (who s.cores i c j h) [
    | inl (e, m) ↦ absurd (n m)
    | inr (e, m) ↦ elim (who s.cores i c k l) [
      | inl (f, o) ↦ absurd (n o)
      | inr (f, o) ↦ x.alone j k m o
    ]
  ];
}

free : (s : State) → s.flag ≡ false → Exclusive s → (j : ℕ) → (s.cores j).place ≡ holding → ⊥
free s f x j h = cc (x.flagged j h)

nobody :
    (s : State) (i : ℕ) (c : Core)
    → (s.cores i).place ≡ holding
    → ¬ (c.place ≡ holding)
    → Exclusive s
    → (j : ℕ) → (update s.cores i c j).place ≡ holding
    → ⊥
nobody s i c a n x j h = elim (who s.cores i c j h) [
  | inl (e, k) ↦ n k
  | inr (e, k) ↦ e (x.alone j i k a)
]

-- Core `i` takes a lock that is free.
takes :
    (s : State) (i : ℕ) (c : Core)
    → s.flag ≡ false
    → Exclusive s
    → Exclusive (record s { flag = true; cores = update s.cores i c })
takes s i c f x = record {
  flagged = λ j h. refl;
  alone = λ j k h l. elim (who s.cores i c j h) [
    | inl (e, m) ↦ elim (who s.cores i c k l) [
      | inl (g, o) ↦ e ∙ sym g
      | inr (g, o) ↦ absurd (free s f x k o)
    ]
    | inr (e, m) ↦ absurd (free s f x j m)
  ];
}

-- Core `i`, which holds the lock, gives it up.
gives :
    (s : State) (i : ℕ) (c : Core)
    → (s.cores i).place ≡ holding
    → ¬ (c.place ≡ holding)
    → Exclusive s
    → Exclusive (record s { flag = false; cores = update s.cores i c })
gives s i c a n x = record {
  flagged = λ j h. absurd (nobody s i c a n x j h);
  alone = λ j k h l. absurd (nobody s i c a n x j h);
}

Step-Exclusive : (i : ℕ) (s t : State) → Step i s t → Exclusive s → Exclusive t
Step-Exclusive i s _ (pushfq _ p) x =
    outside s i (record (s.cores i) { place = flags_read (s.cores i).interrupts }) s.saved_if
      (λ h. cc h) x
Step-Exclusive i s _ (save _ b p) x =
    outside s i (record (s.cores i) { place = saved }) b (λ h. cc h) x
Step-Exclusive i s _ (cli _ p) x =
    outside s i (record { place = spinning; interrupts = false }) s.saved_if (λ h. cc h) x
Step-Exclusive i s _ (acquire _ p f) x = takes s i (record (s.cores i) { place = holding }) f x
Step-Exclusive i s _ (retry _ p f) x = x
Step-Exclusive i s _ (store _ p) x =
    gives s i (record (s.cores i) { place = released }) p (λ h. cc h) x
Step-Exclusive i s _ (restore _ p f) x =
    outside s i (record { place = idle; interrupts = true }) s.saved_if (λ h. cc h) x
Step-Exclusive i s _ (leave _ p f) x =
    outside s i (record (s.cores i) { place = idle }) s.saved_if (λ h. cc h) x

keeps : (s t : State) → Steps s t → Exclusive s → Exclusive t
keeps s _ (done _) x = x
keeps s t (more i r e) x = Step-Exclusive i _ t e (keeps s _ r x)

-- In whatever order the cores make their steps from a new lock, whatever their interrupt flags, at
-- most one of them holds the lock, and the lock's flag is set while one does.
pub Steps-Exclusive : (interrupts : ℕ → Bool) (s : State) → Steps (new interrupts) s → Exclusive s
Steps-Exclusive b s h =
    keeps (new b) s h (record { flagged = λ i k. cc k; alone = λ i j k l. cc k })
