-- ===== src/Fat/Outcome.antt =====
-- The outcomes of a run in the monad of src/hal/fat32.rs, and the ways in which they compose.
use planck_os.Prelude.{update, if◌then◌else◌, ℕ, Bool, true, false, ◌≡◌, refl}
use planck_os.Fat.{
  Sector, write_sector, disk_err, Disk, FError, M, Run, hang, ok, err, pure, read_sector,
}

-- The value and the state of a run satisfy `P`, or its error and state satisfy `Q`; it does not
-- hang.
unfoldable pub Ends : {S A : Type 0} → (A → S → Type 0) → (FError → S → Type 0) → Run S A → Type 0
Ends P Q (ok a s) = P a s
Ends P Q (err e s) = Q e s
Ends P Q hang = ⊥

pub Ends-bind :
    {S A B : Type 0} (P : A → S → Type 0) (P' : B → S → Type 0) (Q : FError → S → Type 0)
    (r : Run S A) (k : A → M S B)
    → Ends P Q r
    → ((a : A) (s : S) → P a s → Ends P' Q (k a s))
    → Ends P' Q (elim r [ ok a s ↦ k a s | err e s ↦ err e s | hang ↦ hang ])
unfolding Ends
Ends-bind P P' Q (ok a s) k h f = f a s h
Ends-bind P P' Q (err e s) k h f = h
Ends-bind P P' Q hang k h f = h

pub Ends-if :
    {S A : Type 0} (P : A → S → Type 0) (Q : FError → S → Type 0) (b : Bool) (m k : M S A) (s : S)
    → (b ≡ true → Ends P Q (m s))
    → (b ≡ false → Ends P Q (k s))
    → Ends P Q ((if b then m else k) s)
Ends-if P Q true m k s f g = f refl
Ends-if P Q false m k s f g = g refl

pub Ends-map :
    {S A : Type 0} (P P' : A → S → Type 0) (Q Q' : FError → S → Type 0) (r : Run S A)
    → ((a : A) (s : S) → P a s → P' a s)
    → ((e : FError) (s : S) → Q e s → Q' e s)
    → Ends P Q r
    → Ends P' Q' r
unfolding Ends
Ends-map P P' Q Q' (ok a s) f g h = f a s h
Ends-map P P' Q Q' (err e s) f g h = g e s h
Ends-map P P' Q Q' hang f g h = h

-- A run on the disk that leaves it as it is and gives nothing but `a`.
abbrev pub Gives : {A : Type 0} → Disk → A → Run Disk A → Type 0
Gives d a r = Ends (λ x d'. (x ≡ a) × (d' ≡ d)) (λ _ d'. d' ≡ d) r

pub pure-Gives : {A : Type 0} (a : A) (d : Disk) → Gives d a (pure a d)
unfolding Ends
pure-Gives a d = (refl, refl)

pub read_sector-Gives : (lba : ℕ) (d : Disk) → Gives d (d.sectors lba) (read_sector lba d)
unfolding read_sector Ends
read_sector-Gives lba d =
    elim (d.readable lba)
      as (λ b. Gives d (d.sectors lba) (if b then ok (d.sectors lba) d else err disk_err d)) [
        | true ↦ (refl, refl)
        | false ↦ refl
      ]

-- A run that does not hang.
abbrev pub Halts : {S A : Type 0} → Run S A → Type 0
Halts r = Ends (λ _ _. Unit {0}) (λ _ _. Unit {0}) r

pub read_sector-Halts : (lba : ℕ) (d : Disk) → Halts (read_sector lba d)
unfolding read_sector Ends
read_sector-Halts lba d =
    elim (d.readable lba) as (λ b. Halts (if b then ok (d.sectors lba) d else err disk_err d)) [
      | true ↦ tt
      | false ↦ tt
    ]

pub write_sector-Halts : (lba : ℕ) (buf : Sector) (d : Disk) → Halts (write_sector lba buf d)
unfolding write_sector Ends
write_sector-Halts lba buf d =
    elim (d.writable lba)
      as (λ b.
        Halts
          (if b then ok tt (record d { sectors = update d.sectors lba buf }) else err disk_err d)) [
            | true ↦ tt
            | false ↦ tt
          ]

pub Halts-bind :
    {S A B : Type 0} (r : Run S A) (k : A → M S B)
    → Halts r
    → ((a : A) (t : S) → Halts (k a t))
    → Halts (elim r [ ok a s ↦ k a s | err e s ↦ err e s | hang ↦ hang ])
Halts-bind r k h f =
    Ends-bind (λ _ _. Unit {0}) (λ _ _. Unit {0}) (λ _ _. Unit {0}) r k h (λ a t _. f a t)
