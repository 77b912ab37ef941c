-- ===== src/Applets/Cp/Copied.antt =====
-- The loop of `cp` of src/applets/cp/mod.rs over files whose reads and writes may fail.
use planck_os.Prelude.{
  ℕ, zero, suc, ◌+◌, ◌<◌, ◌≤◌, ◌≡◌, ◌≢◌, refl, sym, ap, ◌∙◌, Option, some, List, [], ◌∷◌, ◌++◌,
  length, take, drop, arith, ltb, ltb→lt, le_of_ltb, lt→ltb, inl, inr, Bool-cases,
}
use planck_os.Prelude.{codes}
use mathlib.Core.List.{append_assoc, append-nil}
use planck_os.Fat.{Run, ok, err, hang, FError}
use planck_os.Fat.Outcome.{Ends}
use planck_os.Applets.{FileSystem}
use planck_os.Applets.Cp.{Copying, write_block, read_block, written_block, turn, go_on, copy_loop}

-- Reads and writes end, with a result or an error, and keep what they need of their file. Of the
-- source `left` is what is left at most, and a read shortens it; the destination has `room` for
-- writes, which take from it.
pub record Transfers {S File Dir : Type 0} (fs : FileSystem S File Dir) : Type 1 where
  pub Source : File → Type 0
  pub Target : File → Type 0
  pub left : File → ℕ
  pub room : File → ℕ
  pub reads :
      (d : S) (f : File)
      → Source f
      → Ends
          (λ bytes at. Source (at.1) × (left (at.1) + length bytes ≤ left f))
          (λ e at. Unit {0})
          (fs.f_read 512 (d, f))
  pub writes :
      (bytes : List ℕ) (d : S) (g : File)
      → Target g
      → bytes ≢ []
      → length bytes ≤ room g
      → Ends
          (λ n at. Target (at.1) × (room g ≤ room (at.1) + length bytes))
          (λ e at. Unit {0})
          (fs.f_write bytes (d, g))

take-drop : (n : ℕ) (xs : List ℕ) → take n xs ++ drop n xs ≡ xs
take-drop zero xs = refl
take-drop (suc n) [] = refl
take-drop (suc n) (x ∷ xs) = ap (λ ys. x ∷ ys) (take-drop n xs)

drop-left : (n : ℕ) (xs : List ℕ) → n < length xs → drop n xs ≢ []
drop-left n [] l e = omega arith
drop-left zero (x ∷ xs) l e = cc e
drop-left (suc n) (x ∷ xs) l e = drop-left n xs (omega arith) e

-- How a copy can end: at the end of the source or at a read that fails, or at a write that fails or
-- is short.
pub data Ending : Type 0 where
  at_end : Ending
  unreadable : Ending
  unwritten : Ending

abbrev pub message : Ending → List ℕ
message at_end = []
message unreadable = []
message unwritten = codes "cp: write error\n"

-- A copy from the source `f` to the destination `g` on the disk `d`, in blocks of at most 512
-- bytes, that ends with the disk `d'` and the destination `g'`: the bytes that the reads gave and
-- those that the writes took.
pub data Copies {S File Dir : Type 0} (fs : FileSystem S File Dir)
    : S → File → File → List ℕ → List ℕ → Ending → S → File → Type 0 where
  ends :
      {d d' : S} {f f' g : File}
      → fs.f_read 512 (d, f) ≡ ok [] (d', f')
      → Copies fs d f g [] [] at_end d' g
  fails :
      {d d' : S} {f f' g : File} {e : FError}
      → fs.f_read 512 (d, f) ≡ err e (d', f')
      → Copies fs d f g [] [] unreadable d' g
  refused :
      {d d' d'' : S} {f f' g g' : File} {bytes : List ℕ} {e : FError}
      → fs.f_read 512 (d, f) ≡ ok bytes (d', f')
      → bytes ≢ []
      → fs.f_write bytes (d', g) ≡ err e (d'', g')
      → Copies fs d f g bytes [] unwritten d'' g'
  short :
      {d d' d'' : S} {f f' g g' : File} {bytes : List ℕ} {n : ℕ}
      → fs.f_read 512 (d, f) ≡ ok bytes (d', f')
      → fs.f_write bytes (d', g) ≡ ok n (d'', g')
      → n < length bytes
      → Copies fs d f g bytes (take n bytes) unwritten d'' g'
  block :
      {d d' d'' z : S} {f f' g g' y : File} {bytes read took : List ℕ} {n : ℕ} {e : Ending}
      → fs.f_read 512 (d, f) ≡ ok bytes (d', f')
      → bytes ≢ []
      → fs.f_write bytes (d', g) ≡ ok n (d'', g')
      → length bytes ≤ n
      → Copies fs d'' f' g' read took e z y
      → Copies fs d f g (bytes ++ read) (bytes ++ took) e z y

-- What was read and not taken: nothing, unless a write failed or was short.
abbrev pub Lost : Ending → List ℕ → Type 0
Lost at_end rest = rest ≡ []
Lost unreadable rest = rest ≡ []
Lost unwritten rest = rest ≢ []

-- What the loop ends with.
pub record Copied {S File Dir : Type 0} (fs : FileSystem S File Dir) (c : Copying S File)
    (o : Option (Copying S File)) : Type 0 where
  pub after : Copying S File
  pub result : o ≡ some after
  pub read : List ℕ
  pub took : List ℕ
  pub ending : Ending
  pub run : Copies fs c.disk c.src c.dst read took ending after.disk after.dst
  pub rest : List ℕ
  pub prefix : read ≡ took ++ rest
  pub lost : Lost ending rest
  pub told : after.out ≡ c.out ++ message ending

module _ {S File Dir : Type 0} (fs : FileSystem S File Dir) (laws : Transfers fs) where
  abbrev ReadAgain : ℕ → Type 0
  ReadAgain fuel =
      (c : Copying S File)
      → laws.Source c.src
      → laws.Target c.dst
      → laws.left c.src < fuel
      → laws.left c.src ≤ laws.room c.dst
      → Copied fs c (copy_loop fs fuel c)

  -- A round after the write of a block.
  wrote :
      (fuel : ℕ) (c : Copying S File) (b : ℕ) (bs : List ℕ) (d : S) (f : File)
      → fs.f_read 512 (c.disk, c.src) ≡ ok (b ∷ bs) (d, f)
      → laws.Source f
      → laws.left f < fuel
      → laws.left f + length (b ∷ bs) ≤ laws.room c.dst
      → ReadAgain fuel
      → (r : Run (S × File) ℕ) → fs.f_write (b ∷ bs) (d, c.dst) ≡ r
      → Ends
          (λ n at. laws.Target (at.1) × (laws.room c.dst ≤ laws.room (at.1) + length (b ∷ bs)))
          (λ e at. Unit {0})
          r
      → Copied fs c (
          go_on fs
            (copy_loop fs fuel)
            (written_block fs r (length (b ∷ bs)) (record c { disk = d; src = f })))
  unfolding Ends
  wrote fuel c b bs d f got good enough fit again (ok n (d', g')) put target =
      elim (Bool-cases (ltb n (length (b ∷ bs)))) [
        | inl e ↦ record {
          after = record c {
            disk = d';
            src = f;
            dst = g';
            out = c.out ++ codes "cp: write error\n";
          };
          result = rw e refl;
          read = b ∷ bs;
          took = take n (b ∷ bs);
          ending = unwritten;
          run = short got put (ltb→lt n (length (b ∷ bs)) e);
          rest = drop n (b ∷ bs);
          prefix = sym (take-drop n (b ∷ bs));
          lost = drop-left n (b ∷ bs) (ltb→lt n (length (b ∷ bs)) e);
          told = refl;
        }
        | inr e ↦
            let c' : Copying S File = record c { disk = d'; src = f; dst = g' } in
            let r = again c' good target.0 enough (omega (arith, target.1)) in
            record {
              after = r.after;
              result = rw e r.result;
              read = (b ∷ bs) ++ r.read;
              took = (b ∷ bs) ++ r.took;
              ending = r.ending;
              run = block got (λ h. cc h) put (le_of_ltb n (length (b ∷ bs)) e) r.run;
              rest = r.rest;
              prefix =
                  ap (λ ys. (b ∷ bs) ++ ys) r.prefix ∙ sym (append_assoc (b ∷ bs) r.took r.rest);
              lost = r.lost;
              told = r.told;
            }
      ]
  wrote fuel c b bs d f got good enough fit again (err e (d', g')) put target = record {
    after = record c { disk = d'; src = f; dst = g'; out = c.out ++ codes "cp: write error\n" };
    result = rw (lt→ltb 0 (suc (length bs)) (omega arith)) refl;
    read = b ∷ bs;
    took = [];
    ending = unwritten;
    run = refused got (λ h. cc h) put;
    rest = b ∷ bs;
    prefix = refl;
    lost = λ h. cc h;
    told = refl;
  }
  wrote fuel c b bs d f got good enough fit again hang put target = absurd target

  -- A round after the read.
  was_read :
      (fuel : ℕ) (c : Copying S File)
      → laws.Target c.dst
      → laws.left c.src < suc fuel
      → laws.left c.src ≤ laws.room c.dst
      → ReadAgain fuel
      → (r : Run (S × File) (List ℕ)) → fs.f_read 512 (c.disk, c.src) ≡ r
      → Ends
          (λ bytes at. laws.Source (at.1) × (laws.left (at.1) + length bytes ≤ laws.left c.src))
          (λ e at. Unit {0})
          r
      → Copied fs c (go_on fs (copy_loop fs fuel) (read_block fs r c))
  unfolding Ends write_block
  was_read fuel c target enough fit again (ok [] (d, f)) got h = record {
    after = record c { disk = d; src = f };
    result = refl;
    read = [];
    took = [];
    ending = at_end;
    run = ends got;
    rest = [];
    prefix = refl;
    lost = refl;
    told = sym (append-nil c.out);
  }
  was_read fuel c target enough fit again (ok (b ∷ bs) (d, f)) got h =
      wrote fuel c b bs d f got h.0 (omega (arith, h.1)) (omega (arith, h.1)) again
        (fs.f_write (b ∷ bs) (d, c.dst)) refl
        (laws.writes (b ∷ bs) d c.dst target (λ e. cc e) (omega (arith, h.1)))
  was_read fuel c target enough fit again (err e (d, f)) got h = record {
    after = record c { disk = d; src = f };
    result = refl;
    read = [];
    took = [];
    ending = unreadable;
    run = fails got;
    rest = [];
    prefix = refl;
    lost = refl;
    told = sym (append-nil c.out);
  }
  was_read fuel c target enough fit again hang got h = absurd h

  -- Over any operations whose reads and writes end, with a result or an error, of which a read that
  -- gives bytes shortens what is left of the source by as many, and a write takes at most its length
  -- from the destination's room: with more fuel than is left of the source and room for as much,
  -- the loop of `cp` ends. It is a run of reads of at most 512 bytes, each written in one write
  -- before the next is read. What the writes took is what the reads gave, without a message, unless
  -- a write failed or took less than its block: then the loop stops there, prints that there was a
  -- write error, and the writes took the beginning of what was read, but not all. A read that fails
  -- ends the loop like the end of the source.
  pub copy_loop-whole :
      (fuel : ℕ) (c : Copying S File)
      → laws.Source c.src
      → laws.Target c.dst
      → laws.left c.src < fuel
      → laws.left c.src ≤ laws.room c.dst
      → Copied fs c (copy_loop fs fuel c)
  unfolding copy_loop turn
  copy_loop-whole zero c source target h fit = absurd (omega arith)
  copy_loop-whole (suc fuel) c source target h fit =
      was_read fuel c target h fit (λ c' s t k m. copy_loop-whole fuel c' s t k m)
        (fs.f_read 512 (c.disk, c.src)) refl (laws.reads c.disk c.src source)
