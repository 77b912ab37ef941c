-- ===== src/Smp/Trampoline/Patches.antt =====
-- The slots of the patched trampoline of src/hal/smp.rs.
use planck_os.Prelude.{
  length-replicate, ℕ, ◌+◌, ◌-◌, ◌≤◌, ◌<◌, ◌≡◌, ◌⊎◌, get_elem?, refl, ◌∙◌, Bool, true, false, ◌&&◌,
  ◌||◌, some, leb, List, [], ◌∷◌, length, take, arith, inl, inr, leb→le, length-append,
}
use planck_os.Prelude.{replicate, length-take}
use planck_os.Smp.{Slots, Offsets, Patch, write_all, find_offsets, private_copy, patches, patch}
use planck_os.Smp.Trampoline.{Holds, Written, write_at-Written}

-- Two writes do not touch the same place.
abbrev pub apart : Patch → Patch → Bool
apart p q = leb (p.0 + length (p.1)) (q.0) || leb (q.0 + length (q.1)) (p.0)

abbrev pub apart_all : Patch → List Patch → Bool
apart_all p [] = true
apart_all p (q ∷ qs) = apart p q && apart_all p qs

-- No two of the writes touch the same place.
abbrev pub separate : List Patch → Bool
separate [] = true
separate (p ∷ ps) = apart_all p ps && separate ps

-- All writes are within `n` bytes.
abbrev pub fits : ℕ → List Patch → Bool
fits n [] = true
fits n (p ∷ ps) = leb (p.0 + length (p.1)) n && fits n ps

abbrev pub AllHold : List ℕ → List Patch → Type 0
AllHold r [] = Unit
AllHold r (p ∷ ps) = Holds r (p.0) (p.1) × AllHold r ps

and-left : (a b : Bool) → (a && b) ≡ true → a ≡ true
and-left true b h = refl
and-left false b h = absurd (cc h)

and-right : (a b : Bool) → (a && b) ≡ true → b ≡ true
and-right true b h = h
and-right false b h = absurd (cc h)

or-cases : (a b : Bool) → (a || b) ≡ true → (a ≡ true) ⊎ (b ≡ true)
or-cases true b h = inl refl
or-cases false b h = inr h

Written-keeps :
    (p q : Patch) (blob r : List ℕ)
    → Written (q.0) (q.1) blob r
    → apart p q ≡ true
    → Holds blob (p.0) (p.1)
    → Holds r (p.0) (p.1)
Written-keeps p q blob r w a h j l =
    elim (or-cases (leb (p.0 + length (p.1)) (q.0)) (leb (q.0 + length (q.1)) (p.0)) a) [
      | inl e ↦ w.before (p.0 + j) (omega (arith, leb→le (p.0 + length (p.1)) (q.0) e)) ∙ h j l
      | inr e ↦ w.behind (p.0 + j) (omega (arith, leb→le (q.0 + length (q.1)) (p.0) e)) ∙ h j l
    ]

-- A place that no write touches.
abbrev pub Outside : ℕ → List Patch → Type 0
Outside j [] = Unit {0}
Outside j (p ∷ ps) = ((j < p.0) ⊎ (p.0 + length (p.1) ≤ j)) × Outside j ps

Written-outside :
    (p : Patch) (blob r : List ℕ) (j : ℕ)
    → Written (p.0) (p.1) blob r
    → (j < p.0) ⊎ (p.0 + length (p.1) ≤ j)
    → get_elem? r j ≡ get_elem? blob j
Written-outside p blob r j w (inl h) = w.before j h
Written-outside p blob r j w (inr h) = w.behind j h

record Patched (ps : List Patch) (blob : List ℕ) : Type 0 where
  result : List ℕ
  ends : write_all ps blob ≡ some result
  long : length result ≡ length blob
  holds : AllHold result ps
  untouched : (j : ℕ) → Outside j ps → get_elem? result j ≡ get_elem? blob j
  kept : (p : Patch) → apart_all p ps ≡ true → Holds blob (p.0) (p.1) → Holds result (p.0) (p.1)

write_all-Patched :
    (ps : List Patch) (blob : List ℕ)
    → fits (length blob) ps ≡ true
    → separate ps ≡ true
    → Patched ps blob
unfolding write_all
write_all-Patched [] blob f s = record {
  result = blob;
  ends = refl;
  long = refl;
  holds = tt;
  untouched = λ j h. refl;
  kept = λ p a h. h;
}
write_all-Patched ((off, bytes) ∷ ps) blob f s =
    let room = and-left (leb (off + length bytes) (length blob)) (fits (length blob) ps) f in
    let (r, e, w) =
      write_at-Written off bytes blob (leb→le (off + length bytes) (length blob) room) in
    let more = and-right (leb (off + length bytes) (length blob)) (fits (length blob) ps) f in
    let free = and-left (apart_all (off, bytes) ps) (separate ps) s in
    let rest =
      write_all-Patched ps r (rw w.long more)
        (and-right (apart_all (off, bytes) ps) (separate ps) s) in
    record {
      result = rest.result;
      ends = rw e rest.ends;
      long = rest.long ∙ w.long;
      holds = (rest.kept (off, bytes) free w.inside, rest.holds);
      untouched = λ j h. rest.untouched j h.1 ∙ Written-outside (off, bytes) blob r j w h.0;
      kept = λ p a h. rest.kept p (and-right (apart p (off, bytes)) (apart_all p ps) a) (
          Written-keeps p (off, bytes) blob r w (and-left (apart p (off, bytes)) (apart_all p ps) a)
            h);
    }

private_copy-length : (trampoline : List ℕ) → length (private_copy trampoline) ≡ 4096
private_copy-length t = omega (
  arith,
  length-append (take 4096 t) (replicate (4096 - length t) 0),
  length-take 4096 t,
  length-replicate {A = ℕ} (4096 - length t) 0,
)

-- When all six markers are found in the copy of the trampoline and the slots behind them lie within
-- its 4096 bytes and do not overlap, the patched copy has 4096 bytes and every slot holds what it
-- is for: the page table, the limit and the base of the two tables, the stack, the core's number
-- and the entry point. The bytes outside the slots are those of the copy.
pub patch-AllHold :
    (s : Slots) (o : Offsets) (trampoline : List ℕ)
    → find_offsets (private_copy trampoline) ≡ some o
    → fits 4096 (patches o s) ≡ true
    → separate (patches o s) ≡ true
    → (r : List ℕ) × (patch s trampoline ≡ some r)
      × (length r ≡ 4096)
      × AllHold r (patches o s)
      × ((j : ℕ) → Outside j (patches o s) → get_elem? r j ≡ get_elem? (private_copy trampoline) j)
unfolding patch
patch-AllHold s o t found f sep =
    let known = private_copy-length t in
    let w = write_all-Patched (patches o s) (private_copy t) (rw known f) sep in
    (w.result, rw found w.ends, w.long ∙ known, w.holds, w.untouched)
