-- ===== src/MemoryMap.antt =====
-- The memory map of src/hal/e820.rs, a constant table.
use planck_os.Prelude.{ℕ, ◌+◌, ◌≡◌, refl, Bool, true, ◌&&◌, ◌==◌, if◌then◌else◌, List, [], ◌∷◌}

pub record MemRegion : Type 0 where
  pub start : ℕ
  pub len : ℕ
  pub typ : ℕ

abbrev region : ℕ → ℕ → ℕ → MemRegion
region start len typ = record { start = start; len = len; typ = typ }

abbrev pub regions : List MemRegion
regions =
    region 0x000000 0x001000 2
    ∷ region 0x001000 0x09F000 2
    ∷ region 0x0A0000 0x060000 2
    ∷ region 0x100000 0x100000 2
    ∷ region 0x200000 0x400000 2
    ∷ region 0x600000 0x7A00000 1
    ∷ []

-- The sum over the regions of type 1.
pub usable : List MemRegion → ℕ
usable [] = 0
usable (r ∷ rs) = let rest = usable rs in if r.typ == 1 then r.len + rest else rest

pub total_usable : ℕ
total_usable = usable regions

-- The regions follow each other without a gap from `at` on, up to `end`.
abbrev tiles : ℕ → List MemRegion → ℕ → Bool
tiles at [] end = at == end
tiles at (r ∷ rs) end = (r.start == at) && tiles (at + r.len) rs end

-- The table covers the 128 MiB from 0 on.
regions-tiles : tiles 0 regions 0x8000000 ≡ true
regions-tiles = refl

total_usable-value : total_usable ≡ 0x7A00000
unfolding total_usable usable
total_usable-value = refl
