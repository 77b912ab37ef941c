-- ===== src/Fat/Directory.antt =====
-- Directory entries, their search and path resolution: `read_dir_entry_name`, `find_entry_in_dir`,
-- `read_entry_data`, `match_pattern`, `resolve_path` and the search for a free slot of
-- src/hal/fat32.rs. A name is the list of its bytes; `[u8; 13]` is such a list padded by zeros.
pub mod Names
use planck_os.Prelude.{
  ℕ, zero, suc, ◌+◌, ◌-◌, ◌*◌, ◌/◌, ◌%◌, min, Bool, true, false, not, ◌&&◌, ◌||◌, Option, none,
  some, ◌==◌, ltb, leb, if◌then◌else◌, List, [], ◌∷◌, ◌++◌, length, get_or,
}
use planck_os.Fat.{
  Disk, Volume, M, Run, hang, ok, err, pure, fail, ◌>>=◌, ◌>>◌, from_le32, disk_err, no_path,
}
use planck_os.Fat.Table.{read_fat_entry, read_cluster, in_chain, end_of_chain}

abbrev pub Entry : Type 0
Entry = ℕ → ℕ

-- `&buf[offset..offset + 32]`
abbrev pub entry_of : (ℕ → ℕ) → ℕ → Entry
entry_of buf offset = λ j. buf (offset + j)

-- `while j < end && entry[j] != b' ' && entry[j] != 0`, `left` bytes from `j` on.
abbrev pub name_bytes : ℕ → ℕ → Entry → List ℕ
name_bytes zero j entry = []
name_bytes (suc left) j entry =
    if (entry j == b' ') || (entry j == 0) then [] else entry j ∷ name_bytes left (j + 1) entry

pub read_dir_entry_name : Entry → Option (List ℕ)
read_dir_entry_name entry =
    let base = name_bytes 8 0 entry in
    let name =
      if (entry 8 == b' ') || (entry 8 == 0) then base else base ++ (b'.' ∷ name_bytes 3 8 entry) in
    if length name == 0 then none else some name

-- `u8::eq_ignore_ascii_case`
abbrev pub to_lower : ℕ → ℕ
to_lower c = if leb b'A' c && leb c b'Z' then c + 32 else c

-- The comparison of an entry's name with the target: it ends with the target's last byte.
pub name_matches : List ℕ → ℕ → List ℕ → Bool
name_matches name i [] = true
name_matches name i (c ∷ cs) =
    let rest = name_matches name (i + 1) cs in
    if to_lower (get_or name i 0) == to_lower c then rest else false

pub data Scan : Type 0 where
  hit : ℕ → Scan
  end_marker : Scan
  exhausted : Scan

-- `attr == ATTR_LFN || attr & ATTR_VOLUME != 0`
abbrev pub is_skipped : ℕ → Bool
is_skipped attr = (attr == 0x0F) || not (attr / 8 % 2 == 0)

-- The entries of one cluster, `left` of them from `idx` on.
pub scan_entries : ℕ → ℕ → (ℕ → ℕ) → List ℕ → Scan
scan_entries zero idx buf target = exhausted
scan_entries (suc left) idx buf target =
    let entry = entry_of buf (idx * 32) in
    let rest = scan_entries left (idx + 1) buf target in
    if is_skipped (entry 0x0B)
    then rest
    else if entry 0 == 0
    then end_marker
    else if entry 0 == 0xE5
    then rest
    else elim (read_dir_entry_name entry) [
      | none ↦ rest
      | some name ↦ if name_matches name 0 target then hit idx else rest
    ]

-- `while cluster >= 2 && cluster < 0xFFFFFF8`
pub find_in_chain : ℕ → Volume → ℕ → List ℕ → (ℕ → ℕ) → M Disk (Option (ℕ × ℕ))
find_in_chain zero v cluster target buf = λ _. hang
find_in_chain (suc fuel) v cluster target buf =
    if in_chain cluster
    then (do
      buf' ← read_cluster v cluster buf
      elim (scan_entries (v.sectors_per_cluster * 16) 0 buf' target) [
        | hit idx ↦ pure (some (cluster, idx))
        | end_marker ↦ pure none
        | exhausted ↦ do next ← read_fat_entry v cluster; find_in_chain fuel v next target buf'
      ])
    else pure none

pub find_entry_in_dir : ℕ → Volume → ℕ → List ℕ → M Disk (Option (ℕ × ℕ))
find_entry_in_dir fuel v dir_cluster target = find_in_chain fuel v dir_cluster target (λ j. 0)

pub read_entry_data : Volume → ℕ → ℕ → M Disk Entry
read_entry_data v dir_cluster entry_idx = do
  buf ← read_cluster v dir_cluster (λ j. 0)
  pure (entry_of buf (entry_idx * 32))

abbrev pub start_cluster_of : Entry → ℕ
start_cluster_of entry = from_le32 (entry 0x1A) (entry 0x1B) (entry 0x14) (entry 0x15)

-- `path.trim_start_matches('/')` and `path.split('/')`
abbrev pub trim_slashes : List ℕ → List ℕ
trim_slashes [] = []
trim_slashes (c ∷ cs) = let rest = trim_slashes cs in if c == b'/' then rest else c ∷ cs

abbrev pub cons_head : ℕ → List (List ℕ) → List (List ℕ)
cons_head c [] = (c ∷ []) ∷ []
cons_head c (w ∷ ws) = (c ∷ w) ∷ ws

abbrev pub split_slashes : List ℕ → List (List ℕ)
split_slashes [] = [] ∷ []
split_slashes (c ∷ cs) =
    let rest = split_slashes cs in if c == b'/' then [] ∷ rest else cons_head c rest

-- The components of a path from the cluster `current` on; `last_name` is the loop's variable.
unfoldable pub resolve_from : ℕ → Volume → ℕ → List ℕ → List (List ℕ) → M Disk (ℕ × List ℕ)
resolve_from fuel v current last_name [] = pure (current, last_name)
resolve_from fuel v current last_name ([] ∷ rest) = resolve_from fuel v current last_name rest
resolve_from fuel v current last_name ((c ∷ name) ∷ []) = pure (current, c ∷ name)
resolve_from fuel v current last_name ((c ∷ name) ∷ w ∷ rest) = do
  found ← find_entry_in_dir fuel v current (c ∷ name)
  elim found [
    | none ↦ fail no_path
    | some (dir_cluster, idx) ↦ do
      entry ← read_entry_data v dir_cluster idx
      resolve_from fuel v (start_cluster_of entry) last_name (w ∷ rest)
  ]

-- From the root, of a path without slashes at its start.
abbrev pub resolve_trimmed : ℕ → Volume → List ℕ → M Disk (ℕ × List ℕ)
resolve_trimmed fuel v [] = pure (v.root_cluster, [])
resolve_trimmed fuel v (c ∷ cs) = resolve_from fuel v v.root_cluster [] (split_slashes (c ∷ cs))

unfoldable pub resolve_path : ℕ → Volume → List ℕ → M Disk (ℕ × List ℕ)
resolve_path fuel v path = resolve_trimmed fuel v (trim_slashes path)

-- `for off in (0..cluster_size).step_by(32)` up to a free or deleted entry.
pub scan_slot : ℕ → ℕ → (ℕ → ℕ) → Option ℕ
scan_slot zero off buf = none
scan_slot (suc left) off buf =
    let rest = scan_slot left (off + 32) buf in
    if (buf off == 0) || (buf off == 0xE5) then some off else rest

-- The loop that looks for a free slot: cluster, offset and the cluster's contents.
pub find_slot : ℕ → Volume → ℕ → M Disk (ℕ × ℕ × (ℕ → ℕ))
find_slot zero v slot_cluster = λ _. hang
find_slot (suc fuel) v slot_cluster = do
  buf ← read_cluster v slot_cluster (λ j. 0)
  elim (scan_slot (v.sectors_per_cluster * 16) 0 buf) [
    | some off ↦ pure (slot_cluster, off, buf)
    | none ↦ do
      next ← read_fat_entry v slot_cluster
      if leb end_of_chain next then fail disk_err else find_slot fuel v next
  ]

-- `name_bytes.iter().position(|&b| b == b'.')`
abbrev pub position : ℕ → ℕ → List ℕ → Option ℕ
position b i [] = none
position b i (c ∷ cs) = let rest = position b (i + 1) cs in if c == b then some i else rest

-- The eleven bytes of an 8.3 name: `fill(b' ')`, then the name and the extension are copied.
abbrev pub short_name : List ℕ → ℕ → ℕ
short_name name k = elim (position b'.' 0 name) [
  | none ↦ if ltb k (min (length name) 8) then get_or name k b' ' else b' '
  | some d ↦
      if ltb k (min d 8)
      then get_or name k b' '
      else if leb 8 k && ltb (k - 8) (min (d + 4) (length name) - d - 1)
      then get_or name (d + 1 + (k - 8)) b' '
      else b' '
]

abbrev pub put_name : (ℕ → ℕ) → ℕ → List ℕ → (ℕ → ℕ)
put_name buf off name =
    λ j. if leb off j && ltb j (off + 11) then short_name name (j - off) else buf j

-- `match_pattern_inner`: pattern bytes from `pi` on against the name from `ni` on.
-- `search` is the match of the rest of the pattern, tried at every position by a `*`.
abbrev pub star : (ℕ → Bool) → ℕ → ℕ → List ℕ → Bool
star search zero n name = search n
star search (suc left) n name =
    let rest = star search left (n + 1) name in
    if get_or name n 0 == 0 then search n else if search n then true else rest

pub match_pattern_inner : List ℕ → ℕ → List ℕ → Bool
match_pattern_inner name n [] = (get_or name n 0 == 0) || (get_or name n 0 == b' ')
match_pattern_inner name n (p ∷ pat) =
    let any = star (λ k. match_pattern_inner name k pat) (11 - n) n name in
    let rest = match_pattern_inner name (n + 1) pat in
    if p == b'*'
    then any
    else if p == b'?'
    then (if (get_or name n 0 == 0) || (get_or name n 0 == b' ') then false else rest)
    else if get_or name n 0 == p
    then rest
    else false

-- `match_pattern` runs the same loop from the start of the pattern's first `pat_len` bytes.
pub match_pattern : List ℕ → List ℕ → Bool
match_pattern name [] = true
match_pattern name (p ∷ pat) = match_pattern_inner name 0 (p ∷ pat)
