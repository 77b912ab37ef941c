-- ===== src/Applets/Ls.antt =====
-- The applet `ls` of src/applets/ls/mod.rs: its options, the order of the entries, and the two
-- layouts. A name is the list of the 13 bytes of its array, and `utf8` the library's test of UTF-8.
pub mod Order
pub mod Sort
pub mod Layout
use planck_os.Prelude.{
  bind, ℕ, zero, suc, ◌+◌, Bool, true, false, not, ◌&&◌, Option, none, some, ◌==◌, ltb, leb,
  if◌then◌else◌, update, List, [], ◌∷◌, ◌++◌, length, take,
}
use Prim.Native.Nat.{compare, Ordering}
use planck_os.Prelude.{codes, replicate}
use planck_os.Fat.{ok, err, hang}
use planck_os.Fat.Entries.{FileInfo}
use planck_os.Applets.{read_args, FileSystem, Console, print, is_dots, is_dir, text_of, text_end}

pub record LsFlags : Type 0 where
  pub long : Bool
  pub all : Bool
  pub sort_size : Bool
  pub reverse : Bool

abbrev pub no_flags : LsFlags
no_flags = record { long = false; all = false; sort_size = false; reverse = false }

pub record LsEntry : Type 0 where
  pub name : List ℕ
  pub size : ℕ
  pub is_dir : Bool

abbrev pub max_entries : ℕ
max_entries = 256

abbrev pub width : ℕ
width = 80

-- One letter of an option; `none` is "invalid option".
abbrev pub set_flag : ℕ → LsFlags → Option LsFlags
set_flag c flags =
    if c == b'l'
    then some (record flags { long = true })
    else if c == b'a'
    then some (record flags { all = true })
    else if c == b'S'
    then some (record flags { sort_size = true })
    else if c == b'r'
    then some (record flags { reverse = true })
    else none

abbrev pub or_root : List (List ℕ) → List (List ℕ)
or_root [] = (b'/' ∷ []) ∷ []
or_root (path ∷ paths) = path ∷ paths

pub parse_ls_args : List (List ℕ) → Option (List (List ℕ) × LsFlags)
parse_ls_args args = bind (read_args set_flag args [] no_flags) (λ r. some (or_root (r.0), r.1))

-- `trim_end_matches('\0')`
pub trim_nuls : List ℕ → List ℕ
trim_nuls [] = []
trim_nuls (c ∷ cs) = elim (trim_nuls cs) [
  | [] ↦ if c == 0 then [] else c ∷ []
  | d ∷ ds ↦ c ∷ d ∷ ds
]

-- `a.iter().zip(b).find(|(x, y)| x != y)`
pub first_difference : List ℕ → List ℕ → Option (ℕ × ℕ)
first_difference [] bs = none
first_difference (a ∷ xs) [] = none
first_difference (a ∷ xs) (b ∷ bs) =
    let rest = first_difference xs bs in if a == b then rest else some (a, b)

-- `.map(|(x, y)| x.cmp(y)).unwrap_or(o)`
abbrev pub ordering_or : Option (ℕ × ℕ) → Ordering → Ordering
ordering_or none o = o
ordering_or (some (x, y)) o = compare x y

pub cmp : List ℕ → List ℕ → Ordering
cmp a b = ordering_or (first_difference a b) (compare (length a) (length b))

abbrev pub is_lt : Ordering → Bool
is_lt o = elim o [ Ordering.lt ↦ true | _ ↦ false ]

abbrev pub is_gt : Ordering → Bool
is_gt o = elim o [ Ordering.gt ↦ true | _ ↦ false ]

abbrev pub sort_key : (List ℕ → Bool) → LsEntry → List ℕ
sort_key utf8 e = trim_nuls (text_of utf8 e.name)

-- Whether the entries `a` and `b`, in this order, are exchanged.
abbrev pub swap : (List ℕ → Bool) → LsFlags → LsEntry → LsEntry → Bool
swap utf8 flags a b =
    if flags.sort_size
    then (if flags.reverse then ltb a.size b.size else ltb b.size a.size)
    else if flags.reverse
    then is_gt (cmp (sort_key utf8 a) (sort_key utf8 b))
    else is_lt (cmp (sort_key utf8 a) (sort_key utf8 b))

-- `indices.swap(i, j)`
abbrev pub swap_at : (ℕ → ℕ) → ℕ → ℕ → (ℕ → ℕ)
swap_at indices i j = update (update indices i (indices j)) j (indices i)

-- `for j in j..j + left`
pub sort_row : (ℕ → ℕ → Bool) → ℕ → ℕ → ℕ → (ℕ → ℕ) → (ℕ → ℕ)
sort_row swaps zero j i indices = indices
sort_row swaps (suc left) j i indices =
    sort_row swaps left (j + 1) i
      (if swaps (indices i) (indices j) then swap_at indices i j else indices)

-- `for i in i..i + left`, where `i + left` is the number of the entries.
pub sort_from : (ℕ → ℕ → Bool) → ℕ → ℕ → (ℕ → ℕ) → (ℕ → ℕ)
sort_from swaps zero i indices = indices
sort_from swaps (suc left) i indices =
    sort_from swaps left (i + 1) (sort_row swaps left (i + 1) i indices)

abbrev pub swaps_of : (List ℕ → Bool) → LsFlags → (ℕ → LsEntry) → ℕ → ℕ → Bool
swaps_of utf8 flags entries i j = swap utf8 flags (entries i) (entries j)

-- The order in which `list_dir` prints `count` entries.
pub sort_entries : (List ℕ → Bool) → LsFlags → (ℕ → LsEntry) → ℕ → (ℕ → ℕ)
sort_entries utf8 flags entries count = sort_from (swaps_of utf8 flags entries) count 0 (λ i. i)

-- What `list_dir` has read so far: `entries[..count]`, next to the disk, the directory and the
-- output.
pub record Listing (S Dir : Type 0) : Type 0 where
  pub at : S × Dir
  pub entries : ℕ → LsEntry
  pub count : ℕ
  pub out : List ℕ

-- A round of the loop goes on, leaves it or does not end.
pub data Turn (S Dir : Type 0) : Type 0 where
  next : Listing S Dir → Turn S Dir
  last : Listing S Dir → Turn S Dir
  stuck : Turn S Dir

-- `entries[count] = ...; count += 1` with what `f_stat` says of the name under the root.
abbrev pub add_entry : {S Dir : Type 0} → List ℕ → ℕ → Bool → S → Listing S Dir → Turn S Dir
add_entry name size dir disk l = next (record l {
  at = (disk, l.at.1);
  entries = update l.entries l.count (record { name = name; size = size; is_dir = dir });
  count = l.count + 1;
})

module _ {S File Dir : Type 0} (fs : FileSystem S File Dir) (utf8 : List ℕ → Bool) where
  pub read_name : List ℕ → Listing S Dir → Turn S Dir
  read_name name l =
      let end = text_end (text_of utf8 name) in
      let entry_name = take 13 (take end name ++ replicate 13 0) in
      if leb max_entries l.count
      then last (record l { out = l.out ++ codes "ls: too many entries\n" })
      else if end == 0
      then next l
      else elim (fs.f_stat (text_of utf8 (b'/' ∷ take end entry_name)) (l.at.0)) [
        | ok info disk ↦ add_entry entry_name info.size (is_dir info) disk l
        | err e disk ↦ add_entry entry_name 0 false disk l
        | hang ↦ stuck
      ]

  pub turn : Bool → Listing S Dir → Turn S Dir
  turn all l = elim (fs.f_readdir l.at) [
    | ok o at ↦ elim o [
      | none ↦ last (record l { at = at })
      | some name ↦
          if not all && is_dots name
          then next (record l { at = at })
          else read_name name (record l { at = at })
    ]
    | err e at ↦ last (record l { at = at; out = l.out ++ codes "ls: error reading directory\n" })
    | hang ↦ stuck
  ]

  -- `none` is a loop that has not ended within `fuel` rounds.
  pub read_entries : ℕ → Bool → Listing S Dir → Option (Listing S Dir)
  read_entries zero all l = none
  read_entries (suc fuel) all l = elim (turn all l) [
    | next l' ↦ read_entries fuel all l'
    | last l' ↦ some l'
    | stuck ↦ none
  ]

-- The length of the text that is printed for a name, and that text.
abbrev pub name_end : (List ℕ → Bool) → LsEntry → ℕ
name_end utf8 e = text_end (text_of utf8 e.name)

abbrev pub shown_name : (List ℕ → Bool) → LsEntry → List ℕ
shown_name utf8 e = take (name_end utf8 e) (text_of utf8 e.name)
