-- ===== src/Applets.antt =====
-- The applets under src/applets that work on files: `ls`, `rm`, `mk`, `cp` and `out`. They call the
-- file system through the interface FileSystem, over a state of the caller's choice, and print to a
-- display. An argument is the list of its bytes.
pub mod Ls
pub mod Cp
pub mod Out
pub mod Rm
pub mod Mk
pub mod OnFat
pub mod Reports
mod Tests
use planck_os.Fat.{M, Run, ok, err, hang, FError}
use planck_os.Fat.Entries.{FileInfo}
use planck_os.Prelude.{
  bind, ℕ, Bool, Option, none, some, List, [], ◌∷◌, ◌++◌, ◌&&◌, ◌||◌, not, ◌/◌, ◌%◌, suc,
  if◌then◌else◌, get_or, ◌==◌, ltb, length,
}

-- `arg.starts_with('-') && arg.len() > 1`, and `arg[1..]`
abbrev pub is_option : List ℕ → Bool
is_option [] = ltb 1 0
is_option (c ∷ cs) = (c == b'-') && ltb 0 (length cs)

abbrev pub letters : List ℕ → List ℕ
letters [] = []
letters (c ∷ cs) = cs

module _ {Flags : Type 0} (letter : ℕ → Flags → Option Flags) where
  -- The letters of one option; `none` is "invalid option".
  pub set_flags : List ℕ → Flags → Option Flags
  set_flags [] flags = some flags
  set_flags (c ∷ cs) flags = bind (letter c flags) (set_flags cs)

  -- The loop over the arguments, the paths so far in `paths`.
  pub read_args : List (List ℕ) → List (List ℕ) → Flags → Option (List (List ℕ) × Flags)
  read_args [] paths flags = some (paths, flags)
  read_args (arg ∷ args) paths flags =
      let more = read_args args (paths ++ (arg ∷ [])) flags in
      if is_option arg then bind (set_flags (letters arg) flags) (read_args args paths) else more

-- `info.attributes & 0x10 != 0`
abbrev pub is_dir : FileInfo → Bool
is_dir info = not (info.attributes / 16 % 2 == 0)

-- What the applets call of src/hal/fat32.rs, over disks `S`. A directory's or a file's object is
-- next to the disk where a call changes it. `f_read` gives the bytes that it has read. `f_close`
-- and `f_closedir` do nothing and are left out.
pub record FileSystem (S File Dir : Type 0) : Type 0 where
  pub f_stat : List ℕ → M S FileInfo
  pub f_opendir : List ℕ → M S Dir
  pub f_readdir : M (S × Dir) (Option (List ℕ))
  pub f_unlink : List ℕ → M S (Unit {0})
  pub f_mkdir : List ℕ → M S (Unit {0})
  pub f_open : List ℕ → ℕ → M S File
  pub f_read : ℕ → M (S × File) (List ℕ)
  pub f_write : List ℕ → M (S × File) ℕ
  pub f_sync : M (S × File) (Unit {0})
  pub f_lseek : ℕ → M (S × File) (Unit {0})
  pub f_size : File → ℕ

-- The disk, and what has been printed.
pub record Console (S : Type 0) : Type 0 where
  pub disk : S
  pub out : List ℕ

abbrev pub print : {S : Type 0} → List ℕ → Console S → Console S
print bytes c = record c { out = c.out ++ bytes }

-- `name[0] == b'.' && (name[1] == 0 || (name[1] == b'.' && name[2] == 0))`
abbrev pub is_dots : List ℕ → Bool
is_dots name =
    (get_or name 0 0 == b'.')
    && ((get_or name 1 0 == 0) || ((get_or name 1 0 == b'.') && (get_or name 2 0 == 0)))

-- `from_utf8(&name).unwrap_or("?")`
abbrev pub text_of : (List ℕ → Bool) → List ℕ → List ℕ
text_of utf8 name = if utf8 name then name else b'?' ∷ []

-- `s.find('\0').unwrap_or(s.len())`
pub text_end : List ℕ → ℕ
text_end [] = 0
text_end (c ∷ cs) = let rest = text_end cs in if c == 0 then 0 else suc rest

-- The value of a call that ends, and the state that it leaves; what an error leaves, and its result
-- then.
pub or_else : {S A B : Type 0} → Run S A → (A → S → Option B) → (FError → S → Option B) → Option B
or_else (ok a s) f g = f a s
or_else (err e s) f g = g e s
or_else hang f g = none

-- A child's path, and whether it fits the 256 bytes of the buffer.
abbrev pub child_path : List ℕ → List ℕ → List ℕ
child_path path name = path ++ (b'/' ∷ name)

abbrev pub is_short : List ℕ → Bool
is_short path = ltb (length path) 256
