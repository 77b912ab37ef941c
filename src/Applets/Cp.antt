-- ===== src/Applets/Cp.antt =====
-- The applet `cp` of src/applets/cp/mod.rs. `fuel` bounds the depth of the directories, the entries
-- of each and the blocks of a file; `none` is lack of it, or an operation that does not end.
pub mod Copied
pub mod Transferred
use planck_os.Prelude.{
  bind, ℕ, zero, suc, ◌+◌, ◌⊎◌, Bool, true, false, not, ◌&&◌, ◌||◌, Option, none, some, ◌==◌, ltb,
  if◌then◌else◌, List, [], ◌∷◌, ◌++◌, length, take, inl, inr,
}
use planck_os.Prelude.{codes}
use planck_os.Fat.{Run, FError, exists, ok, err, hang}
use planck_os.Fat.Transfer.{fa_read, fa_write, fa_create_new}
use planck_os.Applets.{
  read_args, is_dir, is_dots, FileSystem, Console, print, text_of, text_end, or_else, child_path,
  is_short,
}

abbrev pub buf_size : ℕ
buf_size = 512

abbrev pub set_flag : ℕ → Bool → Option Bool
set_flag c recursive = if c == b'r' then some true else none

-- `all[..all.len() - 1]` and `all[all.len() - 1]`, of at least two.
pub split_last : List ℕ → List (List ℕ) → List (List ℕ) × List ℕ
split_last a [] = ([], a)
split_last a (b ∷ bs) = let rest = split_last b bs in (a ∷ rest.0, rest.1)

-- The sources, the destination and the flag, or the message of an error.
abbrev pub operands : List (List ℕ) × Bool → List ℕ ⊎ (List (List ℕ) × List ℕ × Bool)
operands ([], r) = inl (codes "missing file operand")
operands (a ∷ [], r) = inl (codes "missing file operand")
operands (a ∷ b ∷ bs, r) = let split = split_last a (b ∷ bs) in inr (split.0, split.1, r)

pub parse_args : List (List ℕ) → List ℕ ⊎ (List (List ℕ) × List ℕ × Bool)
parse_args args = elim (read_args set_flag args [] false) [
  | none ↦ inl (codes "invalid option")
  | some r ↦ operands r
]

-- The disk, the two files and the output of the loop that copies.
pub record Copying (S File : Type 0) : Type 0 where
  pub disk : S
  pub src : File
  pub dst : File
  pub out : List ℕ

pub data Turn (S File : Type 0) : Type 0 where
  next : Copying S File → Turn S File
  last : Copying S File → Turn S File
  stuck : Turn S File

-- The kind of an error of `f_open` for the destination.
abbrev pub open_message : FError → List ℕ
open_message exists = codes "': File exists\n"
open_message e = codes "'\n"

module _ {S File Dir : Type 0} (fs : FileSystem S File Dir) where
  -- The block has been written, `written` bytes of it.
  abbrev pub after_write : ℕ → ℕ → Copying S File → Turn S File
  after_write read written c =
      if ltb written read
      then last (record c { out = c.out ++ codes "cp: write error\n" })
      else next c

  abbrev pub written_block : Run (S × File) ℕ → ℕ → Copying S File → Turn S File
  written_block (ok written at) read c =
      after_write read written (record c { disk = at.0; dst = at.1 })
  written_block (err e at) read c = after_write read 0 (record c { disk = at.0; dst = at.1 })
  written_block hang read c = stuck

  pub write_block : List ℕ → Copying S File → Turn S File
  write_block [] c = last c
  write_block (b ∷ bs) c = written_block (fs.f_write (b ∷ bs) (c.disk, c.dst)) (length (b ∷ bs)) c

  -- A read that fails counts as one of no bytes.
  abbrev pub read_block : Run (S × File) (List ℕ) → Copying S File → Turn S File
  read_block (ok bytes at) c = write_block bytes (record c { disk = at.0; src = at.1 })
  read_block (err e at) c = write_block [] (record c { disk = at.0; src = at.1 })
  read_block hang c = stuck

  -- A round of the loop.
  pub turn : Copying S File → Turn S File
  turn c = read_block (fs.f_read buf_size (c.disk, c.src)) c

  abbrev pub go_on :
      (Copying S File → Option (Copying S File)) → Turn S File → Option (Copying S File)
  go_on loop (next c) = loop c
  go_on loop (last c) = some c
  go_on loop stuck = none

  pub copy_loop : ℕ → Copying S File → Option (Copying S File)
  copy_loop zero c = none
  copy_loop (suc fuel) c = go_on (copy_loop fuel) (turn c)

  -- Both files are open.
  abbrev pub copy_data : ℕ → File → File → Console S → Option (Console S)
  copy_data fuel src_file dst_file c =
      bind (copy_loop fuel (record { disk = c.disk; src = src_file; dst = dst_file; out = c.out }))
        (λ d.
          or_else (fs.f_sync (d.disk, d.dst)) (λ u at. some (record { disk = at.0; out = d.out }))
            (λ e at. some (record { disk = at.0; out = d.out })))

  pub copy_file : ℕ → List ℕ → List ℕ → Console S → Option (Console S)
  copy_file fuel src dst c =
      or_else (fs.f_open src fa_read c.disk)
        (λ src_file disk.
          or_else (fs.f_open dst (fa_write + fa_create_new) disk)
            (λ dst_file disk'. copy_data fuel src_file dst_file (record c { disk = disk' }))
            (λ e disk'. some (
              print (codes "cp: cannot create '" ++ (dst ++ open_message e))
                (record c { disk = disk' }))))
        (λ e disk.
          some
            (print (codes "cp: cannot open '" ++ (src ++ codes "'\n")) (record c { disk = disk })))

  module _ (utf8 : List ℕ → Bool) (fuel : ℕ) where
    -- One name of the source's directory, copied by `child` unless it is skipped.
    pub copy_entry :
        (List ℕ → List ℕ → Console S → Option (Console S))
        → List ℕ
        → List ℕ
        → List ℕ
        → Console S
        → Option (Console S)
    copy_entry child src dst name c =
        let end = text_end (text_of utf8 name) in
        let child_src = child_path src (take end name) in
        let child_dst = child_path dst (take end name) in
        let copied = child (text_of utf8 child_src) (text_of utf8 child_dst) c in
        if is_dots name || (end == 0)
        then some c
        else if not (is_short child_src && is_short child_dst)
        then some c
        else copied

    pub copy_entries :
        (List ℕ → List ℕ → Console S → Option (Console S))
        → ℕ
        → List ℕ
        → List ℕ
        → Dir
        → Console S
        → Option (Console S)
    copy_entries child zero src dst dir c = none
    copy_entries child (suc left) src dst dir c = elim (fs.f_readdir (c.disk, dir)) [
      | ok o at ↦ elim o [
        | none ↦ some (record c { disk = at.0 })
        | some name ↦
            bind (copy_entry child src dst name (record c { disk = at.0 }))
              (copy_entries child left src dst (at.1))
      ]
      | err e at ↦ some (print (codes "cp: error reading directory\n") (record c { disk = at.0 }))
      | hang ↦ none
    ]

    abbrev pub copy_dir :
        (List ℕ → List ℕ → Console S → Option (Console S))
        → List ℕ
        → List ℕ
        → Console S
        → Option (Console S)
    copy_dir child src dst c =
        or_else (fs.f_opendir src c.disk)
          (λ dir disk. copy_entries child fuel src dst dir (record c { disk = disk }))
          (λ e disk. some (
            print (codes "cp: cannot open directory '" ++ (src ++ codes "'\n"))
              (record c { disk = disk })))

    -- `depth` bounds the nesting of directories.
    pub copy_path : ℕ → Bool → List ℕ → List ℕ → Console S → Option (Console S)
    copy_path zero recursive src dst c = none
    copy_path (suc depth) recursive src dst c =
        let child = λ (s : List ℕ) (d : List ℕ) (k : Console S). copy_path depth recursive s d k in
        or_else (fs.f_stat src c.disk)
          (λ info disk.
            let here : Console S = record c { disk = disk } in
            let made =
              or_else (fs.f_mkdir dst disk)
                (λ u disk'. copy_dir child src dst (record c { disk = disk' }))
                (λ e disk'. copy_dir child src dst (record c { disk = disk' })) in
            if not (is_dir info)
            then copy_file fuel src dst here
            else if not recursive
            then some (print (codes "cp: omitting directory '" ++ (src ++ codes "'\n")) here)
            else made)
          (λ e disk. some (
            print (codes "cp: cannot stat '" ++ (src ++ codes "': No such file or directory\n"))
              (record c { disk = disk })))

    pub copy_all : ℕ → Bool → List (List ℕ) → List ℕ → Console S → Option (Console S)
    copy_all depth recursive [] dst c = some c
    copy_all depth recursive (src ∷ srcs) dst c =
        bind (copy_path depth recursive src dst c) (copy_all depth recursive srcs dst)

    -- There are sources; an empty destination is a missing one.
    pub run : ℕ → List (List ℕ) → Console S → Option (Console S)
    run depth args c = elim (parse_args args) [
      | inl message ↦ some (print (codes "cp: " ++ (message ++ codes "\n")) c)
      | inr (srcs, dst, recursive) ↦
          let done = copy_all depth recursive srcs dst c in
          if length dst == 0 then some (print (codes "cp: missing file operand\n") c) else done
    ]
