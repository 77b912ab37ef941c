-- ===== src/Applets/Rm.antt =====
-- The applet `rm` of src/applets/rm/mod.rs. `fuel` bounds the entries of a directory; `none` is
-- lack of fuel, or an operation that does not end.
use planck_os.Prelude.{
  bind, ℕ, zero, suc, Bool, true, false, not, ◌||◌, Option, none, some, ◌==◌, if◌then◌else◌, List,
  [], ◌∷◌, ◌++◌, length, take,
}
use planck_os.Prelude.{codes}
use planck_os.Fat.{FError, no_file, ok, err, hang}
use planck_os.Applets.{
  read_args, is_dir, is_dots, FileSystem, Console, print, text_of, text_end, or_else, child_path,
  is_short,
}

-- `recursive` and `force`
pub record RmFlags : Type 0 where
  pub recursive : Bool
  pub force : Bool

abbrev pub set_flag : ℕ → RmFlags → Option RmFlags
set_flag c flags =
    if c == b'r'
    then some (record flags { recursive = true })
    else if c == b'f'
    then some (record flags { force = true })
    else none

abbrev pub parse_args : List (List ℕ) → Option (List (List ℕ) × RmFlags)
parse_args args = read_args set_flag args [] (record { recursive = false; force = false })

abbrev pub cannot_remove : List ℕ → List ℕ → List ℕ
cannot_remove path why = codes "rm: cannot remove '" ++ (path ++ why)

-- What the error of `f_unlink` prints.
abbrev pub unlink_message : Bool → List ℕ → FError → List ℕ
unlink_message force path no_file =
    if force then [] else cannot_remove path (codes "': No such file or directory\n")
unlink_message force path e = cannot_remove path (codes "'\n")

module _ {S File Dir : Type 0} (fs : FileSystem S File Dir) (utf8 : List ℕ → Bool) (fuel : ℕ) where
  -- One name of a directory, removed by `child` unless it is skipped.
  pub remove_entry :
      (List ℕ → Console S → Option (Console S)) → List ℕ → List ℕ → Console S → Option (Console S)
  remove_entry child path name c =
      let end = text_end (text_of utf8 name) in
      let sub = child_path path (take end name) in
      let removed = child (text_of utf8 sub) c in
      if is_dots name || (end == 0) then some c else if not (is_short sub) then some c else removed

  pub remove_entries :
      (List ℕ → Console S → Option (Console S))
      → Bool
      → ℕ
      → List ℕ
      → Dir
      → Console S
      → Option (Console S)
  remove_entries child force zero path dir c = none
  remove_entries child force (suc left) path dir c = elim (fs.f_readdir (c.disk, dir)) [
    | ok o at ↦ elim o [
      | none ↦ some (record c { disk = at.0 })
      | some name ↦
          bind (remove_entry child path name (record c { disk = at.0 }))
            (remove_entries child force left path (at.1))
    ]
    | err e at ↦ some (
        print (if force then [] else codes "rm: error reading directory\n")
          (record c { disk = at.0 }))
    | hang ↦ none
  ]

  -- "Delete the file or (now-empty) directory".
  abbrev pub unlink : Bool → List ℕ → Console S → Option (Console S)
  unlink force path c =
      or_else (fs.f_unlink path c.disk) (λ u disk. some (record c { disk = disk }))
        (λ e disk. some (print (unlink_message force path e) (record c { disk = disk })))

  abbrev pub remove_dir :
      (List ℕ → Console S → Option (Console S)) → Bool → List ℕ → Console S → Option (Console S)
  remove_dir child force path c =
      or_else (fs.f_opendir path c.disk)
        (λ dir disk.
          bind (remove_entries child force fuel path dir (record c { disk = disk }))
            (unlink force path))
        (λ e disk. some (
          print (if force then [] else codes "rm: cannot open directory '" ++ (path ++ codes "'\n"))
            (record c { disk = disk })))

  -- `depth` bounds the nesting of directories.
  pub remove_path : ℕ → RmFlags → List ℕ → Console S → Option (Console S)
  remove_path zero flags path c = none
  remove_path (suc depth) flags path c =
      let child = λ (p : List ℕ) (k : Console S). remove_path depth flags p k in
      or_else (fs.f_stat path c.disk)
        (λ info disk.
          let here : Console S = record c { disk = disk } in
          let emptied = remove_dir child flags.force path here in
          if not (is_dir info)
          then unlink flags.force path here
          else if not flags.recursive
          then some (print (cannot_remove path (codes "': Is a directory\n")) here)
          else emptied)
        (λ e disk. some (
          print
            (if flags.force
              then []
              else cannot_remove path (codes "': No such file or directory\n"))
            (record c { disk = disk })))

  pub remove_all : ℕ → RmFlags → List (List ℕ) → Console S → Option (Console S)
  remove_all depth flags [] c = some c
  remove_all depth flags (path ∷ paths) c =
      bind (remove_path depth flags path c) (remove_all depth flags paths)

  pub run : ℕ → List (List ℕ) → Console S → Option (Console S)
  run depth args c = elim (parse_args args) [
    | none ↦ some (print (codes "rm: invalid option\n") c)
    | some (paths, flags) ↦
        let done = remove_all depth flags paths c in
        if length paths == 0 then some (print (codes "rm: missing operand\n") c) else done
  ]
