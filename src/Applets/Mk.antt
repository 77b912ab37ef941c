-- ===== src/Applets/Mk.antt =====
-- The applet `mk` of src/applets/mk/mod.rs. `none` is lack of fuel, or an operation that does not
-- end.
pub mod Parents
use planck_os.Prelude.{
  bind, ℕ, zero, suc, ◌+◌, Bool, true, false, not, ◌&&◌, Option, none, some, ◌==◌, if◌then◌else◌,
  List, [], ◌∷◌, ◌++◌, length, take,
}
use planck_os.Prelude.{codes}
use planck_os.Fat.{Run, FError, no_path, exists, disk_err, invalid, mkfs_aborted, ok, err, hang}
use planck_os.Fat.Transfer.{fa_write, fa_create_new}
use planck_os.Applets.{read_args, is_dir, FileSystem, Console, print, or_else}

abbrev pub set_flag : ℕ → Bool → Option Bool
set_flag c parents = if c == b'p' then some true else none

abbrev pub parse_args : List (List ℕ) → Option (List (List ℕ) × Bool)
parse_args args = read_args set_flag args [] false

-- The texts of `show_err`.
abbrev pub reason : FError → List ℕ
reason disk_err = codes "Disk error"
reason exists = codes "File exists"
reason no_path = codes "No such path"
reason invalid = codes "Invalid name"
reason mkfs_aborted = codes "Out of clusters"
reason e = codes "Unknown error"

abbrev pub is_no_path : FError → Bool
is_no_path no_path = true
is_no_path e = false

abbrev pub is_exists : FError → Bool
is_exists exists = true
is_exists e = false

abbrev pub show_err : {S : Type 0} → List ℕ → List ℕ → FError → Console S → Console S
show_err path label e c =
    print
      (codes "mk: cannot create "
        ++ (label ++ (codes " '" ++ (path ++ (codes "': " ++ (reason e ++ codes "\n"))))))
      c

-- `path.trim_end_matches('/')`
unfoldable pub trim_end : List ℕ → List ℕ
trim_end [] = []
trim_end (c ∷ cs) = elim (trim_end cs) [
  | [] ↦ if c == b'/' then [] else c ∷ []
  | d ∷ ds ↦ c ∷ d ∷ ds
]

-- `path.ends_with('/')`
abbrev pub ends_with_slash : List ℕ → Bool
ends_with_slash path = not (length (trim_end path) == length path)

-- `trimmed.rfind('/')`
pub rfind_slash : List ℕ → Option ℕ
rfind_slash [] = none
rfind_slash (c ∷ cs) = elim (rfind_slash cs) [
  | some i ↦ some (suc i)
  | none ↦ if c == b'/' then some 0 else none
]

pub parent_path : List ℕ → Option (List ℕ)
parent_path path =
    bind (rfind_slash (trim_end path))
      (λ pos. some (if pos == 0 then b'/' ∷ [] else take pos (trim_end path)))

module _ {S File Dir : Type 0} (fs : FileSystem S File Dir) where
  -- The second try, whose result is not looked at.
  abbrev pub again : {A : Type 0} → (S → Run S A) → Console S → Option (Console S)
  again m c =
      or_else (m c.disk) (λ a disk. some (record c { disk = disk }))
        (λ e disk. some (record c { disk = disk }))

  -- The parent by `make`, then once more.
  abbrev pub with_parent :
      {A : Type 0}
      → (List ℕ → Console S → Option (Console S))
      → (S → Run S A)
      → List ℕ
      → Console S
      → Option (Console S)
  with_parent make m path c = elim (parent_path path) [
    | none ↦ some c
    | some parent ↦ bind (make parent c) (again m)
  ]

  abbrev pub create_dir :
      (List ℕ → Console S → Option (Console S)) → Bool → List ℕ → Console S → Option (Console S)
  create_dir make parents path c =
      let again_c =
        λ (disk : S). with_parent make (fs.f_mkdir path) path (record c { disk = disk }) in
      or_else (fs.f_mkdir path c.disk) (λ u disk. some (record c { disk = disk }))
        (λ e disk.
          let shown = some (show_err path (codes "directory") e (record c { disk = disk })) in
          if is_no_path e && parents then again_c disk else shown)

  abbrev pub create_file :
      (List ℕ → Console S → Option (Console S)) → Bool → List ℕ → Console S → Option (Console S)
  create_file make parents path c =
      let again_c = λ (disk : S).
        with_parent make (fs.f_open path (fa_write + fa_create_new)) path
          (record c { disk = disk }) in
      or_else (fs.f_open path (fa_write + fa_create_new) c.disk)
        (λ f disk. some (record c { disk = disk }))
        (λ e disk.
          let shown = some (show_err path (codes "file") e (record c { disk = disk })) in
          if is_exists e
          then some (record c { disk = disk })
          else if is_no_path e && parents
          then again_c disk
          else shown)

  -- `fuel` bounds the parents.
  pub create_path : ℕ → List ℕ → Bool → Console S → Option (Console S)
  create_path zero path parents c = none
  create_path (suc fuel) path parents c =
      let make = λ (p : List ℕ) (k : Console S). create_path fuel p true k in
      let trimmed = trim_end path in
      let dir =
        or_else (fs.f_stat trimmed c.disk)
          (λ info disk.
            let here : Console S = record c { disk = disk } in
            some (if is_dir info then here else show_err trimmed (codes "directory") exists here))
          (λ e disk. create_dir make parents trimmed (record c { disk = disk })) in
      let file = create_file make parents trimmed c in
      if length trimmed == 0 then some c else if ends_with_slash path then dir else file

  pub create_all : ℕ → List (List ℕ) → Bool → Console S → Option (Console S)
  create_all fuel [] parents c = some c
  create_all fuel (path ∷ paths) parents c =
      bind (create_path fuel path parents c) (create_all fuel paths parents)

  pub run : ℕ → List (List ℕ) → Console S → Option (Console S)
  run fuel args c = elim (parse_args args) [
    | none ↦ some (print (codes "mk: invalid option\n") c)
    | some (paths, parents) ↦
        let done = create_all fuel paths parents c in
        if length paths == 0 then some (print (codes "mk: missing operand\n") c) else done
  ]
