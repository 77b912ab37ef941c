-- ===== src/Fat/Entries/Opening.antt =====
-- Which directory `f_opendir` of src/hal/fat32.rs opens.
use planck_os.Prelude.{
  or_false, ℕ, ◌≡◌, refl, ap, ◌∙◌, Bool, false, ◌||◌, some, ◌==◌, List, [], ◌∷◌,
}
use planck_os.Fat.{Disk, Volume, ok, pure, bind_ok}
use planck_os.Fat.Directory.{trim_slashes, split_slashes, cons_head, resolve_trimmed}
unfoldable use planck_os.Fat.Directory.{resolve_from, resolve_path}
use planck_os.Fat.Entries.{Dir, f_opendir}

abbrev pub has_slash : List ℕ → Bool
has_slash [] = false
has_slash (c ∷ cs) = (c == b'/') || has_slash cs

-- The directory object of the cluster, at its start.
abbrev pub dir_at : ℕ → Dir
dir_at cluster = record {
  start_cluster = cluster;
  current_cluster = cluster;
  sector_in_cluster = 0;
  entry_index = 0;
  ended = false;
  pattern = [];
}

split_slashes-name :
    (c : ℕ) (cs : List ℕ) → has_slash (c ∷ cs) ≡ false → split_slashes (c ∷ cs) ≡ (c ∷ cs) ∷ []
split_slashes-name c [] h = rw ((or_false (c == b'/') (has_slash []) h).0) refl
split_slashes-name c (d ∷ ds) h =
    let (here, later) = or_false (c == b'/') (has_slash (d ∷ ds)) h in
    rw here (ap (cons_head c) (split_slashes-name d ds later))

trim_slashes-name :
    (c : ℕ) (cs : List ℕ) → has_slash (c ∷ cs) ≡ false → trim_slashes (c ∷ cs) ≡ c ∷ cs
trim_slashes-name c cs h = rw ((or_false (c == b'/') (has_slash cs) h).0) refl

resolve_path-name :
    (fuel : ℕ) (v : Volume) (c : ℕ) (cs : List ℕ) (d : Disk)
    → has_slash (c ∷ cs) ≡ false
    → resolve_path fuel v (c ∷ cs) d ≡ ok (v.root_cluster, c ∷ cs) d
unfolding resolve_path resolve_from
resolve_path-name fuel v c cs d h =
    ap (λ p. resolve_trimmed fuel v p d) (trim_slashes-name c cs h)
    ∙ ap (λ ws. resolve_from fuel v v.root_cluster [] ws d) (split_slashes-name c cs h)

-- On every disk, a path of one name without a slash makes `f_opendir` open the root directory,
-- whatever the name is and whether or not there is an entry of this name: the last name of a path
-- is not followed.
pub f_opendir-name :
    (fuel : ℕ) (v : Volume) (c : ℕ) (cs : List ℕ) (d : Disk)
    → has_slash (c ∷ cs) ≡ false
    → f_opendir fuel (some v) (c ∷ cs) d ≡ ok (dir_at v.root_cluster) d
unfolding f_opendir
f_opendir-name fuel v c cs d h =
    bind_ok (resolve_path fuel v (c ∷ cs)) (λ x. pure (dir_at (x.0))) d
      (resolve_path-name fuel v c cs d h)
