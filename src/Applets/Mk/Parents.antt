-- ===== src/Applets/Mk/Parents.antt =====
-- The parents that `mk` of src/applets/mk/mod.rs goes on to.
use planck_os.Prelude.{
  bind, ℕ, zero, suc, ◌+◌, ◌≤◌, ◌<◌, ◌≡◌, ◌≢◌, refl, ap, Bool, true, false, ◌&&◌, Option, none,
  some, ◌==◌, if◌then◌else◌, List, [], ◌∷◌, length, take, arith, inl, inr, Bool-cases,
}
use planck_os.Prelude.{length-take}
use planck_os.Fat.{Run, FError, ok, err, hang}
use planck_os.Fat.Transfer.{fa_write, fa_create_new}
use planck_os.Applets.{FileSystem, Console, or_else}
use planck_os.Applets.Mk.{
  trim_end, ends_with_slash, rfind_slash, parent_path, is_no_path, is_exists, again, with_parent,
  create_dir, create_file, create_path,
}

trim_end-le : (xs : List ℕ) → length (trim_end xs) ≤ length xs
unfolding trim_end
trim_end-le [] = omega arith
trim_end-le (c ∷ cs) = kept c cs (trim_end cs) (trim_end-le cs)
  where
    kept :
        (c : ℕ) (cs t : List ℕ)
        → length t ≤ length cs
        → length (elim t [ [] ↦ if c == b'/' then [] else c ∷ [] | d ∷ ds ↦ c ∷ d ∷ ds ])
          ≤ length (c ∷ cs)
    kept c cs [] h = elim (Bool-cases (c == b'/')) [
      | inl e ↦ rw e (omega arith)
      | inr e ↦ rw e (omega arith)
    ]
    kept c cs (d ∷ ds) h = omega arith

-- A slash that is found is within the path.
Within : ℕ → Option ℕ → Type 0
Within n none = Unit
Within n (some i) = i < n

rfind_slash-Within : (xs : List ℕ) → Within (length xs) (rfind_slash xs)
unfolding rfind_slash Within
rfind_slash-Within [] = tt
rfind_slash-Within (c ∷ cs) = found c cs (rfind_slash cs) (rfind_slash-Within cs)
  where
    found :
        (c : ℕ) (cs : List ℕ) (o : Option ℕ)
        → Within (length cs) o
        → Within
            (length (c ∷ cs))
            (elim o [ some i ↦ some (suc i) | none ↦ if c == b'/' then some 0 else none ])
    found c cs none h = elim (Bool-cases (c == b'/')) [
      | inl e ↦ rw e (omega arith)
      | inr e ↦ rw e tt
    ]
    found c cs (some i) h = omega (arith, h)

root-trimmed : trim_end (b'/' ∷ []) ≡ []
unfolding trim_end
root-trimmed = refl

Shorter : ℕ → Option (List ℕ) → Type 0
Shorter n none = Unit
Shorter n (some q) = length (trim_end q) < n

parent-Shorter :
    (path t : List ℕ) (o : Option ℕ)
    → Within (length t) o
    → length t ≤ length path
    → Shorter (length path) (bind o (λ pos. some (if pos == 0 then b'/' ∷ [] else take pos t)))
unfolding Shorter Within
parent-Shorter path t none w h = tt
parent-Shorter path t (some pos) w h = elim (Bool-cases (pos == 0)) [
  | inl e ↦
      let empty : length (trim_end (b'/' ∷ [])) ≡ 0 =
        ap (λ (xs : List ℕ). length xs) root-trimmed in
      rw e (omega (arith, w, h, empty))
  | inr e ↦ rw e (omega (arith, w, h, trim_end-le (take pos t), length-take pos t))
]

parent_path-Shorter : (path : List ℕ) → Shorter (length path) (parent_path path)
unfolding parent_path
parent_path-Shorter path =
    parent-Shorter path (trim_end path) (rfind_slash (trim_end path))
      (rfind_slash-Within (trim_end path)) (trim_end-le path)

or_else_total :
    {S A B : Type 0} (r : Run S A) (f : A → S → Option B) (g : FError → S → Option B)
    → r ≢ hang
    → ((a : A) (s : S) → f a s ≢ none)
    → ((e : FError) (s : S) → g e s ≢ none)
    → or_else r f g ≢ none
unfolding or_else
or_else_total (ok a s) f g h hf hg = hf a s
or_else_total (err e s) f g h hf hg = hg e s
or_else_total hang f g h hf hg = absurd (h refl)

if_total :
    {A : Type 0} (b : Bool) (x y : Option A) → x ≢ none → y ≢ none → (if b then x else y) ≢ none
if_total true x y h k = h
if_total false x y h k = k

bind_total :
    {A B : Type 0} (o : Option A) (f : A → Option B)
    → o ≢ none
    → ((a : A) → f a ≢ none)
    → bind o f ≢ none
bind_total none f h k = absurd (h refl)
bind_total (some a) f h k = k a

some_total : {A : Type 0} (a : A) → ◌≢◌ {A = Option A} (some a) none
some_total a = cc

module _ {S File Dir : Type 0} (fs : FileSystem S File Dir)
    (stats : (path : List ℕ) (d : S) → fs.f_stat path d ≢ hang)
    (mkdirs : (path : List ℕ) (d : S) → fs.f_mkdir path d ≢ hang)
    (opens : (path : List ℕ) (flags : ℕ) (d : S) → fs.f_open path flags d ≢ hang) where
  again_total :
      {A : Type 0} (m : S → Run S A) (c : Console S) → ((d : S) → m d ≢ hang) → again fs m c ≢ none
  again_total m c h =
      or_else_total (m c.disk) (λ a disk. some (record c { disk = disk }))
        (λ e disk. some (record c { disk = disk })) (h c.disk)
        (λ a s. some_total (record c { disk = s })) (λ e s. some_total (record c { disk = s }))

  -- The parent is made within the fuel.
  Makes : (List ℕ → Console S → Option (Console S)) → ℕ → Type 0
  Makes make n = (p : List ℕ) (c : Console S) → length (trim_end p) < n → make p c ≢ none

  parent_total :
      {A : Type 0} (make : List ℕ → Console S → Option (Console S)) (m : S → Run S A) (n : ℕ)
      (c : Console S) (o : Option (List ℕ))
      → Shorter n o
      → Makes make n
      → ((d : S) → m d ≢ hang)
      → ◌≢◌ {A = Option (Console S)}
          (elim o [ none ↦ some c | some parent ↦ bind (make parent c) (again fs m) ])
          none
  unfolding Shorter Makes
  parent_total make m n c none w h k = some_total c
  parent_total make m n c (some parent) w h k =
      bind_total (make parent c) (again fs m) (h parent c w) (λ d. again_total m d k)

  with_parent_total :
      {A : Type 0} (make : List ℕ → Console S → Option (Console S)) (m : S → Run S A)
      (path : List ℕ) (c : Console S)
      → Makes make (length path)
      → ((d : S) → m d ≢ hang)
      → with_parent fs make m path c ≢ none
  with_parent_total make m path c h k =
      parent_total make m (length path) c (parent_path path) (parent_path-Shorter path) h k

  create_dir_total :
      (make : List ℕ → Console S → Option (Console S)) (parents : Bool) (path : List ℕ)
      (c : Console S)
      → Makes make (length path)
      → create_dir fs make parents path c ≢ none
  create_dir_total make parents path c h =
      or_else_total (fs.f_mkdir path c.disk) (λ u disk. some (record c { disk = disk })) _
        (mkdirs path c.disk) (λ u s. some_total (record c { disk = s }))
        (λ e s.
          if_total (is_no_path e && parents) _ _
            (with_parent_total make (fs.f_mkdir path) path (record c { disk = s }) h (mkdirs path))
            (some_total _))

  create_file_total :
      (make : List ℕ → Console S → Option (Console S)) (parents : Bool) (path : List ℕ)
      (c : Console S)
      → Makes make (length path)
      → create_file fs make parents path c ≢ none
  create_file_total make parents path c h =
      or_else_total (fs.f_open path (fa_write + fa_create_new) c.disk)
        (λ f disk. some (record c { disk = disk })) _ (opens path (fa_write + fa_create_new) c.disk)
        (λ f s. some_total (record c { disk = s }))
        (λ e s. if_total (is_exists e) _ _ (some_total (record c { disk = s })) (
          if_total (is_no_path e && parents) _ _
            (with_parent_total make (fs.f_open path (fa_write + fa_create_new)) path
              (record c { disk = s }) h (opens path (fa_write + fa_create_new)))
            (some_total _)))

  -- Where `f_stat`, `f_mkdir` and `f_open` end, `create_path` returns for every path, with more
  -- fuel than the path has bytes but the slashes at its end, with and without `-p`: each parent
  -- that it goes on to is shorter.
  pub create_path_total :
      (fuel : ℕ) (path : List ℕ) (parents : Bool) (c : Console S)
      → length (trim_end path) < fuel
      → create_path fs fuel path parents c ≢ none
  unfolding create_path Makes
  create_path_total zero path parents c h = absurd (omega arith)
  create_path_total (suc fuel) path parents c h =
      let t = trim_end path in
      let makes = λ (p : List ℕ) (k : Console S) (l : length (trim_end p) < length t).
        create_path_total fuel p true k (omega arith) in
      if_total (length t == 0) _ _ (some_total c) (
        if_total (ends_with_slash path) _ _
          (or_else_total (fs.f_stat t c.disk) _ _ (stats t c.disk) (λ info s. some_total _)
            (λ e s. create_dir_total _ parents t (record c { disk = s }) makes))
          (create_file_total _ parents t c makes))
