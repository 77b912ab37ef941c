-- ===== src/Fat/Table/Chain.antt =====
-- The loop of `f_open` and `f_unlink` (src/hal/fat32.rs) that frees a chain of clusters.
use planck_os.Prelude.{
  ℕ, zero, suc, ◌%◌, ◌<◌, ◌≡◌, refl, ◌∙◌, ap, Bool, true, false, ◌||◌, ◌==◌, if◌then◌else◌, arith,
  eq→==, List, [], ◌∷◌, length, update_ne,
}
use planck_os.Fat.{Disk, Volume, ok, ◌>>◌, bind_ok}
use planck_os.Fat.Table.{read_fat_entry, write_fat_entry, free_chain, in_chain}
use planck_os.Fat.Table.Entry.{
  IsTable, IsReady, InTable, fat_at, read_fat_entry-ok, write_fat_entry-fat_at,
}

abbrev pub contains : ℕ → List ℕ → Bool
contains j [] = false
contains j (c ∷ cs) = (j == c) || contains j cs

-- In the table `f` the clusters `cs`, all different, follow one another from `clu` up to an entry
-- that ends the chain.
abbrev pub Chain : Volume → (ℕ → ℕ) → ℕ → List ℕ → Type 0
Chain v f clu [] = in_chain clu ≡ false
Chain v f clu (c ∷ cs) =
    (clu ≡ c) × (in_chain c ≡ true) × InTable v c × (contains c cs ≡ false) × Chain v f (f c) cs

Chain-InTable :
    (v : Volume) (f : ℕ → ℕ) (clu c : ℕ) (cs : List ℕ) → Chain v f clu (c ∷ cs) → InTable v c
Chain-InTable v f clu c cs h = h.2

-- A chain survives a change of the table outside it.
Chain-frame :
    (v : Volume) (f g : ℕ → ℕ) (clu : ℕ) (cs : List ℕ)
    → ((j : ℕ) → InTable v j → contains j cs ≡ true → g j ≡ f j)
    → Chain v f clu cs
    → Chain v g clu cs
Chain-frame v f g clu [] same h = h
Chain-frame v f g clu (c ∷ cs) same h =
    let at : g c ≡ f c = same c h.2 (rw (eq→== c c refl)) in
    (h.0, h.1, h.2, h.3, rw at (Chain-frame v f g (f c) cs (λ j k m. same j k (ground arith)) h.4))

zeroed :
    (j c : ℕ) (inside : Bool) (new old : ℕ) {end : ℕ}
    → end ≡ (if inside then 0 else new)
    → new ≡ (if j == c then 0 else old)
    → end ≡ (if (j == c) || inside then 0 else old)
zeroed j c true new old h k = ground arith
zeroed j c false new old h k = ground arith

-- On a volume with at least one copy of the table, whose tables lie below sector 2 ^ 31, have fewer
-- than 2 ^ 32 bytes each (so that four times a cluster's number does not wrap) and can be read and
-- written, freeing a chain of clusters of the table, all different, succeeds with any fuel of more rounds than the chain has
-- clusters. In the table just the entries of the chain have become zero.
pub free_chain-Chain :
    (v : Volume) (t : IsTable v) (fuel clu : ℕ) (cs : List ℕ) (d : Disk)
    → IsReady v d
    → length cs < fuel
    → Chain v (fat_at v d) clu cs
    → (d' : Disk) × (free_chain fuel v clu d ≡ ok tt d')
      × IsReady v d'
      × ((j : ℕ) → InTable v j → fat_at v d' j ≡ (if contains j cs then 0 else fat_at v d j))
unfolding free_chain
free_chain-Chain v t zero clu cs d r h chain = absurd (omega arith)
free_chain-Chain v t (suc fuel) clu [] d r h chain = (d, rw chain, r, λ j k. refl)
free_chain-Chain v t (suc fuel) clu (c ∷ cs) d r h chain =
    let read = read_fat_entry-ok v d c t r chain.2 in
    let (d1, wrote, r1, entries, _, _) = write_fat_entry-fat_at v d c 0 t r chain.2 in
    let rest =
      Chain-frame v (fat_at v d) (fat_at v d1) (fat_at v d c) cs
        (λ j k m.
          entries j k
          ∙ update_ne (fat_at v d) c j (0 % 268435456) (λ e. cc (ap (λ n. contains n cs) e)))
        chain.4 in
    let (d2, run, r2, after) =
      free_chain-Chain v t fuel (fat_at v d c) cs d1 r1 (omega arith) rest in
    (
      d2,
      rw (chain.0, chain.1)
          (bind_ok (read_fat_entry v c) (λ next. write_fat_entry v c 0 >> free_chain fuel v next) d
              read
            ∙ bind_ok (write_fat_entry v c 0) (λ _. free_chain fuel v (fat_at v d c)) d wrote
            ∙ run),
      r2,
      λ j k. zeroed j c (contains j cs) (fat_at v d1 j) (fat_at v d j) (after j k) (entries j k),
    )
