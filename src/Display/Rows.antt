-- ===== src/Display/Rows.antt =====
-- The scroll of the text screen in src/hal/display.rs.
use planck_os.Prelude.{
  ℕ, zero, suc, ◌+◌, ◌*◌, ◌≤◌, ◌<◌, ◌≡◌, ◌&&◌, ltb, leb, if◌then◌else◌, update, arith,
}
use planck_os.Display.{Screen, fill, raise, scroll_impl, entry, blank}

fill-at :
    (n from c : ℕ) (f : ℕ → ℕ) (j : ℕ)
    → fill n from c f j ≡ (if leb from j && ltb j (from + n) then c else f j)
unfolding fill
fill-at zero from c f j = ground arith
fill-at (suc n) from c f j = ground (arith, fill-at n (from + 1) c (update f from c) j)

raise-at :
    (n to : ℕ) (f : ℕ → ℕ) (j : ℕ)
    → raise n to f j ≡ (if leb to j && ltb j (to + n) then f (j + 80) else f j)
unfolding raise
raise-at zero to f j = ground arith
raise-at (suc n) to f j = ground (arith, raise-at n (to + 1) (update f to (f (to + 80))) j)

-- A scroll moves each of the rows 1 to 24 up by one, leaves row 24 blank, and changes no cell
-- behind the screen.
pub scroll_impl-rows :
    (d : Screen)
    → ((r k : ℕ)
        → r < 24
        → k < 80
        → (scroll_impl d).cells (r * 80 + k) ≡ d.cells ((r + 1) * 80 + k))
      × ((k : ℕ) → k < 80 → (scroll_impl d).cells (24 * 80 + k) ≡ entry b' ' 0x5F)
      × ((j : ℕ) → 25 * 80 ≤ j → (scroll_impl d).cells j ≡ d.cells j)
unfolding scroll_impl
scroll_impl-rows d =
    let filled = fill-at 80 1920 blank (raise 1920 0 d.cells) in
    let raised = raise-at 1920 0 d.cells in
    (
      λ r k h l. ground (arith, filled (r * 80 + k), raised (r * 80 + k)),
      λ k l. ground (arith, filled (24 * 80 + k)),
      λ j l. ground (arith, filled j, raised j),
    )
