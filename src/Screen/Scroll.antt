-- ===== src/Screen/Scroll.antt =====
-- `scroll`: every row moves up by one.
use xanadu_os.Base.{
  ℕ, zero, suc, ◌+◌, ◌-◌, ◌^◌, ◌≤◌, ◌<◌, ◌≡◌, ◌∙◌, refl, ap, arith, ◌&&◌, ltb, leb, if◌then◌else◌,
}
use xanadu_os.Base.Memory.{write, update}
use xanadu_os.Screen.{
  Screen, no_pixel, write_fb, move_up, blank_cells, scroll, set_fb_pos, fb_clear, clear_loop,
}

move_up-cells :
    (rounds i : ℕ) (s : Screen) (k : ℕ)
    → 80 ≤ i
    → let s' = move_up rounds i s in
      (s'.frame_buf k ≡ (
        if leb i (k + 80) && ltb (k + 80) (i + rounds)
        then s.frame_buf (k + 80)
        else s.frame_buf k))
      × (s'.attrs k
          ≡ (if leb i (k + 80) && ltb (k + 80) (i + rounds) then s.attrs (k + 80) else s.attrs k))
      × (s'.fb_pos ≡ s.fb_pos)
unfolding move_up write_fb write
move_up-cells zero i s k h = (ground arith, ground arith, refl)
move_up-cells (suc n) i s k h =
    let s1 = write_fb (i - 80) (s.frame_buf i) s in
    let (cells, attrs, pos) =
      move_up-cells n (i + 1) (record s1 { attrs = write s1.attrs (i - 80) (s1.attrs i) }) k
        (omega arith) in
    (cells ∙ ground arith, attrs ∙ ground arith, pos)

blank_cells-cells :
    (rounds i : ℕ) (s : Screen) (k : ℕ)
    → let s' = blank_cells rounds i s in
      (s'.frame_buf k ≡ (if leb i k && ltb k (i + rounds) then no_pixel else s.frame_buf k))
      × (s'.attrs k ≡ (if leb i k && ltb k (i + rounds) then 0 else s.attrs k))
      × (s'.fb_pos ≡ s.fb_pos)
unfolding blank_cells write_fb write
blank_cells-cells zero i s k = (ground arith, ground arith, refl)
blank_cells-cells (suc n) i s k =
    let s1 = write_fb i no_pixel s in
    let (cells, attrs, pos) =
      blank_cells-cells n (i + 1) (record s1 { attrs = write s1.attrs i 0 }) k in
    (cells ∙ ground arith, attrs ∙ ground arith, pos)

module _ {ℓ} {A : Type ℓ} where
  -- The rows of the two loops of `scroll`, and the cells of `fb_clear`.
  rows :
      (k : ℕ) (above own blank : A)
      → (if leb 1920 k && ltb k (1920 + 80)
          then blank
          else (if leb 80 (k + 80) && ltb (k + 80) (80 + 1920) then above else own))
        ≡ (if ltb k 1920 then above else if ltb k 2000 then blank else own)
  rows k above own blank = ground arith

  all_rows :
      (k : ℕ) (own blank : A)
      → (if leb 0 k && ltb k (0 + 2000) then blank else own) ≡ (if ltb k 2000 then blank else own)
  all_rows k own blank = ground arith

-- After `scroll` each row but the last shows what the row below it showed, with its attributes, the
-- last row is empty and may be deleted, no cell behind the screen changes, and a position on the
-- second row or below stays on its text.
pub scroll_lem :
    (s : Screen) (k : ℕ)
    → let s' = scroll s in
      (s'.frame_buf k ≡ (
        if ltb k 1920
        then s.frame_buf (k + 80)
        else if ltb k 2000
        then no_pixel
        else s.frame_buf k))
      × (s'.attrs k
          ≡ (if ltb k 1920 then s.attrs (k + 80) else if ltb k 2000 then 0 else s.attrs k))
      × (80 ≤ s.fb_pos → s.fb_pos < 2 ^ 16 → s'.fb_pos + 80 ≡ s.fb_pos)
unfolding scroll set_fb_pos
scroll_lem s k =
    let moved = move_up 1920 80 s in
    let (cells, attrs, pos) = move_up-cells 1920 80 s k (omega arith) in
    let (cells', attrs', pos') = blank_cells-cells 80 1920 moved k in
    (
      cells'
          ∙ ap (λ t. if leb 1920 k && ltb k (1920 + 80) then no_pixel else t) cells
          ∙ rows k (s.frame_buf (k + 80)) (s.frame_buf k) no_pixel,
      attrs'
          ∙ ap (λ t. if leb 1920 k && ltb k (1920 + 80) then 0 else t) attrs
          ∙ rows k (s.attrs (k + 80)) (s.attrs k) 0,
      λ h l. omega (arith, pos, pos'),
    )

clear_loop-cells :
    (rounds i : ℕ) (s : Screen) (k : ℕ)
    → let s' = clear_loop rounds i s in
      (s'.frame_buf k ≡ (if leb i k && ltb k (i + rounds) then no_pixel else s.frame_buf k))
      × (s'.attrs k ≡ (if leb i k && ltb k (i + rounds) then 0 else s.attrs k))
      × (s'.fb_out k ≡ (if leb i k && ltb k (i + rounds) then 0 else s.fb_out k))
unfolding clear_loop write
clear_loop-cells zero i s k = (ground arith, ground arith, ground arith)
clear_loop-cells (suc n) i s k =
    let (cells, attrs, out) =
      clear_loop-cells n (i + 1)
        (record s {
          frame_buf = update s.frame_buf i no_pixel;
          attrs = write s.attrs i 0;
          fb_out = write s.fb_out i 0;
        })
        k in
    (cells ∙ ground arith, attrs ∙ ground arith, out ∙ ground arith)

-- `fb_clear` empties the cells of the screen, their attributes and the copy of the text, and no
-- others, and moves to the first cell.
pub fb_clear_lem :
    (s : Screen) (k : ℕ)
    → let s' = fb_clear s in
      (s'.frame_buf k ≡ (if ltb k 2000 then no_pixel else s.frame_buf k))
      × (s'.attrs k ≡ (if ltb k 2000 then 0 else s.attrs k))
      × (s'.fb_out k ≡ (if ltb k 2000 then 0 else s.fb_out k))
      × (s'.fb_pos ≡ 0)
unfolding fb_clear
fb_clear_lem s k =
    let (cells, attrs, out) = clear_loop-cells 2000 0 s k in
    (
      cells ∙ all_rows k (s.frame_buf k) no_pixel,
      attrs ∙ all_rows k (s.attrs k) 0,
      out ∙ all_rows k (s.fb_out k) 0,
      refl,
    )
