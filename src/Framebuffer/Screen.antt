-- ===== src/Framebuffer/Screen.antt =====
-- The pixels of the whole screen behind updateScreen.

use dvnetos.Base.{
  ℕ, zero, suc, ◌+◌, ◌-◌, ◌*◌, ◌≤◌, ◌<◌, ◌≡◌, refl, ◌∙◌, sym, ap, inl, inr, arith, Bool, true,
  false, ◌&&◌, ltb, ◌==◌, if◌then◌else◌, Bool-cases,
}
use dvnetos.Console.{Console, buffer_size}
use dvnetos.Console.Cursor.{cell}
use dvnetos.Framebuffer.{
  Psf2, Framebuffer, word32, draw_char_at, update_column, update_columns, update_screen,
}
use dvnetos.Framebuffer.Pixels.{within}
use dvnetos.Framebuffer.Cell.{and-false, lit, pixel_of, HasRoom, draw_cell}
use dvnetos.Console.Sheet.{Sheet, Shows}

module _ (font : Psf2) (font_data : ℕ → ℕ) (char_signed : Bool) (stride : ℕ) (c : Console)
    (room : HasRoom font font_data char_signed stride c) (row col dx dy : ℕ)
    (on_row : row < c.line_count) (on_line : col < c.line_length) (across : dx < font.width)
    (down : dy < font.height) where
  abbrev place : ℕ
  place = pixel_of font font_data char_signed stride c row col dx dy

  abbrev shown : ℕ → ℕ
  shown ch = lit font font_data char_signed stride c ch dx dy

  abbrev char_of : (row col : ℕ) → ℕ
  char_of r l = c.memory (c.buffer + (r * c.line_length + l))

  -- The rounds from `y` on are the round `y` and those behind it.
  rounds_join :
      (k x y old : ℕ)
      → (if within (y + 1) k row && col == x
          then shown (char_of row col)
          else if row == y && col == x
          then shown (char_of y x)
          else old)
        ≡ (if within y (suc k) row && col == x then shown (char_of row col) else old)
  rounds_join k x y old = elim (Bool-cases (col == x)) [
    | inl same ↦ elim (Bool-cases (within (y + 1) k row)) [
      | inl behind ↦
          let also : within y (suc k) row ≡ true = ground (arith, behind) in
          rw (same, behind, also) refl
      | inr elsewhere ↦ elim (Bool-cases (row == y)) [
        | inl here ↦
            let also : within y (suc k) row ≡ true = ground (arith, here) in
            let row_is : row ≡ y = ground (arith, here) in
            let col_is : col ≡ x = ground (arith, same) in
            let char : char_of y x ≡ char_of row col =
              ap (λ r. char_of r x) (sym row_is) ∙ ap (char_of row) (sym col_is) in
            rw (same, elsewhere, here, also) (ap shown char)
        | inr out ↦
            let also : within y (suc k) row ≡ false = ground (arith, elsewhere, out) in
            rw (same, elsewhere, out, also) refl
      ]
    ]
    | inr other ↦
        rw
          (
            other,
            and-false (within (y + 1) k row),
            and-false (row == y),
            and-false (within y (suc k) row),
          )
          refl
  ]

  same_pitch :
      (f : Framebuffer) (ch a b : ℕ)
      → (draw_char_at font font_data char_signed f ch a b).pitch ≡ f.pitch
  unfolding draw_char_at
  same_pitch f ch a b = refl

  -- The rounds of the loop over `y` from `y` on.
  column-pixel :
      (k x y : ℕ) (f : Framebuffer)
      → f.pitch ≡ 4 * stride
      → x < c.line_length
      → y + k ≤ c.line_count
      → c.line_length * c.line_count ≤ buffer_size
      → ((update_column font font_data char_signed k c x y f).fb place ≡ (
          if within y k row && col == x
          then shown (c.memory (c.buffer + (row * c.line_length + col)))
          else f.fb place))
        × ((update_column font font_data char_signed k c x y f).pitch ≡ 4 * stride)
  unfolding update_column
  column-pixel zero x y f pitch lx ly fits = (ground arith, pitch)
  column-pixel (suc k) x y f pitch lx ly fits =
      let inside : ltb (y * c.line_length + x) buffer_size ≡ true =
        ground (arith, cell x y c.line_length c.line_count lx (omega arith)) in
      let drawn =
        draw_char_at font font_data char_signed f (char_of y x) (word32 (x * font.width))
          (word32 (y * font.height)) in
      let pitch' =
        same_pitch f (char_of y x) (word32 (x * font.width)) (word32 (y * font.height)) ∙ pitch in
      let (pixel, kept) = column-pixel k x (y + 1) drawn pitch' lx (omega arith) fits in
      let step : update_column font font_data char_signed (suc k) c x y f
          ≡ update_column font font_data char_signed k c x (y + 1) drawn =
        ap (λ b. update_column font font_data char_signed k c x (y + 1) (if b then drawn else f))
          inside in
      (
        ap (λ g. g.fb place) step
            ∙ pixel
            ∙ ap (λ v. if within (y + 1) k row && col == x then shown (char_of row col) else v)
                (draw_cell font font_data char_signed stride c room row col dx dy on_row on_line
                  across down f (char_of y x) x y pitch lx (omega arith))
            ∙ rounds_join k x y (f.fb place),
        ap (λ g. g.pitch) step ∙ kept,
      )

  -- The rounds of the loop over `x` from `x` on.
  columns-pixel :
      (k x : ℕ) (f : Framebuffer)
      → f.pitch ≡ 4 * stride
      → x + k ≤ c.line_length
      → c.line_length * c.line_count ≤ buffer_size
      → (update_columns font font_data char_signed k c x f).fb place
        ≡ (if within x k col then shown (char_of row col) else f.fb place)
  unfolding update_columns
  columns-pixel zero x f pitch lx fits = ground arith
  columns-pixel (suc k) x f pitch lx fits =
      let (pixel, kept) = column-pixel c.line_count x 0 f pitch (omega arith) (omega arith) fits in
      let whole : within 0 c.line_count row ≡ true = ground arith in
      columns-pixel k (x + 1) (update_column font font_data char_signed c.line_count c x 0 f) kept
        (omega arith) fits
      ∙ ap (λ v. if within (x + 1) k col then shown (char_of row col) else v)
          (pixel ∙ rw whole refl)
      ∙ columns_join k x (f.fb place)
    where
      columns_join :
          (k x old : ℕ)
          → (if within (x + 1) k col
              then shown (char_of row col)
              else if col == x
              then shown (char_of row col)
              else old)
            ≡ (if within x (suc k) col then shown (char_of row col) else old)
      columns_join k x old = elim (Bool-cases (within (x + 1) k col)) [
        | inl behind ↦
            let also : within x (suc k) col ≡ true = ground (arith, behind) in
            rw (behind, also) refl
        | inr elsewhere ↦ elim (Bool-cases (col == x)) [
          | inl here ↦
              let also : within x (suc k) col ≡ true = ground (arith, here) in
              rw (elsewhere, here, also) refl
          | inr out ↦
              let also : within x (suc k) col ≡ false = ground (arith, elsewhere, out) in
              rw (elsewhere, out, also) refl
        ]
      ]

  -- The same for the character that the buffer has for a cell.
  pub update_screen-pixel :
      (f : Framebuffer)
      → f.pitch ≡ 4 * stride
      → c.init_complete ≡ true
      → c.line_length * c.line_count ≤ buffer_size
      → (update_screen font font_data char_signed c f).fb place
        ≡ shown (c.memory (c.buffer + (row * c.line_length + col)))
  unfolding update_screen
  update_screen-pixel f pitch complete fits =
      let whole : within 0 c.line_length col ≡ true = ground arith in
      let drawn = update_columns font font_data char_signed c.line_length c 0 f in
      ap (λ b. (if b then drawn else f).fb place) complete
      ∙ columns-pixel c.line_length 0 f pitch (omega arith) fits
      ∙ rw whole refl

  -- updateScreen of a console that shows the end of a sheet: each pixel of the rectangle of a cell shows
  -- the bit of the glyph of the character that the sheet has there, whatever was on the framebuffer, where
  -- the lines fit in the buffer and on the framebuffer, with `stride` pixels to a line and its bytes
  -- counted with 32 bits.
  pub update_screen-Shows :
      (f : Framebuffer) (s : Sheet)
      → Shows c s
      → f.pitch ≡ 4 * stride
      → c.init_complete ≡ true
      → c.line_length * c.line_count ≤ buffer_size
      → (update_screen font font_data char_signed c f).fb place
        ≡ lit font font_data char_signed stride c (s.line (s.y - c.cursor_y + row) col) dx dy
  update_screen-Shows f s shows pitch complete fits =
      update_screen-pixel f pitch complete fits
      ∙ ap shown (shows.pictures.cells row col on_row on_line)
