-- ===== src/Framebuffer/Cell.antt =====
-- What drawCharAt does to a pixel of a cell of the screen.
use native.Mathlib.Nat.{mul-le-mul_right}
use dvnetos.Base.{
  ℕ, ◌+◌, ◌-◌, ◌*◌, ◌/◌, ◌^◌, ◌≤◌, ◌<◌, ◌≡◌, refl, ◌∙◌, ap, inl, inr, arith, Bool, true, false,
  ◌&&◌, ◌==◌, if◌then◌else◌, Bool-cases,
}
use dvnetos.Console.{Console}
use dvnetos.Framebuffer.{Psf2, Framebuffer, word32, color, draw_char_at, glyph_of, bytes_per_line}
use dvnetos.Framebuffer.Pixels.{within, same_row, draw_char_at-pixel}

and-true : (b : Bool) → (b && true) ≡ b
and-true true = refl
and-true false = refl

pub and-false : (b : Bool) → (b && false) ≡ false
and-false true = refl
and-false false = refl

-- A point of cell `row` lies in cell `y` exactly if they are the same cell.
same_cell_of : (n y row d : ℕ) → d < n → within (y * n) n (row * n + d) ≡ (row == y)
same_cell_of n y row d inside =
    let start : y * n ≡ y * n + 0 = omega arith in
    let there : within 0 n d ≡ true = ground arith in
    ap (λ a. within a n (row * n + d)) start
    ∙ same_row n 0 n y row d inside (omega arith)
    ∙ ap (λ b. row == y && b) there
    ∙ and-true (row == y)

module _ (font : Psf2) (font_data : ℕ → ℕ) (char_signed : Bool) (stride : ℕ) (c : Console) where
  -- What the pixel `dx`, `dy` of a cell shows for a character.
  abbrev pub lit : (ch dx dy : ℕ) → ℕ
  lit ch dx dy =
      color
        (font_data
          (glyph_of font font_data char_signed ch + dy * bytes_per_line font font_data char_signed))
        (word32 (2 ^ (font.width - 1)) / 2 ^ dx)

  -- The place of a pixel of a cell.
  abbrev pub pixel_of : (row col dx dy : ℕ) → ℕ
  pixel_of row col dx dy = (row * font.height + dy) * stride + (col * font.width + dx)

  -- The screen has room for the lines, and its bytes are counted with 32 bits.
  pub record HasRoom : Type 0 where
    pub across : c.line_length * font.width ≤ stride
    pub narrow : stride < 2 ^ 32
    pub down : c.line_count * font.height < 2 ^ 32
    pub bytes : c.line_count * font.height * (4 * stride) < 2 ^ 32

module _ (font : Psf2) (font_data : ℕ → ℕ) (char_signed : Bool) (stride : ℕ) (c : Console)
    (room : HasRoom font font_data char_signed stride c) (row col dx dy : ℕ)
    (on_row : row < c.line_count) (on_line : col < c.line_length) (across : dx < font.width)
    (down : dy < font.height) where
  abbrev place : ℕ
  place = pixel_of font font_data char_signed stride c row col dx dy

  abbrev shown : ℕ → ℕ
  shown ch = lit font font_data char_signed stride c ch dx dy

  offset : (n d a b : ℕ) → a ≡ b → a * n + d - b * n ≡ d
  offset n d a b same = ap (λ k. k * n + d - b * n) same ∙ omega arith

  in_cell :
      (f : Framebuffer) (ch x y : ℕ)
      → (if within (y * font.height) font.height (row * font.height + dy)
            && within (x * font.width) font.width (col * font.width + dx)
          then color
              (font_data (
                glyph_of font font_data char_signed ch
                + (row * font.height + dy - y * font.height)
                  * bytes_per_line font font_data char_signed))
              (word32 (2 ^ (font.width - 1)) / 2 ^ (col * font.width + dx - x * font.width))
          else f.fb place)
        ≡ (if row == y && col == x then shown ch else f.fb place)
  in_cell f ch x y =
      rw (same_cell_of font.height y row dy down, same_cell_of font.width x col dx across)
        (elim (Bool-cases (row == y && col == x)) [
          | inl hit ↦
              let same_row_there : row ≡ y = ground (arith, hit) in
              let same_col_there : col ≡ x = ground (arith, hit) in
              rw
                (
                  hit,
                  offset font.height dy row y same_row_there,
                  offset font.width dx col x same_col_there,
                )
                refl
          | inr other ↦ rw other refl
        ])

  pub draw_cell :
      (f : Framebuffer) (ch x y : ℕ)
      → f.pitch ≡ 4 * stride
      → x < c.line_length
      → y < c.line_count
      → (draw_char_at font font_data char_signed f ch
            (word32 (x * font.width))
            (word32 (y * font.height))).fb
          place
        ≡ (if row == y && col == x then shown ch else f.fb place)
  draw_cell f ch x y pitch lx ly =
      let wide : (x + 1) * font.width ≤ c.line_length * font.width =
        mul-le-mul_right font.width (omega arith) in
      let wide' : (col + 1) * font.width ≤ c.line_length * font.width =
        mul-le-mul_right font.width (omega arith) in
      let high : (y + 1) * font.height ≤ c.line_count * font.height =
        mul-le-mul_right font.height (omega arith) in
      let more : (x + 1) * font.width ≡ x * font.width + font.width = omega arith in
      let more' : (col + 1) * font.width ≡ col * font.width + font.width = omega arith in
      let more'' : (y + 1) * font.height ≡ y * font.height + font.height = omega arith in
      let x32 : word32 (x * font.width) ≡ x * font.width =
        omega (arith, wide, more, room.across, room.narrow) in
      let y32 : word32 (y * font.height) ≡ y * font.height =
        omega (arith, high, more'', room.down) in
      let bytes : (y * font.height + font.height) * (4 * stride)
          ≤ c.line_count * font.height * (4 * stride) =
        mul-le-mul_right (4 * stride) (omega (arith, high, more'')) in
      rw (x32, y32)
        (draw_char_at-pixel font font_data char_signed stride (x * font.width)
            (omega (arith, wide, more, room.across)) f ch (y * font.height) (row * font.height + dy)
            (col * font.width + dx) pitch (omega (arith, wide', more', room.across, across))
            (omega (arith, bytes, room.bytes)) (omega (arith, high, more'', room.down))
          ∙ in_cell f ch x y)
