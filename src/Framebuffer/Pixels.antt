-- ===== src/Framebuffer/Pixels.antt =====
-- The pixels that a character changes.
use native.Mathlib.Nat.{mul-le-mul_right, div-div-eq-div-mul, pow-succ'}
use dvnetos.Base.{
  ℕ, zero, suc, ◌+◌, ◌-◌, ◌*◌, ◌/◌, ◌^◌, ◌≤◌, ◌<◌, ◌≡◌, ◌⊎◌, refl, ◌∙◌, sym, ap, inl, inr, arith,
  Bool, true, false, ◌&&◌, ltb, leb, ◌==◌, if◌then◌else◌, Bool-cases,
}
use dvnetos.Framebuffer.{
  Psf2, Framebuffer, Pixels, word32, set_pixel, color, draw_row, draw_rows, draw_char_at, glyph_of,
  bytes_per_line,
}

-- Whether `q` is one of the `n` numbers from `a` on.
abbrev pub within : ℕ → ℕ → ℕ → Bool
within a n q = leb a q && ltb q (a + n)

halves : (mask j : ℕ) → mask / 2 / 2 ^ j ≡ mask / 2 ^ suc j
halves mask j = div-div-eq-div-mul mask 2 (2 ^ j) ∙ ap (λ d. mask / d) (sym (pow-succ' 2 j))

-- A row of a glyph: the pixel at `line + j` shows the bit of the mask shifted `j` times.
draw_row-pixel :
    (k : ℕ) (fb : Pixels) (line mask byte q : ℕ)
    → line + k < 2 ^ 32
    → draw_row k fb line mask byte q
      ≡ (if within line k q then color byte (mask / 2 ^ (q - line)) else fb q)
unfolding draw_row
draw_row-pixel zero fb line mask byte q h = ground arith
draw_row-pixel (suc k) fb line mask byte q h =
    let next : word32 (line + 1) ≡ line + 1 = omega arith in
    rw next (
      draw_row-pixel k (set_pixel fb line (color byte mask)) (line + 1) (mask / 2) byte q
        (omega arith)
      ∙ at_first_or_later (Bool-cases (q == line)))
  where
    at_first_or_later :
        ((q == line) ≡ true) ⊎ ((q == line) ≡ false)
        → (if within (line + 1) k q
            then color byte (mask / 2 / 2 ^ (q - (line + 1)))
            else set_pixel fb line (color byte mask) q)
          ≡ (if within line (suc k) q then color byte (mask / 2 ^ (q - line)) else fb q)
    at_first_or_later (inl here) =
        let none_before : q - line ≡ 0 = ground arith in
        let whole : mask / 1 ≡ mask = omega arith in rw (none_before, whole) (ground arith)
    at_first_or_later (inr later) = elim (Bool-cases (within (line + 1) k q)) [
      | inl inside ↦
          let one_less : q - line ≡ suc (q - (line + 1)) = ground arith in
          let also : within line (suc k) q ≡ true = ground arith in
          rw (inside, also, one_less) (ap (λ m. color byte m) (halves mask (q - (line + 1))))
      | inr outside ↦
          let also : within line (suc k) q ≡ false = ground arith in rw (outside, also, later) refl
    ]

-- Where pixel `q` of row `py` lies in row `y`.
pub same_row :
    (stride x w y py px : ℕ)
    → px < stride
    → x + w ≤ stride
    → within (y * stride + x) w (py * stride + px) ≡ (py == y && within x w px)
same_row stride x w y py px inside fits = elim (split py y) [
  | inl here ↦ rw here (ground arith)
  | inr (inl before) ↦
      let less : (py + 1) * stride ≤ y * stride = mul-le-mul_right stride before in
      let one_more : (py + 1) * stride ≡ py * stride + stride = omega arith in
      ground (arith, less, one_more)
  | inr (inr behind) ↦
      let less : (y + 1) * stride ≤ py * stride = mul-le-mul_right stride behind in
      let one_more : (y + 1) * stride ≡ y * stride + stride = omega arith in
      ground (arith, less, one_more)
]
  where
    split : (a b : ℕ) → (a ≡ b) ⊎ ((a + 1 ≤ b) ⊎ (b + 1 ≤ a))
    split a b = elim (Bool-cases (a == b)) [
      | inl here ↦ inl (ground (arith, here))
      | inr elsewhere ↦ elim (Bool-cases (ltb a b)) [
        | inl before ↦ inr (inl (ground (arith, before)))
        | inr behind ↦ inr (inr (ground (arith, elsewhere, behind)))
      ]
    ]

module _ (font : Psf2) (font_data : ℕ → ℕ) (char_signed : Bool) (stride x : ℕ)
    (fits : x + font.width ≤ stride) where
  abbrev bpl : ℕ
  bpl = bytes_per_line font font_data char_signed

  abbrev mask : ℕ
  mask = word32 (2 ^ (font.width - 1))

  line-sum : (y : ℕ) → y * (4 * stride) < 2 ^ 32 → word32 (y * (4 * stride)) / 4 ≡ y * stride
  line-sum y h =
      let swapped : y * (4 * stride) ≡ 4 * (y * stride) = omega arith in omega (arith, h, swapped)

  row-pixel :
      (fb : Pixels) (y byte py px : ℕ)
      → px < stride
      → y * stride + stride < 2 ^ 32
      → draw_row font.width fb (y * stride + x) mask byte (py * stride + px) ≡ (
          if py == y && within x font.width px
          then color byte (mask / 2 ^ (px - x))
          else fb (py * stride + px))
  row-pixel fb y byte py px inside h =
      draw_row-pixel font.width fb (y * stride + x) mask byte (py * stride + px) (omega arith)
      ∙ elim (Bool-cases (py == y && within x font.width px)) [
        | inl drawn ↦
            let here : py ≡ y = ground (arith, drawn) in
            let column : py * stride + px - (y * stride + x) ≡ px - x =
              ap (λ r. r * stride + px - (y * stride + x)) here ∙ omega arith in
            rw (same_row stride x font.width y py px inside fits, drawn, column) refl
        | inr kept ↦ rw (same_row stride x font.width y py px inside fits, kept) refl
      ]

  -- The rows from `y` on are the row `y` and those behind it.
  rows_join :
      (shown : ℕ → ℕ) (glyph y k py old : ℕ) (c : Bool)
      → (if within (y + 1) k py && c
          then shown (glyph + bpl + (py - (y + 1)) * bpl)
          else if py == y && c
          then shown glyph
          else old)
        ≡ (if within y (suc k) py && c then shown (glyph + (py - y) * bpl) else old)
  rows_join shown glyph y k py old c = elim (Bool-cases (within (y + 1) k py)) [
    | inl behind ↦
        let also : within y (suc k) py ≡ true = ground (arith, behind) in
        let later : (py == y) ≡ false = ground (arith, behind) in
        let one_less : py - y ≡ py - (y + 1) + 1 = ground (arith, behind) in
        let place : glyph + bpl + (py - (y + 1)) * bpl ≡ glyph + (py - y) * bpl =
          omega arith ∙ ap (λ d. glyph + d * bpl) (sym one_less) in
        rw (behind, also, later, place) refl
    | inr elsewhere ↦ elim (Bool-cases (py == y)) [
      | inl here ↦
          let also : within y (suc k) py ≡ true = ground (arith, here) in
          let first : py - y ≡ 0 = ground (arith, here) in
          let place : glyph ≡ glyph + 0 * bpl = omega arith in
          rw (elsewhere, here, also, first) (ap (λ g. if c then shown g else old) place)
      | inr out ↦
          let also : within y (suc k) py ≡ false = ground (arith, elsewhere, out) in
          rw (elsewhere, out, also) refl
    ]
  ]

  draw_rows-pixel :
      (k : ℕ) (fb : Pixels) (glyph y py px : ℕ)
      → px < stride
      → (y + k) * (4 * stride) < 2 ^ 32
      → y + k < 2 ^ 32
      → draw_rows font font_data char_signed k (4 * stride) fb glyph x y (py * stride + px) ≡ (
          if within y k py && within x font.width px
          then color (font_data (glyph + (py - y) * bpl)) (mask / 2 ^ (px - x))
          else fb (py * stride + px))
  unfolding draw_rows
  draw_rows-pixel zero fb glyph y py px inside h w = ground arith
  draw_rows-pixel (suc k) fb glyph y py px inside h w =
      let rounds : y + suc k ≡ y + 1 + k = omega arith in
      let h' : (y + 1 + k) * (4 * stride) < 2 ^ 32 = rw (sym rounds) h in
      let this : (y + 1) * (4 * stride) ≤ (y + 1 + k) * (4 * stride) =
        mul-le-mul_right (4 * stride) (omega arith) in
      let apart : (y + 1) * (4 * stride) ≡ 4 * (y * stride) + 4 * stride = omega arith in
      let swapped : y * (4 * stride) ≡ 4 * (y * stride) = omega arith in
      let line : word32 (word32 (y * (4 * stride)) / 4 + x) ≡ y * stride + x =
        ap (λ a. word32 (a + x)) (line-sum y (omega (arith, h', this, apart, swapped)))
        ∙ omega (arith, h', this, apart) in
      let next : word32 (y + 1) ≡ y + 1 = omega arith in
      rw (line, next)
        (draw_rows-pixel k (draw_row font.width fb (y * stride + x) mask (font_data glyph))
            (glyph + bpl) (y + 1) py px inside h' (omega arith)
          ∙ ap
              (λ v.
                if within (y + 1) k py && within x font.width px
                then color (font_data (glyph + bpl + (py - (y + 1)) * bpl)) (mask / 2 ^ (px - x))
                else v)
              (row-pixel fb y (font_data glyph) py px inside (omega (arith, h', this, apart)))
          ∙ rows_join (λ g. color (font_data g) (mask / 2 ^ (px - x))) glyph y k py
              (fb (py * stride + px)) (within x font.width px))

  -- Where the rectangle of the character lies on the screen, with `stride` pixels to a line, drawCharAt
  -- shows in it the bits of the rows of the glyph, the highest bit of the width on the left, and leaves
  -- every pixel outside it. All columns of a row read the first byte of that row.
  pub draw_char_at-pixel :
      (f : Framebuffer) (c y py px : ℕ)
      → f.pitch ≡ 4 * stride
      → px < stride
      → (y + font.height) * (4 * stride) < 2 ^ 32
      → y + font.height < 2 ^ 32
      → (draw_char_at font font_data char_signed f c x y).fb (py * stride + px) ≡ (
          if within y font.height py && within x font.width px
          then color
              (font_data (glyph_of font font_data char_signed c + (py - y) * bpl))
              (mask / 2 ^ (px - x))
          else f.fb (py * stride + px))
  unfolding draw_char_at
  draw_char_at-pixel f c y py px pitch inside h w =
      rw pitch (
        draw_rows-pixel font.height f.fb (glyph_of font font_data char_signed c) y py px inside h w)
