-- ===== src/Framebuffer.antt =====
-- kernel/framebuffer/Framebuffer.cpp, and `VirtualConsole::updateScreen`, which draws with it. The pixels
-- are the words from `fb` on, by their index; the font, generated by the build, is a parameter: its
-- header, and its bytes from the header on.
pub mod Pixels
pub mod Cell
pub mod Screen
mod Tests
use dvnetos.Base.{
  ℕ, zero, suc, ◌+◌, ◌-◌, ◌*◌, ◌/◌, ◌%◌, ◌^◌, Bool, true, false, not, ◌&&◌, ◌||◌, Option, none,
  some, ◌>>=◌, ltb, leb, ◌==◌, if◌then◌else◌, bit_and, mul64,
}
use dvnetos.CString.{Mem, strlen}
use dvnetos.Console.{Console, buffer_size}

-- `PSF2_t`
pub record Psf2 : Type 0 where
  pub magic : ℕ
  pub version : ℕ
  pub headersize : ℕ
  pub flags : ℕ
  pub numglyph : ℕ
  pub bytesperglyph : ℕ
  pub height : ℕ
  pub width : ℕ

abbrev pub Pixels : Type 0
Pixels = ℕ → ℕ

pub record Framebuffer : Type 0 where
  pub fb : Pixels
  pub width : ℕ
  pub height : ℕ
  pub pitch : ℕ

-- `uint32_t`
abbrev pub word32 : ℕ → ℕ
word32 a = a % 2 ^ 32

abbrev pub sub32 : ℕ → ℕ → ℕ
sub32 a b = word32 (a + 2 ^ 32 - b)

abbrev pub white : ℕ
white = 0xFFFFFFFF

abbrev pub black : ℕ
black = 0xFF000000

abbrev pub set_pixel : Pixels → ℕ → ℕ → Pixels
set_pixel fb i v q = if q == i then v else fb q

-- The loop of `init` at `i`, with the rounds left.
unfoldable pub clear_loop : ℕ → Pixels → ℕ → Pixels
clear_loop zero fb i = fb
clear_loop (suc k) fb i = clear_loop k (set_pixel fb i black) (i + 1)

unfoldable pub init : Pixels → (width height pitch : ℕ) → Framebuffer
unfolding clear_loop
init fb width height pitch = record {
  fb = clear_loop (word32 (width * height)) fb 0;
  width = width;
  height = height;
  pitch = pitch;
}

abbrev pub color : (byte mask : ℕ) → ℕ
color byte mask = if bit_and byte mask == 0 then black else white

-- The loop over `j`, with the rounds left.
unfoldable pub draw_row : ℕ → Pixels → (line mask byte : ℕ) → Pixels
draw_row zero fb line mask byte = fb
draw_row (suc k) fb line mask byte =
    draw_row k (set_pixel fb line (color byte mask)) (word32 (line + 1)) (mask / 2) byte

-- `char_signed` says whether `char` is signed, which is up to the platform.
module _ (font : Psf2) (font_data : ℕ → ℕ) (char_signed : Bool) where
  -- `(font->width + 7) / 8`
  abbrev pub bytes_per_line : ℕ
  bytes_per_line = word32 (font.width + 7) / 8

  -- The place of the glyph of a character in the font.
  unfoldable pub glyph_of : ℕ → ℕ
  glyph_of c =
      let positive = ltb 0 c && (not char_signed || ltb c 128) in
      font.headersize
      + word32 ((if positive && ltb c font.numglyph then c else 0) * font.bytesperglyph)

  -- The loop over `i`, with the rounds left. The font's width is from 1 to 32: for another one the shift
  -- `1 << (font->width - 1)` has no defined value in the source.
  unfoldable pub draw_rows : ℕ → (pitch : ℕ) → Pixels → (glyph x y : ℕ) → Pixels
  unfolding draw_row
  draw_rows zero pitch fb glyph x y = fb
  draw_rows (suc k) pitch fb glyph x y =
      draw_rows k pitch
        (draw_row font.width fb (word32 (word32 (y * pitch) / 4 + x))
          (word32 (2 ^ (font.width - 1))) (font_data glyph))
        (glyph + bytes_per_line) x (word32 (y + 1))

  unfoldable pub draw_char_at : Framebuffer → (c x y : ℕ) → Framebuffer
  unfolding glyph_of draw_rows
  draw_char_at f c x y = record f { fb = draw_rows font.height f.pitch f.fb (glyph_of c) x y }

  -- On fuel for the characters and the terminator.
  unfoldable pub draw_text_at : ℕ → Mem → Framebuffer → (text x y : ℕ) → Option Framebuffer
  unfolding draw_char_at
  draw_text_at zero m f text x y = none
  draw_text_at (suc fuel) m f text x y =
      let x' = word32 (x + font.width) in
      let wraps = ltb (sub32 f.width font.width) x' in
      let rest =
        draw_text_at fuel m (draw_char_at f (m text) x y) (text + 1) (if wraps then 0 else x')
          (if wraps then word32 (y + font.height) else y) in
      if m text == 0 then some f else rest

  -- The width and the height of a text, on fuel for its characters.
  unfoldable pub text_size : ℕ → Mem → (text : ℕ) → Option (ℕ × ℕ)
  unfolding strlen
  text_size fuel m text = do n ← strlen fuel m text; some (word32 (mul64 n font.width), font.height)

  -- The loop of updateScreen over `y`, with the rounds left.
  unfoldable pub update_column : ℕ → Console → (x y : ℕ) → Framebuffer → Framebuffer
  unfolding draw_char_at
  update_column zero c x y f = f
  update_column (suc k) c x y f =
      let i = y * c.line_length + x in
      let drawn =
        draw_char_at f (c.memory (c.buffer + i)) (word32 (x * font.width))
          (word32 (y * font.height)) in
      update_column k c x (y + 1) (if ltb i buffer_size then drawn else f)

  -- The loop over `x`, with the rounds left.
  unfoldable pub update_columns : ℕ → Console → (x : ℕ) → Framebuffer → Framebuffer
  unfolding update_column
  update_columns zero c x f = f
  update_columns (suc k) c x f = update_columns k c (x + 1) (update_column c.line_count c x 0 f)

  unfoldable pub update_screen : Console → Framebuffer → Framebuffer
  unfolding update_columns
  update_screen c f =
      let drawn = update_columns c.line_length c 0 f in if c.init_complete then drawn else f
