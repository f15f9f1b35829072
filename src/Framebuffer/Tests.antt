-- ===== src/Framebuffer/Tests.antt =====
-- A character of a small font.
use dvnetos.Base.{ℕ, ◌+◌, ◌-◌, ◌*◌, ◌/◌, ◌^◌, ◌≡◌, ◌&&◌, refl, arith, false, ◌==◌, if◌then◌else◌}
use dvnetos.Framebuffer.{
  Psf2, Framebuffer, word32, color, white, black, draw_char_at, update_screen, glyph_of,
  bytes_per_line,
}
use dvnetos.Framebuffer.Pixels.{within, draw_char_at-pixel}
use dvnetos.Framebuffer.Cell.{lit, pixel_of}
use dvnetos.Framebuffer.Screen.{update_screen-Shows}
use dvnetos.Console.{Console, init}
use dvnetos.Console.Sheet.{blank_sheet}
use dvnetos.Console.Window.{init-Shows}

-- Glyphs of two rows of three pixels, behind a header of 32 bytes.
abbrev font : Psf2
font = record {
  magic = 0;
  version = 0;
  headersize = 32;
  flags = 0;
  numglyph = 2;
  bytesperglyph = 2;
  height = 2;
  width = 3;
}

-- The rows of glyph 1: the outer pixels, and the middle one.
abbrev font_data : ℕ → ℕ
font_data a = if a == 34 then 5 else if a == 35 then 2 else 0

abbrev screen : Framebuffer
screen = record { fb = λ q. 0; width = 10; height = 10; pitch = 40 }

middle : (draw_char_at font font_data false screen 1 4 6).fb (7 * 10 + 5) ≡ white
unfolding draw_char_at
middle = refl

left : (draw_char_at font font_data false screen 1 4 6).fb (7 * 10 + 4) ≡ black
unfolding draw_char_at
left = refl

draw_char_at-pixel_example : (draw_char_at font font_data false screen 1 4 6).fb (7 * 10 + 5) ≡ (
    if within 6 2 7 && within 4 3 5
    then color
        (font_data
          (glyph_of font font_data false 1 + (7 - 6) * bytes_per_line font font_data false))
        (word32 (2 ^ (3 - 1)) / 2 ^ (5 - 4))
    else 0)
draw_char_at-pixel_example =
    draw_char_at-pixel font font_data false 10 4 (omega arith) screen 1 6 7 5 refl (omega arith)
      (omega arith) (omega arith)

-- A console of two lines of eight characters, and a font for it.
abbrev before : Console
before = record {
  cursor_x = 0;
  cursor_y = 0;
  line_length = 80;
  line_count = 10;
  init_complete = false;
  memory = λ x. 0;
  buffer = 0x10000;
}

abbrev console : Console
unfolding init
console = init before 8 16 64 32

abbrev wide_font : Psf2
wide_font = record font { numglyph = 256; bytesperglyph = 16; height = 16; width = 8 }

abbrev wide_screen : Framebuffer
wide_screen = record { fb = λ q. 0; width = 64; height = 32; pitch = 256 }

update_screen-Shows_example :
    (update_screen wide_font font_data false console wide_screen).fb
      (pixel_of wide_font font_data false 64 console 1 2 3 4)
    ≡ lit wide_font font_data false 64 console b' ' 3 4
unfolding init
update_screen-Shows_example =
    update_screen-Shows wide_font font_data false 64 console
      (record {
        across = omega arith;
        narrow = omega arith;
        down = omega arith;
        bytes = omega arith;
      })
      1 2 3 4 (omega arith) (omega arith) (omega arith) (omega arith) wide_screen blank_sheet
      (init-Shows before 8 16 64 32 (omega arith) (omega arith) (omega arith) (omega arith) refl
        refl).1
      refl refl (omega arith)
