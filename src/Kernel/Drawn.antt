-- ===== src/Kernel/Drawn.antt =====
-- What kprint leaves on the framebuffer.
use mathlib.Core.Path.{subst}
use dvnetos.Base.{ℕ, ◌+◌, ◌-◌, ◌*◌, ◌^◌, ◌<◌, ◌≡◌, ◌∙◌, sym, true, List, ◌++◌}
use dvnetos.CString.{Mem}
use dvnetos.CString.Text.{Apart}
use dvnetos.Stdio.{ok}
use dvnetos.Console.{Console, buffer_size}
use dvnetos.Console.Sheet.{blank_sheet, type_text}
use dvnetos.Framebuffer.Cell.{lit, pixel_of, HasRoom}
use dvnetos.Framebuffer.Screen.{update_screen-Shows}
use dvnetos.Serial.Bytes.{bytes}
use dvnetos.Kernel.{Devices, Screen, refresh, print}
use dvnetos.Kernel.Record.{Takes}
use dvnetos.Kernel.Mirror.{Mirrors, Literal, Draws, print-Mirrors}

-- The screen has `stride` pixels to a line, and room for the lines of the console.
pub record IsReady (stride : ℕ) (d : Devices) : Type 0 where
  pub complete : d.console.init_complete ≡ true
  pub pitch : d.screen.framebuffer.pitch ≡ 4 * stride
  pub room : HasRoom d.screen.font d.screen.font_data d.screen.char_signed stride d.console

-- The pixel `dx`, `dy` of the cell `row`, `col` shows the character that the text `cs` has there when it
-- is typed on a sheet whose last line is at the cursor.
abbrev pub ShowsText : (stride : ℕ) → Screen → Console → List ℕ → (row col dx dy : ℕ) → Type 0
ShowsText stride s c cs row col dx dy =
    let sheet = type_text c.line_length blank_sheet cs in
    let ch = sheet.line (sheet.y - c.cursor_y + row) col in
    s.framebuffer.fb (pixel_of s.font s.font_data s.char_signed stride c row col dx dy)
    ≡ lit s.font s.font_data s.char_signed stride c ch dx dy

HasRoom-same :
    (stride : ℕ) (s : Screen) (c c' : Console)
    → c'.line_length ≡ c.line_length
    → c'.line_count ≡ c.line_count
    → HasRoom s.font s.font_data s.char_signed stride c
    → HasRoom s.font s.font_data s.char_signed stride c'
HasRoom-same stride s c c' same same' room = record {
  across = rw same room.across;
  narrow = room.narrow;
  down = rw same' room.down;
  bytes = rw same' room.bytes;
}

module _ (m : Mem) (screen port size stride : ℕ) (apart : Apart port size screen buffer_size)
    (bound : port + size < 2 ^ 64) where
  refresh-ShowsText :
      (d d' : Devices) (cs : List ℕ) (row col dx dy : ℕ)
      → IsReady stride d
      → Draws d d'
      → Mirrors m screen port size d' cs
      → row < d.console.line_count
      → col < d.console.line_length
      → dx < d.screen.font.width
      → dy < d.screen.font.height
      → ShowsText stride d'.screen d'.console cs row col dx dy
  unfolding refresh
  refresh-ShowsText d d' cs row col dx dy ready draws h on_row on_line across down =
      let s = d.screen in
      let c = d'.console in
      let room = HasRoom-same stride s d.console c draws.same_length draws.same_count ready.room in
      subst (λ s'. ShowsText stride s' c cs row col dx dy) (sym draws.drawn)
        (update_screen-Shows s.font s.font_data s.char_signed stride c room row col dx dy
          (rw draws.same_count on_row) (rw draws.same_length on_line) across down s.framebuffer
          (type_text c.line_length blank_sheet cs) h.shows ready.pitch
          (draws.same_complete ∙ ready.complete) h.console.fits)

  -- appendText of a text outside the two buffers, which the port takes, on a screen that has room: it
  -- ends, the port has been given the text, and every pixel of every cell shows the character that stands
  -- there when all that was written and the text are typed on one sheet.
  pub print-ShowsText :
      (fuel text n : ℕ) (d : Devices) (cs : List ℕ) (row col dx dy : ℕ)
      → Mirrors m screen port size d cs
      → Literal m screen port size text n
      → Takes d.serial n
      → n < fuel
      → IsReady stride d
      → row < d.console.line_count
      → col < d.console.line_length
      → dx < d.screen.font.width
      → dy < d.screen.font.height
      → (d' : Devices) × (print fuel text d ≡ ok d')
        × Mirrors m screen port size d' (cs ++ bytes m text n)
        × ShowsText stride d'.screen d'.console (cs ++ bytes m text n) row col dx dy
  print-ShowsText fuel text n d cs row col dx dy h lit takes enough ready on_row on_line across
        down =
      let (d', runs, h', next, draws) =
        print-Mirrors m screen port size apart bound fuel text n d cs h lit takes enough in
      (
        d',
        runs,
        h',
        refresh-ShowsText d d' (cs ++ bytes m text n) row col dx dy ready draws h' on_row on_line
            across down,
      )
