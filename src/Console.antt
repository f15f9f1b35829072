-- ===== src/Console.antt =====
-- kernel/framebuffer/VirtualConsole.cpp: the buffer of characters and the cursor. What
-- updateScreen draws is in Framebuffer; Kernel has the copy of the text that goes to the serial port.
pub mod Cursor
pub mod Sheet
pub mod Window
pub mod Formatted
mod Tests
use dvnetos.Base.{
  ℕ, zero, suc, ◌+◌, ◌-◌, ◌*◌, ◌/◌, Bool, true, false, List, [], ◌∷◌, ltb, leb, ◌==◌, if◌then◌else◌,
  add64, sub64, mul64,
}
use dvnetos.CString.{Mem, write, memmove, memset}

-- `VirtualConsole` with its memory; `buffer` is the address of the array.
pub record Console : Type 0 where
  pub cursor_x : ℕ
  pub cursor_y : ℕ
  pub line_length : ℕ
  pub line_count : ℕ
  pub init_complete : Bool
  pub memory : Mem
  pub buffer : ℕ

abbrev pub max_res_width : ℕ
max_res_width = 1280

abbrev pub max_res_height : ℕ
max_res_height = 1024

abbrev pub buffer_size : ℕ
buffer_size = max_res_width / 8 * (max_res_height / 16)

abbrev pub at_most : (limit v : ℕ) → ℕ
at_most limit v = if ltb limit v then limit else v

-- `init` for a font and a resolution.
unfoldable pub init : Console → (font_width font_height res_width res_height : ℕ) → Console
unfolding memset
init c fw fh w h = record c {
  memory = memset c.memory c.buffer b' ' buffer_size;
  line_length = at_most max_res_width w / fw;
  line_count = at_most max_res_height h / fh;
  init_complete = true;
}

-- The rest of a line is filled with blanks; the first argument is the number of blanks.
unfoldable pub blank_line : ℕ → Console → Console
blank_line zero c = c
blank_line (suc k) c = blank_line k (record c {
  memory = write c.memory (c.buffer + c.cursor_y * c.line_length + c.cursor_x) b' ';
  cursor_x = c.cursor_x + 1;
})

-- What a character stores.
unfoldable pub put_char : Console → ℕ → Console
unfolding blank_line
put_char c ch = if ch == b'\n' then blank_line (c.line_length - c.cursor_x) c else record c {
  memory = write c.memory (c.buffer + c.cursor_y * c.line_length + c.cursor_x) ch;
}

-- The last line is full: all lines move up by one.
unfoldable pub scroll : Console → Console
unfolding memmove memset
scroll c =
    let last = c.line_length * (c.line_count - 1) in
    record c {
      memory =
          memset (memmove c.memory c.buffer (c.buffer + c.line_length) last) (c.buffer + last) b' '
            c.line_length;
      cursor_y = c.cursor_y - 1;
    }

unfoldable pub advance : Console → Console
unfolding scroll
advance c =
    let x = c.cursor_x + 1 in
    let wrapped = record c { cursor_x = 0; cursor_y = c.cursor_y + 1 } in
    if leb c.line_length x
    then if leb c.line_count (c.cursor_y + 1) then scroll wrapped else wrapped
    else record c { cursor_x = x }

-- The loop of appendText.
unfoldable pub append_text : Console → List ℕ → Console
unfolding put_char advance
append_text c [] = c
append_text c (ch ∷ cs) = append_text (advance (put_char c ch)) cs
