-- ===== src/Kernel.antt =====
-- The console of the kernel and its serial port, which `VirtualConsole::appendText` of
-- kernel/framebuffer/VirtualConsole.cpp copies its text to, over the one memory that the console has:
-- the text, the buffer of the screen and that of the port stand in it. The port is that of aarch64.
pub mod Record
pub mod Moved
pub mod Mirror
pub mod Drawn
pub mod Texts
pub mod Session
pub mod Tables
pub mod Start
pub mod Main
mod Tests
use dvnetos.Base.{Bool, ℕ, true, not, ◌&&◌, Option, none, some, List, ◌==◌, if◌then◌else◌, add64}
use dvnetos.CString.{Mem, strlen}
use dvnetos.Stdio.{Run, ok, panic, undefined, ◌>>=◌, Arg}
use dvnetos.Stdio.Print.{kvsnprintf}
use dvnetos.Stdio.Read.{read_text}
use dvnetos.Console.{Console, append_text}
use dvnetos.Framebuffer.{Framebuffer, Psf2, update_screen}
use dvnetos.Serial.{Serial, write}
use dvnetos.Paging.{page_size}
use dvnetos.Aarch64.{Paging, map_memory, unmap_memory}

-- `defaultFramebuffer` with its font.
pub record Screen : Type 0 where
  pub framebuffer : Framebuffer
  pub font : Psf2
  pub font_data : ℕ → ℕ
  pub char_signed : Bool

-- `defaultVirtualConsole`, `defaultFramebuffer` and `defaultSerial`.
pub record Devices : Type 0 where
  pub console : Console
  pub screen : Screen
  pub serial : Serial

-- `updateScreen` of the console.
unfoldable pub refresh : Console → Screen → Screen
unfolding update_screen
refresh c s = record s {
  framebuffer = update_screen s.font s.font_data s.char_signed c s.framebuffer;
}

-- A panic of the components that have no other failure.
abbrev pub or_panic : {A : Type 0} → Option A → Run A
or_panic none = panic 0
or_panic (some a) = ok a

abbrev pub or_undefined : {A : Type 0} → Option A → Run A
or_undefined none = undefined
or_undefined (some a) = ok a

-- `writeToSerial`: a full buffer fails its assertion.
unfoldable pub write_to_serial : (fuel text : ℕ) → Devices → Run Devices
unfolding strlen write
write_to_serial fuel text d = do
  length ← or_undefined (strlen fuel d.console.memory text)
  (m, s) ← or_panic (write d.console.memory text length d.serial)
  ok (record d { console = record d.console { memory = m }; serial = s })

-- `appendText` of the text at an address, on fuel above its length.
unfoldable pub print : (fuel text : ℕ) → Devices → Run Devices
unfolding write_to_serial read_text append_text refresh
print fuel text d = do
  d' ← write_to_serial fuel text d
  cs ← read_text fuel d'.console.memory text
  let c = append_text d'.console cs
  ok (record d' { console = c; screen = refresh c d'.screen })

-- `appendFormattedText`, with the address of its local buffer.
unfoldable pub print_formatted : (buf : ℕ) → (format : List ℕ) → List Arg → Devices → Run Devices
unfolding kvsnprintf print
print_formatted buf format args d = do
  (m, size) ← kvsnprintf d.console.memory buf 1024 format args
  print 1024 buf (record d { console = record d.console { memory = m } })

-- `Serial::init` with its messages, which stand at `found` and `missing`; `fr` is what the flag register
-- answers.
unfoldable pub init_serial :
    (fuel found missing : ℕ) → (fr hhdm_offset : ℕ) → Paging → Devices → Run (Paging × Devices)
unfolding print write map_memory unmap_memory
init_serial fuel found missing fr hhdm_offset p d = do
  p1 ← or_panic (map_memory p d.serial.base (add64 d.serial.base hhdm_offset) page_size 1 0x700)
  let moved = record d { serial = record d.serial { base = add64 d.serial.base hhdm_offset } }
  if not (fr == 0xFFFFFFFF) && not (fr == 0)
      then (do
        d1 ← print fuel found moved
        let s = record d1.serial { enabled = true }
        (m, s') ← or_panic (write d1.console.memory s.buffer s.buffer_used s)
        ok (
          p1,
          record d1 {
            console = record d1.console { memory = m };
            serial = record s' { buffer_used = 0 };
          },
        ))
      else (do
        p2 ← or_panic (unmap_memory p1 moved.serial.base 1 page_size)
        d2 ← print fuel missing moved
        ok (p2, d2))
