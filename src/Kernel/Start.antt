-- ===== src/Kernel/Start.antt =====
-- The start of the screen: `Framebuffer::init` and `Framebuffer::postInit` of
-- kernel/framebuffer/Framebuffer.cpp, which ask the boot loader, and `VirtualConsole::init` of
-- kernel/framebuffer/VirtualConsole.cpp.
use dvnetos.Base.{ℕ, ◌+◌, Option, none, some, List, [], ◌∷◌, length, codes}
use dvnetos.Stdio.{Run, ok, panic, undefined, ◌>>=◌, int, long, pointer}
use dvnetos.Console.{init}
use dvnetos.Framebuffer.{Framebuffer, Pixels, word32, text_size}
use dvnetos.Kernel.{Devices, refresh, or_undefined, print_formatted}

-- A mode that the boot loader lists.
pub record Mode : Type 0 where
  pub width : ℕ
  pub height : ℕ
  pub bpp : ℕ

-- `limine_framebuffer`, the fields that the kernel uses, with the pixels behind its address.
pub record LimineFramebuffer : Type 0 where
  pub address : ℕ
  pub pixels : Pixels
  pub width : ℕ
  pub height : ℕ
  pub pitch : ℕ
  pub bpp : ℕ
  pub modes : List Mode

-- `Framebuffer::init`: the response is used before it is compared with the null pointer, `none`.
unfoldable pub init_framebuffer :
    Option (List LimineFramebuffer) → Run (LimineFramebuffer × Framebuffer)
unfolding dvnetos.Framebuffer.init
init_framebuffer none = undefined
init_framebuffer (some []) = panic 0
init_framebuffer (some (l ∷ ls)) =
    ok (l, dvnetos.Framebuffer.init l.pixels (word32 l.width) (word32 l.height) (word32 l.pitch))

-- The loop over the modes, from the mode `i` on.
unfoldable pub print_modes : (format_buffer i : ℕ) → List Mode → Devices → Run Devices
unfolding print_formatted
print_modes format_buffer i [] d = ok d
print_modes format_buffer i (m ∷ ms) d = do
  d' ←
      print_formatted format_buffer (codes "fb mode %d: %lux%lu %d bpp\n")
        (int i ∷ long m.width ∷ long m.height ∷ int m.bpp ∷ []) d
  print_modes format_buffer (i + 1) ms d'

unfoldable pub post_init : (format_buffer : ℕ) → LimineFramebuffer → Devices → Run Devices
unfolding print_formatted print_modes
post_init format_buffer l d = do
  let f = d.screen.framebuffer
  d1 ← print_formatted format_buffer (codes "Framebuffer found at %p\n") (pointer l.address ∷ []) d
  d2 ←
      print_formatted format_buffer (codes "fb: %dx%d %d bpp, %lu modes\n")
        (int f.width ∷ int f.height ∷ int l.bpp ∷ long (length l.modes) ∷ []) d1
  print_modes format_buffer 0 l.modes d2

-- `VirtualConsole::init` of a framebuffer, which takes its font size from the text at `blank`.
unfoldable pub init_console : (blank : ℕ) → Devices → Run Devices
unfolding init text_size refresh
init_console blank d = do
  let f = d.screen.framebuffer
  (fw, fh) ←
      or_undefined
        (text_size d.screen.font d.screen.font_data d.screen.char_signed 2 d.console.memory blank)
  let c = init d.console fw fh f.width f.height
  ok (record d { console = c; screen = refresh c d.screen })

unfoldable pub start_console :
    (format_buffer blank : ℕ) → Option (List LimineFramebuffer) → Devices → Run Devices
unfolding init_framebuffer init_console post_init
start_console format_buffer blank response d = do
  (l, f) ← init_framebuffer response
  d1 ← init_console blank (record d { screen = record d.screen { framebuffer = f } })
  post_init format_buffer l d1
