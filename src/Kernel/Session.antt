-- ===== src/Kernel/Session.antt =====
-- The texts of the kernel before and after the serial port is found.
use dvnetos.Base.{ℕ, ◌+◌, ◌^◌, ◌≤◌, ◌<◌, ◌≡◌, refl, ◌∙◌, inr, arith, List, [], ◌++◌}
use dvnetos.CString.{Mem}
use dvnetos.CString.Copy.{memset_lem}
use dvnetos.CString.Text.{Apart}
use dvnetos.Stdio.{Run, ok, ◌>>=◌}
use dvnetos.Console.{init, buffer_size, at_most, max_res_width, max_res_height}
use dvnetos.Console.Sheet.{type_text}
use dvnetos.Console.Window.{init-Shows}
use dvnetos.Aarch64.{Paging}
use dvnetos.Serial.{Serial}
use dvnetos.Serial.Bytes.{bytes}
use dvnetos.Serial.Order.{Calls, all_bytes, IsIdle}
use dvnetos.Kernel.{Devices, init_serial}
use dvnetos.Kernel.Texts.{print_all}
use dvnetos.Kernel.Mirror.{Mirrors}

-- Texts, the serial port with its message at `found` or `missing`, and more texts.
abbrev pub print_around :
    (fuel found missing : ℕ)
    → (fr hhdm_offset : ℕ) → (before after : Calls) → Paging
    → Devices
    → Run (Paging × Devices)
print_around fuel found missing fr hhdm_offset before after p d = do
  d1 ← print_all fuel before d
  (p1, d2) ← init_serial fuel found missing fr hhdm_offset p d1
  d3 ← print_all fuel after d2
  ok (p1, d3)

-- The same behind the start of the console, in the order of `kmain`.
abbrev pub session :
    (fuel found missing : ℕ)
    → (fw fh w h fr hhdm_offset : ℕ) → (before after : Calls) → Paging
    → Devices
    → Run (Paging × Devices)
session fuel found missing fw fh w h fr hhdm_offset before after p d =
    print_around fuel found missing fr hhdm_offset before after p
      (record d { console = init d.console fw fh w h })

no_bytes : (m : Mem) (a k : ℕ) → k ≡ 0 → bytes m a k ≡ []
no_bytes m a k none_held = rw none_held refl

-- A font that fits, the cursor at the start, a port that has been given nothing, and two buffers apart.
pub record IsStart (fw fh w h : ℕ) (d : Devices) : Type 0 where
  pub wide : 8 ≤ fw
  pub high : 16 ≤ fh
  pub some_width : fw ≤ at_most max_res_width w
  pub some_height : fh ≤ at_most max_res_height h
  pub x0 : d.console.cursor_x ≡ 0
  pub y0 : d.console.cursor_y ≡ 0
  pub idle : IsIdle d.serial
  pub apart : Apart d.serial.buffer d.serial.buffer_size d.console.buffer buffer_size
  pub bound : d.serial.buffer + d.serial.buffer_size < 2 ^ 64

pub init-Mirrors :
    (fw fh w h : ℕ) (d : Devices)
    → IsStart fw fh w h d
    → Mirrors d.console.memory d.console.buffer d.serial.buffer d.serial.buffer_size
        (record d { console = init d.console fw fh w h })
        []
unfolding init type_text
init-Mirrors fw fh w h d start =
    let (console, shows) =
      init-Shows d.console fw fh w h start.wide start.high start.some_width start.some_height
        start.x0 start.y0 in
    let (off, unsent, unused) = start.idle in
    record {
      console = console;
      shows = shows;
      recorded = inr (off, unsent, no_bytes _ _ _ unused);
      at_screen = refl;
      at_port = refl;
      at_size = refl;
      same = λ x off_screen off_port.
          memset_lem d.console.memory d.console.buffer b' ' buffer_size x
          ∙ ground (arith, off_screen);
    }

-- The texts of a session.
abbrev pub texts : Mem → (before : Calls) → (found n : ℕ) → (after : Calls) → List ℕ
texts m before found n after = (all_bytes m before ++ bytes m found n) ++ all_bytes m after
