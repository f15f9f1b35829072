-- ===== src/Kernel/Mirror.antt =====
-- The screen and the serial port are given the same text.
use mathlib.Core.Path.{subst}
use dvnetos.Base.{ℕ, ◌+◌, ◌^◌, ◌≤◌, ◌<◌, ◌≡◌, refl, ◌∙◌, sym, inl, inr, arith, List, ◌++◌}
use dvnetos.CString.{Mem}
use dvnetos.CString.Text.{IsString, Apart, strlen_lem}
use dvnetos.Stdio.{ok}
use dvnetos.Console.{Console, buffer_size, append_text}
use dvnetos.Console.Cursor.{IsConsole, append_text-IsConsole}
use dvnetos.Console.Sheet.{blank_sheet, type_text, Shows}
use dvnetos.Console.Window.{append_text-Shows}
use dvnetos.Serial.{Serial}
use dvnetos.Serial.Bytes.{bytes, bytes-same}
use dvnetos.Kernel.{Devices, write_to_serial, refresh, print}
use dvnetos.Kernel.Moved.{
  point, outside, shorter, Apart-sym, Shows-memory, type_text-append, IsString-same,
  Recorded-memory,
}
use dvnetos.Kernel.Record.{Recorded, Takes, Written, write-Written, read_text-bytes}

-- The memory `m` before the first text, and where the two buffers stand in it.
module _ (m : Mem) (screen port size : ℕ) where
  -- All that was written, `cs`, is typed on the sheet of which the screen shows the end, and is given to
  -- the port.
  pub record Mirrors (d : Devices) (cs : List ℕ) : Type 0 where
    pub console : IsConsole d.console
    pub shows : Shows d.console (type_text d.console.line_length blank_sheet cs)
    pub recorded : Recorded d.console.memory d.serial cs
    pub at_screen : d.console.buffer ≡ screen
    pub at_port : d.serial.buffer ≡ port
    pub at_size : d.serial.buffer_size ≡ size
    pub same :
        (x : ℕ) → Apart x 1 screen buffer_size → Apart x 1 port size → d.console.memory x ≡ m x

  -- The text of `n` bytes at `text` stands outside the two buffers.
  pub record Literal (text n : ℕ) : Type 0 where
    pub string : IsString m text n
    pub off_screen : Apart text (n + 1) screen buffer_size
    pub off_port : Apart text (n + 1) port size

-- From `d` to `d'` at most `n` bytes have been held for the port.
pub record Continues (d d' : Devices) (n : ℕ) : Type 0 where
  pub same_enabled : d'.serial.enabled ≡ d.serial.enabled
  pub used : d'.serial.buffer_used ≤ d.serial.buffer_used + n
  pub same_base : d'.serial.base ≡ d.serial.base

-- From `d` to `d'` the console has been drawn.
pub record Draws (d d' : Devices) : Type 0 where
  pub drawn : d'.screen ≡ refresh d'.console d.screen
  pub same_length : d'.console.line_length ≡ d.console.line_length
  pub same_count : d'.console.line_count ≡ d.console.line_count
  pub same_complete : d'.console.init_complete ≡ d.console.init_complete

pub Takes-rest :
    (s s' : Serial) (n k : ℕ)
    → s'.enabled ≡ s.enabled
    → s'.buffer_size ≡ s.buffer_size
    → s'.buffer_used ≤ s.buffer_used + n
    → Takes s (n + k)
    → Takes s' k
Takes-rest s s' n k enabled size used (inl on) = inl (enabled ∙ on)
Takes-rest s s' n k enabled size used (inr room) = inr (omega arith)

module _ (m : Mem) (screen port size : ℕ) (apart : Apart port size screen buffer_size)
    (bound : port + size < 2 ^ 64) where
  -- What writeToSerial leaves: the screen as it was, and the text given to the port.
  record Given (text n : ℕ) (d : Devices) (cs : List ℕ) (m1 : Mem) (s1 : Serial) : Type 0 where
    runs :
        (fuel : ℕ)
        → n < fuel
        → write_to_serial fuel text d
          ≡ ok (record d { console = record d.console { memory = m1 }; serial = s1 })
    written : Written d.console.memory d.serial n (cs ++ bytes m text n) m1 s1
    string : IsString m1 text n
    text_kept : bytes m1 text n ≡ bytes m text n
    shows :
        Shows (record d.console { memory = m1 }) (type_text d.console.line_length blank_sheet cs)

  write_to_serial-Given :
      (text n : ℕ) (d : Devices) (cs : List ℕ)
      → Mirrors m screen port size d cs
      → Literal m screen port size text n
      → Takes d.serial n
      → (m1 : Mem) × (s1 : Serial) × Given text n d cs m1 s1
  unfolding write_to_serial
  write_to_serial-Given text n d cs h lit takes =
      let c = d.console in
      let s = d.serial in
      let far : Apart text n s.buffer s.buffer_size =
        shorter text n port s.buffer size s.buffer_size h.at_port h.at_size lit.off_port in
      let kept : (x : ℕ) → text ≤ x → x < text + (n + 1) → c.memory x ≡ m x = λ x lo hi.
        h.same x (point text (n + 1) screen buffer_size x lit.off_screen lo hi)
          (point text (n + 1) port size x lit.off_port lo hi) in
      let there = IsString-same m c.memory text n kept lit.string in
      let (m1, s1, writes, w) =
        write-Written c.memory s cs text n (omega (arith, h.at_port, h.at_size)) h.recorded takes
          far in
      let kept1 : (x : ℕ) → text ≤ x → x < text + (n + 1) → m1 x ≡ m x = λ x lo hi.
        w.same x (
          outside text (n + 1) port s.buffer size s.buffer_size x h.at_port h.at_size lit.off_port
            lo hi)
        ∙ kept x lo hi in
      (
        m1,
        s1,
        record {
          runs = λ fuel enough. rw (strlen_lem fuel there enough, writes) refl;
          written =
              subst (λ ds. Written c.memory s n (cs ++ ds) m1 s1) (text_bytes c.memory text n kept)
                w;
          string = IsString-same m m1 text n kept1 lit.string;
          text_kept = text_bytes m1 text n kept1;
          shows =
              Shows-memory c _ m1 h.console
                (off_port c s m1 n _ s1 h.at_screen h.at_port h.at_size w) h.shows;
        },
      )
    where
      text_bytes :
          (m' : Mem) (text n : ℕ)
          → ((x : ℕ) → text ≤ x → x < text + (n + 1) → m' x ≡ m x)
          → bytes m' text n ≡ bytes m text n
      text_bytes m' text n same =
          bytes-same m' m text text n (λ i less. same (text + i) (omega arith) (omega arith))

      off_port :
          (c : Console) (s : Serial) (m1 : Mem) (n : ℕ) (ds : List ℕ) (s1 : Serial)
          → c.buffer ≡ screen
          → s.buffer ≡ port
          → s.buffer_size ≡ size
          → Written c.memory s n ds m1 s1
          → (x : ℕ) → c.buffer ≤ x
          → x < c.buffer + buffer_size
          → m1 x ≡ c.memory x
      off_port c s m1 n ds s1 at_screen at_port at_size w x lo hi = w.same x (
          outside screen buffer_size port s.buffer size s.buffer_size x at_port at_size
            (Apart-sym port size screen buffer_size apart) (omega (arith, lo, at_screen))
            (omega (arith, hi, at_screen)))

  -- appendText of a text outside the two buffers that the port takes: it ends, and the screen and the
  -- port are given the same text.
  pub print-Mirrors :
      (fuel text n : ℕ) (d : Devices) (cs : List ℕ)
      → Mirrors m screen port size d cs
      → Literal m screen port size text n
      → Takes d.serial n
      → n < fuel
      → (d' : Devices) × (print fuel text d ≡ ok d')
        × Mirrors m screen port size d' (cs ++ bytes m text n)
        × Continues d d' n
        × Draws d d'
  unfolding print
  print-Mirrors fuel text n d cs h lit takes enough =
      let c = d.console in
      let s = d.serial in
      let bs = bytes m text n in
      let (m1, s1, given) = write_to_serial-Given text n d cs h lit takes in
      let w = given.written in
      let c1 = record c { memory = m1 } in
      let console1 : IsConsole c1 = record {
        column = h.console.column;
        row = h.console.row;
        fits = h.console.fits;
      } in
      let (console2, keeps) = append_text-IsConsole c1 bs console1 in
      let shows2 =
        append_text-Shows c1 (type_text c.line_length blank_sheet cs) bs console1 given.shows in
      let typed = sym (type_text-append c.line_length blank_sheet cs bs) in
      (
        record {
          console = append_text c1 bs;
          screen = refresh (append_text c1 bs) d.screen;
          serial = s1;
        },
        rw
            (
              given.runs fuel enough,
              read_text-bytes fuel m1 text n given.string enough,
              given.text_kept,
            )
            refl,
        record {
          console = console2;
          shows =
              subst (λ l. Shows (append_text c1 bs) (type_text l blank_sheet (cs ++ bs)))
                (sym keeps.same_length) (subst (Shows (append_text c1 bs)) typed shows2);
          recorded =
              Recorded-memory m1 (append_text c1 bs).memory s1 (cs ++ bs)
                (Takes-rest s s1 n 0 w.same_enabled w.same_size w.used
                  (subst (Takes s) (omega arith) takes))
                (λ x lo hi. keeps.outside x (
                  outside port size screen c.buffer buffer_size buffer_size x h.at_screen refl apart
                    (omega (arith, lo, w.same_buffer, h.at_port))
                    (omega (arith, hi, w.same_buffer, w.same_size, h.at_port, h.at_size))))
                w.recorded;
          at_screen = keeps.same_buffer ∙ h.at_screen;
          at_port = w.same_buffer ∙ h.at_port;
          at_size = w.same_size ∙ h.at_size;
          same = λ x off off'.
              keeps.outside x (
                outside x 1 screen c.buffer buffer_size buffer_size x h.at_screen refl off
                  (omega arith) (omega arith))
              ∙ w.same x (
                  outside x 1 port s.buffer size s.buffer_size x h.at_port h.at_size off'
                    (omega arith) (omega arith))
              ∙ h.same x off off';
        },
        record { same_enabled = w.same_enabled; used = w.used; same_base = w.same_base },
        record {
          drawn = refl;
          same_length = keeps.same_length;
          same_count = keeps.same_count;
          same_complete = keeps.same_complete;
        },
      )
