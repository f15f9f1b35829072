-- ===== src/Kernel/Texts.antt =====
-- Several texts, and the start of the serial port.
use mathlib.Core.Path.{subst}
use dvnetos.Base.{
  ℕ, ◌+◌, ◌^◌, ◌<◌, ◌≡◌, refl, ◌∙◌, sym, inl, inr, arith, true, false, some, List, [], ◌∷◌, ◌++◌,
  append-nil, append_assoc, add64, ◌==◌,
}
use dvnetos.CString.{Mem}
use dvnetos.CString.Text.{Apart}
use dvnetos.Stdio.{Run, ok, ◌>>=◌}
use dvnetos.Console.{buffer_size}
use dvnetos.Paging.{page_size}
use dvnetos.Aarch64.{Paging, map_memory}
use dvnetos.Serial.{Serial, send, write}
use dvnetos.Serial.Bytes.{bytes, send-append}
use dvnetos.Serial.Order.{Calls, all_bytes, total}
use dvnetos.Kernel.{Devices, print, init_serial}
use dvnetos.Kernel.Record.{Recorded, Takes}
use dvnetos.Kernel.Mirror.{Mirrors, Literal, Continues, Takes-rest, print-Mirrors}

-- Calls of kprint: the places of the texts, with their lengths.
abbrev pub print_all : (fuel : ℕ) → Calls → Devices → Run Devices
print_all fuel [] d = ok d
print_all fuel ((text, n) ∷ calls) d = do d' ← print fuel text d; print_all fuel calls d'

Takes-first : (s : Serial) (n k : ℕ) → Takes s (n + k) → Takes s n
Takes-first s n k (inl on) = inl on
Takes-first s n k (inr room) = inr (omega arith)

module _ (m : Mem) (screen port size : ℕ) where
  abbrev pub AllLiteral : (fuel : ℕ) → Calls → Type 0
  AllLiteral fuel [] = Unit
  AllLiteral fuel ((text, n) ∷ calls) =
      Literal m screen port size text n × (n < fuel) × AllLiteral fuel calls

module _ (m : Mem) (screen port size : ℕ) (apart : Apart port size screen buffer_size)
    (bound : port + size < 2 ^ 64) where
  pub print_all-Mirrors :
      (fuel : ℕ) (calls : Calls) (d : Devices) (cs : List ℕ)
      → Mirrors m screen port size d cs
      → AllLiteral m screen port size fuel calls
      → Takes d.serial (total calls)
      → (d' : Devices) × (print_all fuel calls d ≡ ok d')
        × Mirrors m screen port size d' (cs ++ all_bytes m calls)
        × Continues d d' (total calls)
  print_all-Mirrors fuel [] d cs h lits takes = (
    d,
    refl,
    rw (append-nil cs) h,
    record { same_enabled = refl; used = omega arith; same_base = refl },
  )
  print_all-Mirrors fuel ((text, n) ∷ calls) d cs h (lit, enough, lits) takes =
      let (d1, runs1, h1, next1, draws) =
        print-Mirrors m screen port size apart bound fuel text n d cs h lit
          (Takes-first d.serial n (total calls) takes) enough in
      let rest =
        Takes-rest d.serial d1.serial n (total calls) next1.same_enabled
          (h1.at_size ∙ sym h.at_size) next1.used takes in
      let (d2, runs2, h2, next2) =
        print_all-Mirrors fuel calls d1 (cs ++ bytes m text n) h1 lits rest in
      (
        d2,
        rw runs1 runs2,
        subst (Mirrors m screen port size d2) (append_assoc cs (bytes m text n) (all_bytes m calls))
            h2,
        record {
          same_enabled = next2.same_enabled ∙ next1.same_enabled;
          used = omega (arith, next1.used, next2.used);
          same_base = next2.same_base ∙ next1.same_base;
        },
      )

  -- The port is found: what it holds is sent behind the message.
  pub init_serial-Mirrors :
      (fuel found n missing fr hhdm_offset : ℕ) (p p1 : Paging) (d : Devices) (cs : List ℕ)
      → Mirrors m screen port size d cs
      → d.serial.enabled ≡ false
      → Literal m screen port size found n
      → Takes d.serial n
      → n < fuel
      → (fr == 0xFFFFFFFF) ≡ false
      → (fr == 0) ≡ false
      → map_memory p d.serial.base (add64 d.serial.base hhdm_offset) page_size 1 0x700 ≡ some p1
      → (d' : Devices) × (init_serial fuel found missing fr hhdm_offset p d ≡ ok (p1, d'))
        × Mirrors m screen port size d' (cs ++ bytes m found n)
        × (d'.serial.enabled ≡ true)
  unfolding init_serial write
  init_serial-Mirrors fuel found n missing fr hhdm_offset p p1 d cs h off lit takes enough not_ones
        not_zero maps =
      let moved = record d {
        serial = record d.serial { base = add64 d.serial.base hhdm_offset };
      } in
      let hm : Mirrors m screen port size moved cs = record {
        console = h.console;
        shows = h.shows;
        recorded = h.recorded;
        at_screen = h.at_screen;
        at_port = h.at_port;
        at_size = h.at_size;
        same = h.same;
      } in
      let (d1, runs, h1, next, draws) =
        print-Mirrors m screen port size apart bound fuel found n moved cs hm lit takes enough in
      let s1 = d1.serial in
      let flushed = sent_all d1 (cs ++ bytes m found n) (next.same_enabled ∙ off) h1.recorded in
      let s2 = record s1 { enabled = true; sent = cs ++ bytes m found n; buffer_used = 0 } in
      (
        record d1 { serial = s2 },
        rw (maps, not_ones, not_zero, runs, flushed) refl,
        record {
          console = h1.console;
          shows = h1.shows;
          recorded = inl (refl, refl);
          at_screen = h1.at_screen;
          at_port = h1.at_port;
          at_size = h1.at_size;
          same = h1.same;
        },
        refl,
      )
    where
      sent_all :
          (d : Devices) (cs : List ℕ)
          → d.serial.enabled ≡ false
          → Recorded d.console.memory d.serial cs
          → send d.console.memory d.serial.buffer d.serial.buffer_used d.serial.sent ≡ cs
      sent_all d cs off (inl (on, sent)) = absurd (cc (on, off))
      sent_all d cs off (inr (off', unsent, held)) =
          send-append d.console.memory d.serial.buffer d.serial.buffer_used d.serial.sent
          ∙ rw (unsent, held) refl
