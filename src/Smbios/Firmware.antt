-- ===== src/Smbios/Firmware.antt =====
-- `FirmwareInfo::toString` of smbios.cpp. `buf2` is the address of its second buffer.
use dvnetos.Base.{
  ℕ, zero, suc, ◌+◌, ◌*◌, ◌^◌, Option, some, List, [], ◌∷◌, leb, ◌==◌, if◌then◌else◌, bit_and, not,
}
use dvnetos.CString.{Mem}
use dvnetos.Stdio.{Run, ok, ◌>>=◌, int, text}
use dvnetos.Stdio.Read.{read_text}
use dvnetos.Bytes.{bytes_to_human_readable}
use dvnetos.Smbios.{FirmwareInfo}
use dvnetos.Smbios.Names.{firmware_characteristics_names}
use dvnetos.Smbios.Getters.{extended_rom_bytes}
use dvnetos.Smbios.Print.{State, append, append_if, append_name}

-- `bytesToHumanReadable(buf2, sizeof(buf2), bytes)`, with the text that it stores.
unfoldable pub readable : Mem → (buf2 bytes : ℕ) → Run (Mem × List ℕ)
unfolding bytes_to_human_readable read_text
readable m buf2 bytes = do
  m' ← bytes_to_human_readable 4 m buf2 32 bytes
  cs ← read_text 32 m' buf2
  ok (m', cs)

-- The loop over the characteristics, from the bit `i` on.
unfoldable pub characteristics_loop : ℕ → (buf size characteristics i : ℕ) → State → Run State
unfolding append
characteristics_loop zero buf size characteristics i s = ok s
characteristics_loop (suc k) buf size characteristics i s = do
  s' ←
      if not (bit_and characteristics (2 ^ i) == 0)
      then append_name buf size " %s" firmware_characteristics_names (2 ^ i) s
      else ok s
  characteristics_loop k buf size characteristics (i + 1) s'

module _ (str : ℕ → Option (List ℕ)) where
  unfoldable pub firmware_info_to_string : Mem → (buf size buf2 : ℕ) → FirmwareInfo → Run Mem
  unfolding append characteristics_loop readable extended_rom_bytes
  firmware_info_to_string m buf size buf2 f = do
    let len = f.header.length
    (m0, rom) ← readable m buf2 (f.rom_size * 64)
    let args =
        text (str f.vendor)
        ∷ text (str f.version)
        ∷ text (str f.release_date)
        ∷ text (some rom)
        ∷ []
    s0 ← append buf size "Firmware vendor: %s version: %s release: %s rom size: %s" args (m0, 0)
    s1 ← characteristics_loop 64 buf size f.characteristics 0 s0
    s2 ←
        append_if (leb 21 len) buf size " system bios: %d" (int f.system_bios_major_release ∷ []) s1
    s3 ← append_if (leb 23 len) buf size ".%d" (int f.system_bios_minor_release ∷ []) s2
    s4 ← append_if (leb 23 len) buf size " firmware: %d" (int f.ec_firmware_major_release ∷ []) s3
    s5 ← append_if (leb 24 len) buf size ".%d" (int f.ec_firmware_minor_release ∷ []) s4
    s6 ←
        if len == 26
        then (do
          bytes ← extended_rom_bytes f
          (m6, extended) ← readable s5.0 buf2 bytes
          append buf size " extended Rom: %s" (text (some extended) ∷ []) (m6, s5.1))
        else ok s5
    ok s6.0
