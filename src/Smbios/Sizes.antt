-- ===== src/Smbios/Sizes.antt =====
-- The sizes that the getters compute.
use dvnetos.CString.{Mem}
use dvnetos.Smbios.Layout.{read_le, read_memory_device}
use dvnetos.Base.{
  ◌∙◌, ℕ, zero, suc, ◌+◌, ◌-◌, ◌*◌, ◌/◌, ◌%◌, ◌^◌, ◌≤◌, ◌<◌, ◌≡◌, ap, true, false, arith, ◌==◌,
}
use dvnetos.Stdio.{ok}
use dvnetos.Smbios.{MemoryDevice, FirmwareInfo}
use dvnetos.Smbios.Getters.{get_size, extended_rom_bytes}

-- The fields are within their widths.
abbrev pub IsDevice : MemoryDevice → Type 0
IsDevice d = (d.size < 2 ^ 16) × (d.extended_size < 2 ^ 32)

-- For fields within their widths no product wraps around: the size of a memory device counts
-- megabytes, or kilobytes if bit 15 is set; the escape value 0x7fff stands for the extended size
-- without its highest bit, in megabytes, or for 0 in a structure too short to have it.
pub get_size_lem :
    (d : MemoryDevice)
    → IsDevice d
    → (d.size < 0x7fff → get_size d ≡ d.size * 2 ^ 20)
      × (0x8000 ≤ d.size → get_size d ≡ (d.size - 0x8000) * 2 ^ 10)
      × (d.size ≡ 0x7fff → 32 ≤ d.header.length → get_size d ≡ d.extended_size % 2 ^ 31 * 2 ^ 20)
      × (d.size ≡ 0x7fff → d.header.length < 32 → get_size d ≡ 0)
unfolding get_size
get_size_lem d (narrow, wide) = (
  λ below. ground arith,
  λ above. ground arith,
  λ escape long. ground arith,
  λ escape short. ground arith,
)

read_le-bound :
    (bytes : ℕ) (m : Mem) (a : ℕ) → ((x : ℕ) → m x < 256) → read_le bytes m a < 256 ^ bytes
unfolding read_le
read_le-bound zero m a narrow = omega arith
read_le-bound (suc bytes) m a narrow =
    let power : 256 ^ suc bytes ≡ 256 * 256 ^ bytes = omega arith in
    omega (arith, narrow a, read_le-bound bytes m (a + 1) narrow, power)

-- The fields of a structure that is read from bytes are within their widths.
read_memory_device-IsDevice :
    (m : Mem) (a : ℕ) → ((x : ℕ) → m x < 256) → IsDevice (read_memory_device m a)
unfolding read_memory_device
read_memory_device-IsDevice m a narrow =
    (read_le-bound 2 m (a + 12) narrow, read_le-bound 4 m (a + 28) narrow)

read_le-two : (m : Mem) (a b : ℕ) → b ≡ a + 1 → read_le 2 m a ≡ m a + 256 * m b
unfolding read_le
read_le-two m a b next = rw next (omega arith)

read_le-four :
    (m : Mem) (a b c d : ℕ)
    → b ≡ a + 1
    → c ≡ b + 1
    → d ≡ c + 1
    → read_le 4 m a ≡ m a + 256 * m b + 65536 * m c + 16777216 * m d
unfolding read_le
read_le-four m a b c d next next' next'' = rw (next'', next', next) (omega arith)

-- For a memory of bytes, the size that getSize computes for the memory device at an address is, by the
-- 16-bit number 12 bytes behind it: that number of megabytes below 0x7fff, its low 15 bits of
-- kilobytes above, and for the escape value 0x7fff the 32-bit number 28 bytes behind without its highest
-- bit, in megabytes, or 0 in a structure too short to have it. No product wraps around.
pub get_size-read_memory_device :
    (m : Mem) (a : ℕ)
    → ((x : ℕ) → m x < 256)
    → (let size = m (a + 12) + 256 * m (a + 13) in
        let extended = m (a + 28) + 256 * m (a + 29) + 65536 * m (a + 30) + 16777216 * m (a + 31) in
        let d = read_memory_device m a in
        (size < 0x7fff → get_size d ≡ size * 2 ^ 20)
        × (0x8000 ≤ size → get_size d ≡ (size - 0x8000) * 2 ^ 10)
        × (size ≡ 0x7fff → 32 ≤ m (a + 1) → get_size d ≡ extended % 2 ^ 31 * 2 ^ 20)
        × (size ≡ 0x7fff → m (a + 1) < 32 → get_size d ≡ 0))
unfolding read_memory_device
get_size-read_memory_device m a narrow =
    let (small, large, long, short) =
      get_size_lem (read_memory_device m a) (read_memory_device-IsDevice m a narrow) in
    let size = read_le-two m (a + 12) (a + 13) (omega arith) in
    let extended =
      read_le-four m (a + 28) (a + 29) (a + 30) (a + 31) (omega arith) (omega arith)
        (omega arith) in
    (
      λ h. small (omega (arith, size, h)) ∙ ap (λ z. z * 2 ^ 20) size,
      λ h. large (omega (arith, size, h)) ∙ ap (λ z. (z - 0x8000) * 2 ^ 10) size,
      λ h h'. long (size ∙ h) h' ∙ ap (λ z. z % 2 ^ 31 * 2 ^ 20) extended,
      λ h h'. short (size ∙ h) h',
    )

-- The extended ROM size keeps its unit bits in the number: what the code computes for a size in
-- gigabytes is 2^14 gigabytes more than the number of gigabytes, rounded down to a multiple of four.
pub extended_rom_bytes-unit :
    (f : FirmwareInfo)
    → f.extended_firmware_rom_size / 2 ^ 14 ≡ 1
    → extended_rom_bytes f ≡ ok ((2 ^ 14 + f.extended_firmware_rom_size % 2 ^ 14 / 4 * 4) * 2 ^ 30)
unfolding extended_rom_bytes
extended_rom_bytes-unit f h =
    let unit : (f.extended_firmware_rom_size / 2 ^ 14 % 4 == 0) ≡ false = ground arith in
    let unit' : (f.extended_firmware_rom_size / 2 ^ 14 % 4 == 1) ≡ true = ground arith in
    rw (unit, unit') (ap ok (omega arith))
