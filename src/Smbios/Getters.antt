-- ===== src/Smbios/Getters.antt =====
-- The getters of smbios.cpp for memory; a test of `offsetof` against the length has the offset of the
-- field in the packed structure.
use dvnetos.Base.{ℕ, ◌*◌, ◌/◌, ◌%◌, ◌^◌, leb, ◌==◌, if◌then◌else◌, mul64}
use dvnetos.Stdio.{Run, ok, panic}
use dvnetos.Smbios.{PhysicalMemoryArray, MemoryDevice, FirmwareInfo}

unfoldable pub get_maximum_capacity : PhysicalMemoryArray → ℕ
get_maximum_capacity a =
    if a.maximum_capacity == 0x8000000
    then if a.header.length == 23 then a.extended_maximum_capacity else 0
    else mul64 a.maximum_capacity 1024

unfoldable pub get_size : MemoryDevice → ℕ
get_size d =
    if d.size == 0x7fff
    then if leb 32 d.header.length then mul64 (mul64 (d.extended_size % 2 ^ 31) 1024) 1024 else 0
    else if d.size / 2 ^ 15 % 2 == 1
    then mul64 (d.size % 2 ^ 15) 1024
    else mul64 (mul64 d.size 1024) 1024

-- The number of bytes of the extended ROM size, where the structure has it.
unfoldable pub extended_rom_bytes : FirmwareInfo → Run ℕ
extended_rom_bytes f =
    let units = f.extended_firmware_rom_size / 2 ^ 14 % 4 in
    let bytes = f.extended_firmware_rom_size / 4 * 4 in
    if units == 0
    then ok (mul64 bytes (1024 * 1024))
    else if units == 1
    then ok (mul64 bytes (1024 * 1024 * 1024))
    else panic 0
