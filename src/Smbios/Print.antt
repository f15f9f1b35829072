-- ===== src/Smbios/Print.antt =====
-- The toString methods of smbios.cpp: calls of ksnprintf that append to one buffer. `text` is
-- `getString(this, ·)`, as the text that it points to; `none` is the null pointer. `state` is the memory
-- and `n`.
use dvnetos.Base.{
  ℕ, ◌+◌, ◌-◌, ◌%◌, ◌^◌, ◌||◌, Bool, not, Option, none, some, List, [], ◌∷◌, ltb, leb, ◌==◌,
  if◌then◌else◌, String, codes, add64, sub64,
}
use dvnetos.CString.{Mem, strlen}
use dvnetos.Stdio.{Run, ok, undefined, ◌>>=◌, Arg, int, long, text}
use dvnetos.Stdio.Print.{ksnprintf}
use dvnetos.Bytes.{to_size, bytes_to_human_readable}
use dvnetos.Smbios.{SystemInfo, ChassisInfo, ProcessorInfo, PhysicalMemoryArray, MemoryDevice}
use dvnetos.Smbios.Names.{Cases, to_string}
use dvnetos.Smbios.Enums.{
  chassis_state_names, chassis_security_status_names, processor_type_names, processor_family_names,
  physical_memory_array_location_names, physical_memory_array_use_names,
  memory_error_correction_names,
}
use dvnetos.Smbios.Getters.{get_maximum_capacity, get_size}
use dvnetos.Smbios.Processor.{
  is_populated, get_status_string, get_socket, get_serial_number, get_asset_tag, get_part_number,
  get_cores, get_cores_enabled, get_threads,
}

abbrev pub State : Type 0
State = Mem × ℕ

-- `n` is of type int, and `state` holds its conversion to size_t: a sum of ints outside of the range
-- is undefined, and a size_t stored in `n` is taken modulo 2^32.
abbrev checked_int : ℕ → Run ℕ
checked_int n = if ltb n (2 ^ 31) || leb (2 ^ 64 - 2 ^ 31) n then ok n else undefined

abbrev to_int : ℕ → ℕ
to_int n = let u = n % 2 ^ 32 in if ltb u (2 ^ 31) then u else 2 ^ 64 - 2 ^ 32 + u

-- `n += ksnprintf(buf + n, size - n, format, …);`
unfoldable pub append : (buf size : ℕ) → String → List Arg → State → Run State
unfolding ksnprintf
append buf size format args (m, n) = do
  (m', r) ← ksnprintf m (add64 buf n) (sub64 size n) (codes format) args
  n' ← checked_int (add64 n (to_size r))
  ok (m', n')

abbrev pub append_if : Bool → (buf size : ℕ) → String → List Arg → State → Run State
append_if b buf size format args s = if b then append buf size format args s else ok s

-- The same for a text that may be null, where null is skipped.
abbrev pub append_some : (buf size : ℕ) → String → Option (List ℕ) → State → Run State
append_some buf size format none s = ok s
append_some buf size format (some cs) s = append buf size format (text (some cs) ∷ []) s

-- The same for the name of a value.
abbrev pub append_name : (buf size : ℕ) → String → Cases → ℕ → State → Run State
append_name buf size format cases value s = do
  name ← to_string cases value
  append buf size format (text (some name) ∷ []) s

-- `n += strlen(bytesToHumanReadable(buf + n, size - n, bytes));`, where strlen finds the terminator
-- within the buffer.
unfoldable pub append_bytes : (buf size bytes : ℕ) → State → Run State
unfolding bytes_to_human_readable strlen
append_bytes buf size bytes (m, n) = do
  m' ← bytes_to_human_readable 4 m (add64 buf n) (sub64 size n) bytes
  elim (strlen size m' (add64 buf n)) [ none ↦ undefined | some k ↦ ok (m', to_int (add64 n k)) ]

module _ (str : ℕ → Option (List ℕ)) where
  unfoldable pub system_info_to_string : Mem → (buf size : ℕ) → SystemInfo → Run Mem
  unfolding ksnprintf
  system_info_to_string m buf size s = do
    let args =
        text (str s.vendor)
        ∷ text (str s.product)
        ∷ text (str s.version)
        ∷ text (str s.serial)
        ∷ text (str s.sku)
        ∷ text (str s.family)
        ∷ []
    (m', r) ←
        ksnprintf m buf size
          (codes "System vendor: %s product: %s version: %s serial: %s sku: %s family: %s") args
    ok m'

  unfoldable pub chassis_info_to_string : Mem → (buf size : ℕ) → ChassisInfo → Run Mem
  unfolding append
  chassis_info_to_string m buf size c = do
    let len = c.header.length
    let args =
        text (str c.manufacturer)
        ∷ text (str c.version)
        ∷ text (str c.serial)
        ∷ text (str c.asset_tag)
        ∷ []
    s0 ← append buf size "Chassis manufacturer: %s version: %s serial: %s asset: %s" args (m, 0)
    s1 ←
        if leb 10 len
        then append_name buf size " bootup State: %s" chassis_state_names c.boot_up_state s0
        else ok s0
    s2 ←
        if leb 11 len
        then append_name buf size " power Supply State: %s" chassis_state_names c.power_supply_state
            s1
        else ok s1
    s3 ←
        if leb 12 len
        then append_name buf size " thermalState: %s" chassis_state_names c.thermal_state s2
        else ok s2
    s4 ←
        if leb 13 len
        then append_name buf size " securityStatus: %s" chassis_security_status_names
            c.security_status s3
        else ok s3
    s5 ← append_if (leb 17 len) buf size " oemDefined: %d" (int c.oem_defined ∷ []) s4
    s6 ← append_if (leb 18 len) buf size " height: %d" (int c.height ∷ []) s5
    s7 ← append_if (leb 19 len) buf size " powerCords: %d" (int c.number_of_power_cords ∷ []) s6
    s8 ←
        append_if (leb 20 len) buf size " containedElements: %d"
          (int c.contained_element_count ∷ []) s7
    ok s8.0

  -- A numeric getter that returns 0 is skipped.
  abbrev pub append_number : (buf size : ℕ) → String → ℕ → State → Run State
  append_number buf size format v s = append_if (not (v == 0)) buf size format (int v ∷ []) s

  unfoldable pub processor_info_to_string : Mem → (buf size : ℕ) → ProcessorInfo → Run Mem
  unfolding append is_populated get_status_string get_socket get_serial_number get_asset_tag
      get_part_number get_cores get_cores_enabled get_threads
  processor_info_to_string m buf size p = do
    s0 ← append buf size "%s" (text (str p.socket_designation) ∷ []) (m, 0)
    s1 ← append_name buf size " type: %s" processor_type_names p.processor_type s0
    s2 ← append_name buf size " family: %s" processor_family_names p.processor_family s1
    s3 ← append_some buf size " manufacturer: %s" (str p.processor_manufacturer) s2
    s4 ← append buf size " id: %lu" (long p.processor_id ∷ []) s3
    s5 ← append_some buf size " version: %s" (str p.processor_version) s4
    s6 ← append_number buf size " externalClock: %dMHz" p.external_clock s5
    s7 ← append_number buf size " maxSpeed: %dMHz" p.max_speed s6
    s8 ← append_number buf size " currentSpeed: %dMHz" p.current_speed s7
    let populated = if is_populated p then codes "populated" else codes "unpopulated"
    s9 ← append buf size " status: %s" (text (some populated) ∷ []) s8
    s10 ← append buf size " status: %s" (text (get_status_string p) ∷ []) s9
    s11 ← append buf size " socket: %s" (text (get_socket str p) ∷ []) s10
    s12 ← append_some buf size " serial: %s" (get_serial_number str p) s11
    s13 ← append_some buf size " asset: %s" (get_asset_tag str p) s12
    s14 ← append_some buf size " part: %s" (get_part_number str p) s13
    s15 ← append_number buf size " cores: %d" (get_cores p) s14
    s16 ← append_number buf size " enabled: %d" (get_cores_enabled p) s15
    s17 ← append_number buf size " threads: %d" (get_threads p) s16
    ok s17.0

unfoldable pub physical_memory_array_to_string :
    Mem → (buf size : ℕ) → PhysicalMemoryArray → Run Mem
unfolding append append_bytes get_maximum_capacity
physical_memory_array_to_string m buf size a = do
  location ← to_string physical_memory_array_location_names a.location
  usage ← to_string physical_memory_array_use_names a.usage
  error ← to_string memory_error_correction_names a.memory_error_correction
  let args = int a.header.handle ∷ text (some location) ∷ text (some usage) ∷ text (some error) ∷ []
  s0 ← append buf size "Physical Memory Array handle: %x location: %s use: %s error: %s" args (m, 0)
  s1 ←
      append_if (not (a.number_of_devices == 0)) buf size " devices: %d"
        (int a.number_of_devices ∷ []) s0
  let capacity = (do
    s2 ← append buf size " max capacity: " [] s1
    s3 ← append_bytes buf size (get_maximum_capacity a) s2
    ok s3.0)
  if ltb 0 (get_maximum_capacity a) then capacity else ok s1.0

unfoldable pub memory_device_to_string : Mem → (buf size : ℕ) → MemoryDevice → Run Mem
unfolding append append_bytes get_size
memory_device_to_string m buf size d = do
  let args = int d.header.handle ∷ int d.physical_memory_array_handle ∷ []
  s0 ← append buf size "Memory Device %x array %x" args (m, 0)
  let with_size = (do
    s1 ← append buf size " size: " [] s0
    s2 ← append_bytes buf size (get_size d) s1
    ok s2.0)
  if ltb 0 (get_size d) then with_size else ok s0.0
