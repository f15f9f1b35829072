-- ===== src/Kernel/Tables.antt =====
-- What `SMBIOS::init` and `dumpTable` of kernel/smbios/smbios.cpp print, with the structures read from
-- memory. What is printed is not stored over the table.
use dvnetos.Base.{
  ℕ, ◌%◌, ◌^◌, Option, none, some, List, [], ◌∷◌, ◌==◌, if◌then◌else◌, String, codes, add64,
}
use dvnetos.CString.{Mem}
use dvnetos.Stdio.{Run, ok, panic, undefined, ◌>>=◌, int, text, pointer}
use dvnetos.Stdio.Read.{read_text}
use dvnetos.Aarch64.{Paging, map_partial}
use dvnetos.Smbios.Names.{table_type_names, to_string}
use dvnetos.Smbios.Strings.{
  Action, firmware, system, chassis, processor, memory_array, memory_device, unhandled,
  end_of_table, get_string, dump_table,
}
use dvnetos.Smbios.Layout.{
  read_firmware_info, read_system_info, read_chassis_info, read_processor_info,
  read_physical_memory_array, read_memory_device, read_entry32, read_entry64,
}
use dvnetos.Smbios.Firmware.{firmware_info_to_string}
use dvnetos.Smbios.Print.{
  system_info_to_string, chassis_info_to_string, processor_info_to_string,
  physical_memory_array_to_string, memory_device_to_string,
}
use dvnetos.Smbios.Init.{Response}
use dvnetos.Kernel.{Devices, or_panic, or_undefined, print, print_formatted}

-- `fuel` is for the structures of a table and for the bytes of a string; `literal` has the places of the
-- texts of kprint, and the buffers are those of appendFormattedText, of dumpTable, and of
-- `FirmwareInfo::toString`.
module _ (fuel : ℕ) (literal : String → ℕ) (format_buffer buf buf2 : ℕ) where
  -- `getString`, as the text that it points to.
  unfoldable pub string_at : Mem → (entry index : ℕ) → Option (List ℕ)
  unfolding get_string read_text
  string_at m entry index = elim (get_string fuel m entry index) [
    | none ↦ none
    | some p ↦ elim (read_text fuel m p) [
      | ok cs ↦ if p == 0 then none else some cs
      | panic c ↦ none
      | undefined ↦ none
    ]
  ]

  -- `kprintf("%s\n", …)` of the text that a toString has left in the buffer of dumpTable.
  unfoldable pub print_buffer : Run Mem → Devices → Run Devices
  unfolding read_text print_formatted
  print_buffer run d = do
    m ← run
    cs ← read_text 512 m buf
    print_formatted format_buffer (codes "%s\n") (text (some cs) ∷ [])
        (record d { console = record d.console { memory = m } })

  unfoldable pub print_action : Action → Devices → Run Devices
  unfolding string_at print_buffer print print_formatted firmware_info_to_string
      system_info_to_string chassis_info_to_string processor_info_to_string
      physical_memory_array_to_string memory_device_to_string read_firmware_info read_system_info
      read_chassis_info read_processor_info read_physical_memory_array read_memory_device to_string
  print_action a d =
      let m = d.console.memory in
      elim a [
        | firmware p ↦
            print_buffer
              (firmware_info_to_string (string_at m p) m buf 512 buf2 (read_firmware_info m p)) d
        | system p ↦
            print_buffer (system_info_to_string (string_at m p) m buf 512 (read_system_info m p)) d
        | chassis p ↦
            print_buffer (chassis_info_to_string (string_at m p) m buf 512 (read_chassis_info m p))
              d
        | processor p ↦
            print_buffer
              (processor_info_to_string (string_at m p) m buf 512 (read_processor_info m p)) d
        | memory_array p ↦
            print_buffer
              (physical_memory_array_to_string m buf 512 (read_physical_memory_array m p)) d
        | memory_device p ↦
            print_buffer (memory_device_to_string m buf 512 (read_memory_device m p)) d
        | unhandled type length ↦ do
          name ← to_string table_type_names type
          print_formatted format_buffer (codes "Unhandled type %s length %d\n")
              (text (some name) ∷ int length ∷ []) d
        | end_of_table ↦ print fuel (literal "End of table\n") d
      ]

  unfoldable pub print_actions : List Action → Devices → Run Devices
  unfolding print_action
  print_actions [] d = ok d
  print_actions (a ∷ as') d = do d' ← print_action a d; print_actions as' d'

  -- The rest of a branch of `SMBIOS::init`, from the message on.
  unfoldable pub show_table :
      String
      → (major minor table_address table_length flags hhdm_offset : ℕ) → Paging
      → Devices
      → Run (Paging × Devices)
  unfolding print_actions print_formatted map_partial dump_table
  show_table format major minor table_address table_length flags hhdm_offset p d = do
    d1 ←
        print_formatted format_buffer (codes format)
          (int major ∷ int minor ∷ pointer table_address ∷ int table_length ∷ []) d
    let table = add64 table_address hhdm_offset
    p1 ← or_panic (map_partial p table_address table table_length flags)
    actions ← or_undefined (dump_table fuel d1.console.memory table (table_length % 2 ^ 16))
    d2 ← print_actions actions d1
    ok (p1, d2)

  unfoldable pub show_entry :
      Option Response → (hhdm_offset : ℕ) → Paging → Devices → Run (Paging × Devices)
  unfolding show_table print map_partial read_entry32 read_entry64
  show_entry none hhdm_offset p d = do d1 ← print fuel (literal "No SMBIOS\n") d; ok (p, d1)
  show_entry (some r) hhdm_offset p d = elim r.entry_64 [
    | some entry ↦ do
      p1 ← or_panic (map_partial p entry (add64 entry hhdm_offset) 24 0x700)
      let e = read_entry64 d.console.memory (add64 entry hhdm_offset)
      show_table "SMBIOS 64-bit entry: %d.%d table at %p length %d\n" e.major_version
          e.minor_version e.table_address e.table_length 0x700 hhdm_offset p1 d
    | none ↦ elim r.entry_32 [
      | some entry ↦ do
        p1 ← or_panic (map_partial p entry (add64 entry hhdm_offset) 31 0)
        let e = read_entry32 d.console.memory (add64 entry hhdm_offset)
        show_table "SMBIOS 32-bit entry: %d.%d table at %p length %d\n" e.major_version
            e.minor_version e.table_address e.table_length 0 hhdm_offset p1 d
      | none ↦ do d1 ← print fuel (literal "No SMBIOS address\n") d; ok (p, d1)
    ]
  ]

  unfoldable pub smbios_init :
      Option Response → (hhdm_offset : ℕ) → Paging → Devices → Run (Paging × Devices)
  unfolding show_entry print
  smbios_init response hhdm_offset p d = do
    (p1, d1) ← show_entry response hhdm_offset p d
    d2 ← print fuel (literal "SMBIOS end\n") d1
    ok (p1, d2)
