-- ===== src/Smbios/Layout.antt =====
-- A structure of SMBIOS in memory: packed, with the least significant byte first.
use dvnetos.Base.{ℕ, zero, suc, ◌+◌, ◌*◌, List, [], ◌∷◌}
use dvnetos.CString.{Mem}
use dvnetos.Smbios.{
  TableHeader, FirmwareInfo, SystemInfo, ChassisInfo, ProcessorInfo, PhysicalMemoryArray,
  MemoryDevice,
}
use dvnetos.Smbios.Init.{Entry32, Entry64}

-- An unsigned field of a number of bytes.
unfoldable pub read_le : (bytes : ℕ) → Mem → ℕ → ℕ
read_le zero m a = 0
read_le (suc bytes) m a = m a + 256 * read_le bytes m (a + 1)

unfoldable pub read_bytes : (bytes : ℕ) → Mem → ℕ → List ℕ
read_bytes zero m a = []
read_bytes (suc bytes) m a = m a ∷ read_bytes bytes m (a + 1)

unfoldable pub read_header : Mem → ℕ → TableHeader
unfolding read_le
read_header m a = record { type = m a; length = m (a + 1); handle = read_le 2 m (a + 2) }

unfoldable pub read_firmware_info : Mem → ℕ → FirmwareInfo
unfolding read_le read_bytes read_header
read_firmware_info m a = record {
  header = read_header m a;
  vendor = m (a + 4);
  version = m (a + 5);
  bios_start_address = read_le 2 m (a + 6);
  release_date = m (a + 8);
  rom_size = m (a + 9);
  characteristics = read_le 8 m (a + 10);
  characteristics_ext = read_bytes 2 m (a + 18);
  system_bios_major_release = m (a + 20);
  system_bios_minor_release = m (a + 21);
  ec_firmware_major_release = m (a + 22);
  ec_firmware_minor_release = m (a + 23);
  extended_firmware_rom_size = read_le 2 m (a + 24);
}

unfoldable pub read_system_info : Mem → ℕ → SystemInfo
unfolding read_le read_bytes read_header
read_system_info m a = record {
  header = read_header m a;
  vendor = m (a + 4);
  product = m (a + 5);
  version = m (a + 6);
  serial = m (a + 7);
  uuid = read_bytes 16 m (a + 8);
  wake_up_type = m (a + 24);
  sku = m (a + 25);
  family = m (a + 26);
}

unfoldable pub read_chassis_info : Mem → ℕ → ChassisInfo
unfolding read_le read_bytes read_header
read_chassis_info m a = record {
  header = read_header m a;
  manufacturer = m (a + 4);
  type = m (a + 5);
  version = m (a + 6);
  serial = m (a + 7);
  asset_tag = m (a + 8);
  boot_up_state = m (a + 9);
  power_supply_state = m (a + 10);
  thermal_state = m (a + 11);
  security_status = m (a + 12);
  oem_defined = read_le 4 m (a + 13);
  height = m (a + 17);
  number_of_power_cords = m (a + 18);
  contained_element_count = m (a + 19);
  contained_element_record_length = m (a + 20);
}

unfoldable pub read_processor_info : Mem → ℕ → ProcessorInfo
unfolding read_le read_bytes read_header
read_processor_info m a = record {
  header = read_header m a;
  socket_designation = m (a + 4);
  processor_type = m (a + 5);
  processor_family = m (a + 6);
  processor_manufacturer = m (a + 7);
  processor_id = read_le 8 m (a + 8);
  processor_version = m (a + 16);
  voltage = m (a + 17);
  external_clock = read_le 2 m (a + 18);
  max_speed = read_le 2 m (a + 20);
  current_speed = read_le 2 m (a + 22);
  status = m (a + 24);
  processor_upgrade = m (a + 25);
  l1_cache_handle = read_le 2 m (a + 26);
  l2_cache_handle = read_le 2 m (a + 28);
  l3_cache_handle = read_le 2 m (a + 30);
  serial_number = m (a + 32);
  asset_tag = m (a + 33);
  part_number = m (a + 34);
  core_count = m (a + 35);
  core_enabled = m (a + 36);
  thread_count = m (a + 37);
  processor_characteristics = read_le 2 m (a + 38);
  processor_family2 = read_le 2 m (a + 40);
  core_count2 = read_le 2 m (a + 42);
  core_enabled2 = read_le 2 m (a + 44);
  thread_count2 = read_le 2 m (a + 46);
  thread_enabled = read_le 2 m (a + 48);
  socket_type = m (a + 50);
}

unfoldable pub read_physical_memory_array : Mem → ℕ → PhysicalMemoryArray
unfolding read_le read_bytes read_header
read_physical_memory_array m a = record {
  header = read_header m a;
  location = m (a + 4);
  usage = m (a + 5);
  memory_error_correction = m (a + 6);
  maximum_capacity = read_le 4 m (a + 7);
  error_handle = read_le 2 m (a + 11);
  number_of_devices = read_le 2 m (a + 13);
  extended_maximum_capacity = read_le 8 m (a + 15);
}

unfoldable pub read_memory_device : Mem → ℕ → MemoryDevice
unfolding read_le read_bytes read_header
read_memory_device m a = record {
  header = read_header m a;
  physical_memory_array_handle = read_le 2 m (a + 4);
  memory_error_information_handle = read_le 2 m (a + 6);
  total_width = read_le 2 m (a + 8);
  data_width = read_le 2 m (a + 10);
  size = read_le 2 m (a + 12);
  form_factor = m (a + 14);
  device_set = m (a + 15);
  device_locator = m (a + 16);
  bank_locator = m (a + 17);
  memory_type = m (a + 18);
  type_detail = read_le 2 m (a + 19);
  speed = read_le 2 m (a + 21);
  manufacturer = m (a + 23);
  serial_number = m (a + 24);
  asset_tag = m (a + 25);
  part_number = m (a + 26);
  attributes = m (a + 27);
  extended_size = read_le 4 m (a + 28);
  configured_memory_speed = read_le 2 m (a + 32);
  minimum_voltage = read_le 2 m (a + 34);
  maximum_voltage = read_le 2 m (a + 36);
  configured_voltage = read_le 2 m (a + 38);
  memory_technology = m (a + 40);
  memory_operating_mode_capability = read_le 2 m (a + 41);
  firmware_version = m (a + 43);
  module_manufacturer = read_le 2 m (a + 44);
  module_product = read_le 2 m (a + 46);
  memory_sub_system_controller_manufacturer_id = read_le 2 m (a + 48);
  memory_sub_system_controller_product_id = read_le 2 m (a + 50);
  non_volatile_size = read_le 8 m (a + 52);
  volatile_size = read_le 8 m (a + 60);
  cache_size = read_le 8 m (a + 68);
  logical_size = read_le 8 m (a + 76);
  extended_speed = read_le 4 m (a + 84);
  extended_configured_memory_speed = read_le 2 m (a + 88);
  pmic0_manufacturer_id = read_le 2 m (a + 90);
  pmic0_revision_number = read_le 2 m (a + 92);
  rcd_manufacturer_id = read_le 2 m (a + 94);
  rcd_revision_number = read_le 2 m (a + 96);
}

unfoldable pub read_entry32 : Mem → ℕ → Entry32
unfolding read_le read_bytes
read_entry32 m a = record {
  anchor = read_bytes 4 m a;
  checksum = m (a + 4);
  length = m (a + 5);
  major_version = m (a + 6);
  minor_version = m (a + 7);
  max_structure_size = read_le 2 m (a + 8);
  implementation_revision = m (a + 10);
  formatted_area = read_bytes 5 m (a + 11);
  anchor_string = read_bytes 5 m (a + 16);
  checksum2 = m (a + 21);
  table_length = read_le 2 m (a + 22);
  table_address = read_le 4 m (a + 24);
  number_of_structures = read_le 2 m (a + 28);
  bcd_revision = m (a + 30);
}

unfoldable pub read_entry64 : Mem → ℕ → Entry64
unfolding read_le read_bytes
read_entry64 m a = record {
  anchor = read_bytes 5 m a;
  checksum = m (a + 5);
  length = m (a + 6);
  major_version = m (a + 7);
  minor_version = m (a + 8);
  docrev = m (a + 9);
  entry_point_revision = m (a + 10);
  reserved = m (a + 11);
  table_length = read_le 4 m (a + 12);
  table_address = read_le 8 m (a + 16);
}
