-- ===== src/Smbios.antt =====
-- kernel/smbios/smbios.h and the parts of smbios.cpp that read a structure. A field holds the number
-- in it; an enumeration is the number of its value.
pub mod Names
pub mod Types
pub mod Enums
pub mod Strings
pub mod Getters
pub mod Processor
pub mod Sockets
pub mod Print
pub mod Pieces
pub mod Sizes
pub mod Lookup
pub mod Scan
pub mod Walk
pub mod Firmware
pub mod Init
pub mod Layout
mod Tests
use dvnetos.Base.{ℕ, List}

-- `TableHeader`
pub record TableHeader : Type 0 where
  pub type : ℕ
  pub length : ℕ
  pub handle : ℕ

-- `FirmwareInfo`, with its header
pub record FirmwareInfo : Type 0 where
  pub header : TableHeader
  pub vendor : ℕ
  pub version : ℕ
  pub bios_start_address : ℕ
  pub release_date : ℕ
  pub rom_size : ℕ
  pub characteristics : ℕ
  pub characteristics_ext : List ℕ
  pub system_bios_major_release : ℕ
  pub system_bios_minor_release : ℕ
  pub ec_firmware_major_release : ℕ
  pub ec_firmware_minor_release : ℕ
  pub extended_firmware_rom_size : ℕ

-- `SystemInfo`, with its header
pub record SystemInfo : Type 0 where
  pub header : TableHeader
  pub vendor : ℕ
  pub product : ℕ
  pub version : ℕ
  pub serial : ℕ
  pub uuid : List ℕ
  pub wake_up_type : ℕ
  pub sku : ℕ
  pub family : ℕ

-- `ChassisInfo`, with its header
pub record ChassisInfo : Type 0 where
  pub header : TableHeader
  pub manufacturer : ℕ
  pub type : ℕ
  pub version : ℕ
  pub serial : ℕ
  pub asset_tag : ℕ
  pub boot_up_state : ℕ
  pub power_supply_state : ℕ
  pub thermal_state : ℕ
  pub security_status : ℕ
  pub oem_defined : ℕ
  pub height : ℕ
  pub number_of_power_cords : ℕ
  pub contained_element_count : ℕ
  pub contained_element_record_length : ℕ

-- `ProcessorInfo`, with its header
pub record ProcessorInfo : Type 0 where
  pub header : TableHeader
  pub socket_designation : ℕ
  pub processor_type : ℕ
  pub processor_family : ℕ
  pub processor_manufacturer : ℕ
  pub processor_id : ℕ
  pub processor_version : ℕ
  pub voltage : ℕ
  pub external_clock : ℕ
  pub max_speed : ℕ
  pub current_speed : ℕ
  pub status : ℕ
  pub processor_upgrade : ℕ
  pub l1_cache_handle : ℕ
  pub l2_cache_handle : ℕ
  pub l3_cache_handle : ℕ
  pub serial_number : ℕ
  pub asset_tag : ℕ
  pub part_number : ℕ
  pub core_count : ℕ
  pub core_enabled : ℕ
  pub thread_count : ℕ
  pub processor_characteristics : ℕ
  pub processor_family2 : ℕ
  pub core_count2 : ℕ
  pub core_enabled2 : ℕ
  pub thread_count2 : ℕ
  pub thread_enabled : ℕ
  pub socket_type : ℕ

-- `PhysicalMemoryArray`, with its header
pub record PhysicalMemoryArray : Type 0 where
  pub header : TableHeader
  pub location : ℕ
  pub usage : ℕ
  pub memory_error_correction : ℕ
  pub maximum_capacity : ℕ
  pub error_handle : ℕ
  pub number_of_devices : ℕ
  pub extended_maximum_capacity : ℕ

-- `MemoryDevice`, with its header
pub record MemoryDevice : Type 0 where
  pub header : TableHeader
  pub physical_memory_array_handle : ℕ
  pub memory_error_information_handle : ℕ
  pub total_width : ℕ
  pub data_width : ℕ
  pub size : ℕ
  pub form_factor : ℕ
  pub device_set : ℕ
  pub device_locator : ℕ
  pub bank_locator : ℕ
  pub memory_type : ℕ
  pub type_detail : ℕ
  pub speed : ℕ
  pub manufacturer : ℕ
  pub serial_number : ℕ
  pub asset_tag : ℕ
  pub part_number : ℕ
  pub attributes : ℕ
  pub extended_size : ℕ
  pub configured_memory_speed : ℕ
  pub minimum_voltage : ℕ
  pub maximum_voltage : ℕ
  pub configured_voltage : ℕ
  pub memory_technology : ℕ
  pub memory_operating_mode_capability : ℕ
  pub firmware_version : ℕ
  pub module_manufacturer : ℕ
  pub module_product : ℕ
  pub memory_sub_system_controller_manufacturer_id : ℕ
  pub memory_sub_system_controller_product_id : ℕ
  pub non_volatile_size : ℕ
  pub volatile_size : ℕ
  pub cache_size : ℕ
  pub logical_size : ℕ
  pub extended_speed : ℕ
  pub extended_configured_memory_speed : ℕ
  pub pmic0_manufacturer_id : ℕ
  pub pmic0_revision_number : ℕ
  pub rcd_manufacturer_id : ℕ
  pub rcd_revision_number : ℕ
