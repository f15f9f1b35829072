-- ===== src/Smbios/Types/TableType.antt =====
-- `TableType` of kernel/smbios/smbios.h.
use dvnetos.Base.{ℕ, ◌≡◌, refl, some, List, [], ◌∷◌, get_elem?}

pub data TableType : Type 0 where
  firmware_info system_info baseboard_info chassis_info processor_info : TableType
  memory_controller_info memory_module_info cache_info port_connector_info : TableType
  system_slots_info on_board_devices_info oem_strings system_configuration_options : TableType
  bios_language_info group_associations system_event_log physical_memory_array : TableType
  memory_device memory_error_info32 memory_array_mapped_address : TableType
  memory_device_mapped_address builtin_pointing_device portable_battery system_reset : TableType
  hardware_security system_power_controls voltage_probe cooling_device : TableType
  temperature_probe electrical_current_probe out_of_band_remote_access : TableType
  boot_integrity_services system_boot_info memory_error_info64 management_device : TableType
  management_device_component management_device_threshold_data memory_channel : TableType
  ipmi_device_info system_power_supply additional_info onboard_devices_ext_info : TableType
  management_controller_host_interface tpm_device processor_additional_info : TableType
  memory_module_additional_info management_component_transport inactive end_of_table : TableType

unfoldable pub value : TableType → ℕ
value firmware_info = 0
value system_info = 1
value baseboard_info = 2
value chassis_info = 3
value processor_info = 4
value memory_controller_info = 5
value memory_module_info = 6
value cache_info = 7
value port_connector_info = 8
value system_slots_info = 9
value on_board_devices_info = 10
value oem_strings = 11
value system_configuration_options = 12
value bios_language_info = 13
value group_associations = 14
value system_event_log = 15
value physical_memory_array = 16
value memory_device = 17
value memory_error_info32 = 18
value memory_array_mapped_address = 19
value memory_device_mapped_address = 20
value builtin_pointing_device = 21
value portable_battery = 22
value system_reset = 23
value hardware_security = 24
value system_power_controls = 25
value voltage_probe = 26
value cooling_device = 27
value temperature_probe = 28
value electrical_current_probe = 29
value out_of_band_remote_access = 30
value boot_integrity_services = 31
value system_boot_info = 32
value memory_error_info64 = 33
value management_device = 34
value management_device_component = 35
value management_device_threshold_data = 36
value memory_channel = 37
value ipmi_device_info = 38
value system_power_supply = 39
value additional_info = 40
value onboard_devices_ext_info = 41
value management_controller_host_interface = 42
value tpm_device = 43
value processor_additional_info = 44
value memory_module_additional_info = 45
value management_component_transport = 46
value inactive = 126
value end_of_table = 127

abbrev pub all : List TableType
all =
    firmware_info ∷ system_info ∷ baseboard_info ∷ chassis_info ∷ processor_info
    ∷ memory_controller_info ∷ memory_module_info ∷ cache_info ∷ port_connector_info
    ∷ system_slots_info ∷ on_board_devices_info ∷ oem_strings ∷ system_configuration_options
    ∷ bios_language_info ∷ group_associations ∷ system_event_log ∷ physical_memory_array
    ∷ memory_device ∷ memory_error_info32 ∷ memory_array_mapped_address
    ∷ memory_device_mapped_address ∷ builtin_pointing_device ∷ portable_battery ∷ system_reset
    ∷ hardware_security ∷ system_power_controls ∷ voltage_probe ∷ cooling_device ∷ temperature_probe
    ∷ electrical_current_probe ∷ out_of_band_remote_access ∷ boot_integrity_services
    ∷ system_boot_info ∷ memory_error_info64 ∷ management_device ∷ management_device_component
    ∷ management_device_threshold_data ∷ memory_channel ∷ ipmi_device_info ∷ system_power_supply
    ∷ additional_info ∷ onboard_devices_ext_info ∷ management_controller_host_interface ∷ tpm_device
    ∷ processor_additional_info ∷ memory_module_additional_info ∷ management_component_transport
    ∷ inactive ∷ end_of_table ∷ []

pub place : (e : TableType) → (i : ℕ) × (get_elem? all i ≡ some e)
place firmware_info = (0, refl)
place system_info = (1, refl)
place baseboard_info = (2, refl)
place chassis_info = (3, refl)
place processor_info = (4, refl)
place memory_controller_info = (5, refl)
place memory_module_info = (6, refl)
place cache_info = (7, refl)
place port_connector_info = (8, refl)
place system_slots_info = (9, refl)
place on_board_devices_info = (10, refl)
place oem_strings = (11, refl)
place system_configuration_options = (12, refl)
place bios_language_info = (13, refl)
place group_associations = (14, refl)
place system_event_log = (15, refl)
place physical_memory_array = (16, refl)
place memory_device = (17, refl)
place memory_error_info32 = (18, refl)
place memory_array_mapped_address = (19, refl)
place memory_device_mapped_address = (20, refl)
place builtin_pointing_device = (21, refl)
place portable_battery = (22, refl)
place system_reset = (23, refl)
place hardware_security = (24, refl)
place system_power_controls = (25, refl)
place voltage_probe = (26, refl)
place cooling_device = (27, refl)
place temperature_probe = (28, refl)
place electrical_current_probe = (29, refl)
place out_of_band_remote_access = (30, refl)
place boot_integrity_services = (31, refl)
place system_boot_info = (32, refl)
place memory_error_info64 = (33, refl)
place management_device = (34, refl)
place management_device_component = (35, refl)
place management_device_threshold_data = (36, refl)
place memory_channel = (37, refl)
place ipmi_device_info = (38, refl)
place system_power_supply = (39, refl)
place additional_info = (40, refl)
place onboard_devices_ext_info = (41, refl)
place management_controller_host_interface = (42, refl)
place tpm_device = (43, refl)
place processor_additional_info = (44, refl)
place memory_module_additional_info = (45, refl)
place management_component_transport = (46, refl)
place inactive = (47, refl)
place end_of_table = (48, refl)
