-- ===== src/Smbios/Types.antt =====
-- The enumerations of kernel/smbios/smbios.h, and the names that toString has for them.
pub mod Named
pub mod TableType
pub mod FirmwareCharacteristics
pub mod ChassisState
pub mod ChassisSecurityStatus
pub mod ProcessorType
pub mod ProcessorFamily
pub mod ProcessorStatus
pub mod PhysicalMemoryArrayLocation
pub mod PhysicalMemoryArrayUse
pub mod MemoryErrorCorrection
use dvnetos.Base.{ℕ, ◌≡◌, some, List, [], ◌∷◌, get_elem?}
use dvnetos.Smbios.Names.{Cases, table_type_names, firmware_characteristics_names}
use dvnetos.Smbios.Enums.{
  chassis_state_names, chassis_security_status_names, processor_type_names, processor_family_names,
  processor_status_names, physical_memory_array_location_names, physical_memory_array_use_names,
  memory_error_correction_names,
}

-- An enumeration: the values of its enumerators, all of them in a list, and the cases of its toString.
pub record Enumeration : Type 1 where
  pub T : Type 0
  pub value : T → ℕ
  pub all : List T
  pub place : (e : T) → (i : ℕ) × (get_elem? all i ≡ some e)
  pub names : Cases

abbrev pub table_type : Enumeration
unfolding dvnetos.Smbios.Types.TableType.value
table_type = record {
  T = dvnetos.Smbios.Types.TableType.TableType;
  value = dvnetos.Smbios.Types.TableType.value;
  all = dvnetos.Smbios.Types.TableType.all;
  place = dvnetos.Smbios.Types.TableType.place;
  names = table_type_names;
}

abbrev pub firmware_characteristics : Enumeration
unfolding dvnetos.Smbios.Types.FirmwareCharacteristics.value
firmware_characteristics = record {
  T = dvnetos.Smbios.Types.FirmwareCharacteristics.FirmwareCharacteristics;
  value = dvnetos.Smbios.Types.FirmwareCharacteristics.value;
  all = dvnetos.Smbios.Types.FirmwareCharacteristics.all;
  place = dvnetos.Smbios.Types.FirmwareCharacteristics.place;
  names = firmware_characteristics_names;
}

abbrev pub chassis_state : Enumeration
unfolding dvnetos.Smbios.Types.ChassisState.value
chassis_state = record {
  T = dvnetos.Smbios.Types.ChassisState.ChassisState;
  value = dvnetos.Smbios.Types.ChassisState.value;
  all = dvnetos.Smbios.Types.ChassisState.all;
  place = dvnetos.Smbios.Types.ChassisState.place;
  names = chassis_state_names;
}

abbrev pub chassis_security_status : Enumeration
unfolding dvnetos.Smbios.Types.ChassisSecurityStatus.value
chassis_security_status = record {
  T = dvnetos.Smbios.Types.ChassisSecurityStatus.ChassisSecurityStatus;
  value = dvnetos.Smbios.Types.ChassisSecurityStatus.value;
  all = dvnetos.Smbios.Types.ChassisSecurityStatus.all;
  place = dvnetos.Smbios.Types.ChassisSecurityStatus.place;
  names = chassis_security_status_names;
}

abbrev pub processor_type : Enumeration
unfolding dvnetos.Smbios.Types.ProcessorType.value
processor_type = record {
  T = dvnetos.Smbios.Types.ProcessorType.ProcessorType;
  value = dvnetos.Smbios.Types.ProcessorType.value;
  all = dvnetos.Smbios.Types.ProcessorType.all;
  place = dvnetos.Smbios.Types.ProcessorType.place;
  names = processor_type_names;
}

abbrev pub processor_family : Enumeration
unfolding dvnetos.Smbios.Types.ProcessorFamily.value
processor_family = record {
  T = dvnetos.Smbios.Types.ProcessorFamily.ProcessorFamily;
  value = dvnetos.Smbios.Types.ProcessorFamily.value;
  all = dvnetos.Smbios.Types.ProcessorFamily.all;
  place = dvnetos.Smbios.Types.ProcessorFamily.place;
  names = processor_family_names;
}

abbrev pub processor_status : Enumeration
unfolding dvnetos.Smbios.Types.ProcessorStatus.value
processor_status = record {
  T = dvnetos.Smbios.Types.ProcessorStatus.ProcessorStatus;
  value = dvnetos.Smbios.Types.ProcessorStatus.value;
  all = dvnetos.Smbios.Types.ProcessorStatus.all;
  place = dvnetos.Smbios.Types.ProcessorStatus.place;
  names = processor_status_names;
}

abbrev pub physical_memory_array_location : Enumeration
unfolding dvnetos.Smbios.Types.PhysicalMemoryArrayLocation.value
physical_memory_array_location = record {
  T = dvnetos.Smbios.Types.PhysicalMemoryArrayLocation.PhysicalMemoryArrayLocation;
  value = dvnetos.Smbios.Types.PhysicalMemoryArrayLocation.value;
  all = dvnetos.Smbios.Types.PhysicalMemoryArrayLocation.all;
  place = dvnetos.Smbios.Types.PhysicalMemoryArrayLocation.place;
  names = physical_memory_array_location_names;
}

abbrev pub physical_memory_array_use : Enumeration
unfolding dvnetos.Smbios.Types.PhysicalMemoryArrayUse.value
physical_memory_array_use = record {
  T = dvnetos.Smbios.Types.PhysicalMemoryArrayUse.PhysicalMemoryArrayUse;
  value = dvnetos.Smbios.Types.PhysicalMemoryArrayUse.value;
  all = dvnetos.Smbios.Types.PhysicalMemoryArrayUse.all;
  place = dvnetos.Smbios.Types.PhysicalMemoryArrayUse.place;
  names = physical_memory_array_use_names;
}

abbrev pub memory_error_correction : Enumeration
unfolding dvnetos.Smbios.Types.MemoryErrorCorrection.value
memory_error_correction = record {
  T = dvnetos.Smbios.Types.MemoryErrorCorrection.MemoryErrorCorrection;
  value = dvnetos.Smbios.Types.MemoryErrorCorrection.value;
  all = dvnetos.Smbios.Types.MemoryErrorCorrection.all;
  place = dvnetos.Smbios.Types.MemoryErrorCorrection.place;
  names = memory_error_correction_names;
}

abbrev pub enumerations : List Enumeration
enumerations =
    table_type ∷ firmware_characteristics ∷ chassis_state ∷ chassis_security_status ∷ processor_type
    ∷ processor_family ∷ processor_status ∷ physical_memory_array_location
    ∷ physical_memory_array_use ∷ memory_error_correction ∷ []
