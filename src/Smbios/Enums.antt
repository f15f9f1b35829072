-- ===== src/Smbios/Enums.antt =====
-- kernel/smbios/smbios_tostring.cpp: the enumerations of the chassis, the processor and the memory.
use dvnetos.Base.{[], ◌∷◌}
use dvnetos.Smbios.Names.{Cases}

-- `toString(ChassisState)`
abbrev pub chassis_state_names : Cases
chassis_state_names =
    (1, "Other")
    ∷ (2, "Unknown")
    ∷ (3, "Safe")
    ∷ (4, "Warning")
    ∷ (5, "Critical")
    ∷ (6, "NonRecoverable")
    ∷ []

-- `toString(ChassisSecurityStatus)`
abbrev pub chassis_security_status_names : Cases
chassis_security_status_names =
    (1, "Other")
    ∷ (2, "Unknown")
    ∷ (3, "None")
    ∷ (4, "ExternalInterfaceLockedOut")
    ∷ (5, "ExternalInterfaceEnabled")
    ∷ []

-- `toString(ProcessorType)`
abbrev pub processor_type_names : Cases
processor_type_names =
    (1, "Other")
    ∷ (2, "Unknown")
    ∷ (3, "CentralProcessor")
    ∷ (4, "MathProcessor")
    ∷ (5, "DSPProcessor")
    ∷ (6, "VideoProcessor")
    ∷ []

-- `toString(ProcessorFamily)`
abbrev pub processor_family_names : Cases
processor_family_names = (254, "SeeProcessorFamily2") ∷ []

-- `toString(ProcessorStatus)`
abbrev pub processor_status_names : Cases
processor_status_names =
    (0, "Unknown")
    ∷ (1, "CPUEnabled")
    ∷ (2, "CPUDisabledByUser")
    ∷ (3, "CPUDisabledByBIOS")
    ∷ (4, "CPUIdle")
    ∷ (7, "Other")
    ∷ []

-- `toString(PhysicalMemoryArrayLocation)`
abbrev pub physical_memory_array_location_names : Cases
physical_memory_array_location_names =
    (1, "Other")
    ∷ (2, "Unknown")
    ∷ (3, "SystemBoardOrMotherboard")
    ∷ (4, "ISAAddOnCard")
    ∷ (5, "EISAAddOnCard")
    ∷ (6, "PCIAddOnCard")
    ∷ (7, "MCAAddOnCard")
    ∷ (8, "PCMCIAAddOnCard")
    ∷ (9, "ProprietaryAddOnCard")
    ∷ (10, "NuBus")
    ∷ (160, "PC98C20")
    ∷ (161, "PC98C24")
    ∷ (162, "PC98E")
    ∷ (163, "PC98LocalBus")
    ∷ []

-- `toString(PhysicalMemoryArrayUse)`
abbrev pub physical_memory_array_use_names : Cases
physical_memory_array_use_names =
    (1, "Other")
    ∷ (2, "Unknown")
    ∷ (3, "SystemMemory")
    ∷ (4, "VideoMemory")
    ∷ (5, "FlashMemory")
    ∷ (6, "NonVolatileRAM")
    ∷ (7, "CacheMemory")
    ∷ []

-- `toString(MemoryErrorCorrection)`
abbrev pub memory_error_correction_names : Cases
memory_error_correction_names =
    (1, "Other")
    ∷ (2, "Unknown")
    ∷ (3, "None")
    ∷ (4, "Parity")
    ∷ (5, "Single-bit error correction")
    ∷ (6, "Multi-bit error correction")
    ∷ (7, "CRC")
    ∷ []
