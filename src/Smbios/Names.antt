-- ===== src/Smbios/Names.antt =====
-- kernel/smbios/smbios_tostring.cpp, with the values of the enumerators in smbios.h.
use dvnetos.Base.{
  ℕ, ◌^◌, ◌%◌, Option, none, some, List, [], ◌∷◌, ◌==◌, if◌then◌else◌, String, codes,
}
use dvnetos.Stdio.{Run, ok, int}
use dvnetos.Stdio.Render.{render}

-- The cases of a switch: values and names.
abbrev pub Cases : Type 0
Cases = List (ℕ × String)

unfoldable pub find_name : Cases → ℕ → Option (List ℕ)
find_name [] value = none
find_name ((v, name) ∷ cs) value = if v == value then some (codes name) else find_name cs value

-- A toString: the name of the value, or what ksnprintf prints for "Unknown(%d)", which fits in its
-- buffer of 32 bytes.
unfoldable pub to_string : Cases → ℕ → Run (List ℕ)
unfolding find_name render
to_string cs value = elim (find_name cs value) [
  | some name ↦ ok name
  | none ↦ render 12 (codes "Unknown(%d)") (int (value % 2 ^ 32) ∷ [])
]

-- `toString(TableType)`
abbrev pub table_type_names : Cases
table_type_names =
    (0, "FirmwareInfo")
    ∷ (1, "SystemInfo")
    ∷ (2, "BaseboardInfo")
    ∷ (3, "ChassisInfo")
    ∷ (4, "ProcessorInfo")
    ∷ (5, "MemoryControllerInfo")
    ∷ (6, "MemoryModuleInfo")
    ∷ (7, "CacheInfo")
    ∷ (8, "PortConnectorInfo")
    ∷ (9, "SystemSlotsInfo")
    ∷ (10, "OnBoardDevicesInfo")
    ∷ (11, "OEMStrings")
    ∷ (12, "SystemConfigurationOptions")
    ∷ (13, "BIOSLanguageInfo")
    ∷ (14, "GroupAssociations")
    ∷ (15, "SystemEventLog")
    ∷ (16, "PhysicalMemoryArray")
    ∷ (17, "MemoryDevice")
    ∷ (18, "MemoryErrorInfo32")
    ∷ (19, "MemoryArrayMappedAddress")
    ∷ (20, "MemoryDeviceMappedAddress")
    ∷ (21, "BuiltinPointingDevice")
    ∷ (22, "PortableBattery")
    ∷ (23, "SystemReset")
    ∷ (24, "HardwareSecurity")
    ∷ (25, "SystemPowerControls")
    ∷ (26, "VoltageProbe")
    ∷ (27, "CoolingDevice")
    ∷ (28, "TemperatureProbe")
    ∷ (29, "ElectricalCurrentProbe")
    ∷ (30, "OutOfBandRemoteAccess")
    ∷ (31, "BootIntegrityServices")
    ∷ (32, "SystemBootInfo")
    ∷ (33, "MemoryErrorInfo64")
    ∷ (34, "ManagementDevice")
    ∷ (35, "ManagementDeviceComponent")
    ∷ (36, "ManagementDeviceThresholdData")
    ∷ (37, "MemoryChannel")
    ∷ (38, "IPMIDeviceInfo")
    ∷ (39, "SystemPowerSupply")
    ∷ (40, "AdditionalInfo")
    ∷ (41, "OnboardDevicesExtInfo")
    ∷ (42, "ManagementControllerHostInterface")
    ∷ (43, "TPMDevice")
    ∷ (44, "ProcessorAdditionalInfo")
    ∷ (45, "MemoryModuleAdditionalInfo")
    ∷ (46, "ManagementComponentTransport")
    ∷ (126, "Inactive")
    ∷ (127, "EndOfTable")
    ∷ []

-- `toString(FirmwareCharacteristics)`
abbrev pub firmware_characteristics_names : Cases
firmware_characteristics_names =
    (4, "Unknown")
    ∷ (8, "BIOSCharacteristicsNotSupported")
    ∷ (16, "ISA")
    ∷ (32, "MCA")
    ∷ (64, "EISA")
    ∷ (128, "PCI")
    ∷ (256, "PCMCIA")
    ∷ (512, "PlugAndPlay")
    ∷ (1024, "APM")
    ∷ (2048, "BIOSIsUpgradable")
    ∷ (4096, "BIOSShadowingIsAllowed")
    ∷ (8192, "VLVISupported")
    ∷ (16384, "ESCD")
    ∷ (32768, "BootFromCD")
    ∷ (65536, "SelectableBoot")
    ∷ (131072, "BIOSROMIsSocketed")
    ∷ (262144, "BootFromPCMCIA")
    ∷ (524288, "EDDSpecification")
    ∷ (1048576, "JapaneseNecFloppy")
    ∷ (2097152, "JapaneseToshibaFloppy")
    ∷ (4194304, "Floppy5251_2")
    ∷ (8388608, "Floppy35_2")
    ∷ (16777216, "ATAPIZIPDriveBoot")
    ∷ (33554432, "Boot1394")
    ∷ (67108864, "SmartBattery")
    ∷ (134217728, "BIOSBootSpecification")
    ∷ (268435456, "FunctionKeyInitiatedNetworkBoot")
    ∷ (536870912, "TargetedContentDistribution")
    ∷ (1073741824, "UEFISpecification")
    ∷ (2147483648, "SMBIOSSpecification")
    ∷ []
