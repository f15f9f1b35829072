-- ===== src/Smbios/Types/FirmwareCharacteristics.antt =====
-- `FirmwareCharacteristics` of kernel/smbios/smbios.h.
use dvnetos.Base.{ℕ, ◌^◌, ◌≡◌, refl, some, List, [], ◌∷◌, get_elem?}

pub data FirmwareCharacteristics : Type 0 where
  unknown bios_characteristics_not_supported isa mca eisa pci pcmcia plug_and_play apm :
      FirmwareCharacteristics
  bios_is_upgradable bios_shadowing_is_allowed vlvi_supported escd boot_from_cd :
      FirmwareCharacteristics
  selectable_boot biosrom_is_socketed boot_from_pcmcia edd_specification : FirmwareCharacteristics
  japanese_nec_floppy japanese_toshiba_floppy floppy5251_2 floppy35_2 : FirmwareCharacteristics
  atapizip_drive_boot boot1394 smart_battery bios_boot_specification : FirmwareCharacteristics
  function_key_initiated_network_boot targeted_content_distribution uefi_specification :
      FirmwareCharacteristics
  smbios_specification : FirmwareCharacteristics

unfoldable pub value : FirmwareCharacteristics → ℕ
value unknown = 2 ^ 2
value bios_characteristics_not_supported = 2 ^ 3
value isa = 2 ^ 4
value mca = 2 ^ 5
value eisa = 2 ^ 6
value pci = 2 ^ 7
value pcmcia = 2 ^ 8
value plug_and_play = 2 ^ 9
value apm = 2 ^ 10
value bios_is_upgradable = 2 ^ 11
value bios_shadowing_is_allowed = 2 ^ 12
value vlvi_supported = 2 ^ 13
value escd = 2 ^ 14
value boot_from_cd = 2 ^ 15
value selectable_boot = 2 ^ 16
value biosrom_is_socketed = 2 ^ 17
value boot_from_pcmcia = 2 ^ 18
value edd_specification = 2 ^ 19
value japanese_nec_floppy = 2 ^ 20
value japanese_toshiba_floppy = 2 ^ 21
value floppy5251_2 = 2 ^ 22
value floppy35_2 = 2 ^ 23
value atapizip_drive_boot = 2 ^ 24
value boot1394 = 2 ^ 25
value smart_battery = 2 ^ 26
value bios_boot_specification = 2 ^ 27
value function_key_initiated_network_boot = 2 ^ 28
value targeted_content_distribution = 2 ^ 29
value uefi_specification = 2 ^ 30
value smbios_specification = 2 ^ 31

abbrev pub all : List FirmwareCharacteristics
all =
    unknown ∷ bios_characteristics_not_supported ∷ isa ∷ mca ∷ eisa ∷ pci ∷ pcmcia ∷ plug_and_play
    ∷ apm ∷ bios_is_upgradable ∷ bios_shadowing_is_allowed ∷ vlvi_supported ∷ escd ∷ boot_from_cd
    ∷ selectable_boot ∷ biosrom_is_socketed ∷ boot_from_pcmcia ∷ edd_specification
    ∷ japanese_nec_floppy ∷ japanese_toshiba_floppy ∷ floppy5251_2 ∷ floppy35_2
    ∷ atapizip_drive_boot ∷ boot1394 ∷ smart_battery ∷ bios_boot_specification
    ∷ function_key_initiated_network_boot ∷ targeted_content_distribution ∷ uefi_specification
    ∷ smbios_specification ∷ []

pub place : (e : FirmwareCharacteristics) → (i : ℕ) × (get_elem? all i ≡ some e)
place unknown = (0, refl)
place bios_characteristics_not_supported = (1, refl)
place isa = (2, refl)
place mca = (3, refl)
place eisa = (4, refl)
place pci = (5, refl)
place pcmcia = (6, refl)
place plug_and_play = (7, refl)
place apm = (8, refl)
place bios_is_upgradable = (9, refl)
place bios_shadowing_is_allowed = (10, refl)
place vlvi_supported = (11, refl)
place escd = (12, refl)
place boot_from_cd = (13, refl)
place selectable_boot = (14, refl)
place biosrom_is_socketed = (15, refl)
place boot_from_pcmcia = (16, refl)
place edd_specification = (17, refl)
place japanese_nec_floppy = (18, refl)
place japanese_toshiba_floppy = (19, refl)
place floppy5251_2 = (20, refl)
place floppy35_2 = (21, refl)
place atapizip_drive_boot = (22, refl)
place boot1394 = (23, refl)
place smart_battery = (24, refl)
place bios_boot_specification = (25, refl)
place function_key_initiated_network_boot = (26, refl)
place targeted_content_distribution = (27, refl)
place uefi_specification = (28, refl)
place smbios_specification = (29, refl)
