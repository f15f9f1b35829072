-- ===== src/Smbios/Types/PhysicalMemoryArrayLocation.antt =====
-- `PhysicalMemoryArrayLocation` of kernel/smbios/smbios.h.
use dvnetos.Base.{ℕ, ◌≡◌, refl, some, List, [], ◌∷◌, get_elem?}

pub data PhysicalMemoryArrayLocation : Type 0 where
  other unknown system_board_or_motherboard isa_add_on_card eisa_add_on_card :
      PhysicalMemoryArrayLocation
  pci_add_on_card mca_add_on_card pcmcia_add_on_card proprietary_add_on_card nu_bus :
      PhysicalMemoryArrayLocation
  pc98c20 pc98c24 pc98e pc98local_bus : PhysicalMemoryArrayLocation

unfoldable pub value : PhysicalMemoryArrayLocation → ℕ
value other = 1
value unknown = 2
value system_board_or_motherboard = 3
value isa_add_on_card = 4
value eisa_add_on_card = 5
value pci_add_on_card = 6
value mca_add_on_card = 7
value pcmcia_add_on_card = 8
value proprietary_add_on_card = 9
value nu_bus = 10
value pc98c20 = 160
value pc98c24 = 161
value pc98e = 162
value pc98local_bus = 163

abbrev pub all : List PhysicalMemoryArrayLocation
all =
    other ∷ unknown ∷ system_board_or_motherboard ∷ isa_add_on_card ∷ eisa_add_on_card
    ∷ pci_add_on_card ∷ mca_add_on_card ∷ pcmcia_add_on_card ∷ proprietary_add_on_card ∷ nu_bus
    ∷ pc98c20 ∷ pc98c24 ∷ pc98e ∷ pc98local_bus ∷ []

pub place : (e : PhysicalMemoryArrayLocation) → (i : ℕ) × (get_elem? all i ≡ some e)
place other = (0, refl)
place unknown = (1, refl)
place system_board_or_motherboard = (2, refl)
place isa_add_on_card = (3, refl)
place eisa_add_on_card = (4, refl)
place pci_add_on_card = (5, refl)
place mca_add_on_card = (6, refl)
place pcmcia_add_on_card = (7, refl)
place proprietary_add_on_card = (8, refl)
place nu_bus = (9, refl)
place pc98c20 = (10, refl)
place pc98c24 = (11, refl)
place pc98e = (12, refl)
place pc98local_bus = (13, refl)
