-- ===== src/Smbios/Types/ProcessorFamily.antt =====
-- `ProcessorFamily` of kernel/smbios/smbios.h.
use dvnetos.Base.{ℕ, ◌≡◌, refl, some, List, [], ◌∷◌, get_elem?}

pub data ProcessorFamily : Type 0 where
  see_processor_family2 : ProcessorFamily

unfoldable pub value : ProcessorFamily → ℕ
value see_processor_family2 = 0xfe

abbrev pub all : List ProcessorFamily
all = see_processor_family2 ∷ []

pub place : (e : ProcessorFamily) → (i : ℕ) × (get_elem? all i ≡ some e)
place see_processor_family2 = (0, refl)
