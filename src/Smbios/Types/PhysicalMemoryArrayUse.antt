-- ===== src/Smbios/Types/PhysicalMemoryArrayUse.antt =====
-- `PhysicalMemoryArrayUse` of kernel/smbios/smbios.h.
use dvnetos.Base.{ℕ, ◌≡◌, refl, some, List, [], ◌∷◌, get_elem?}

pub data PhysicalMemoryArrayUse : Type 0 where
  other unknown system_memory video_memory flash_memory non_volatile_ram cache_memory :
      PhysicalMemoryArrayUse

unfoldable pub value : PhysicalMemoryArrayUse → ℕ
value other = 1
value unknown = 2
value system_memory = 3
value video_memory = 4
value flash_memory = 5
value non_volatile_ram = 6
value cache_memory = 7

abbrev pub all : List PhysicalMemoryArrayUse
all =
    other ∷ unknown ∷ system_memory ∷ video_memory ∷ flash_memory ∷ non_volatile_ram ∷ cache_memory
    ∷ []

pub place : (e : PhysicalMemoryArrayUse) → (i : ℕ) × (get_elem? all i ≡ some e)
place other = (0, refl)
place unknown = (1, refl)
place system_memory = (2, refl)
place video_memory = (3, refl)
place flash_memory = (4, refl)
place non_volatile_ram = (5, refl)
place cache_memory = (6, refl)
