-- ===== src/Smbios/Types/MemoryErrorCorrection.antt =====
-- `MemoryErrorCorrection` of kernel/smbios/smbios.h.
use dvnetos.Base.{ℕ, ◌≡◌, refl, some, List, [], ◌∷◌, get_elem?}

pub data MemoryErrorCorrection : Type 0 where
  other unknown none parity single_bit_ecc multi_bit_ecc crc : MemoryErrorCorrection

unfoldable pub value : MemoryErrorCorrection → ℕ
value other = 1
value unknown = 2
value none = 3
value parity = 4
value single_bit_ecc = 5
value multi_bit_ecc = 6
value crc = 7

abbrev pub all : List MemoryErrorCorrection
all = other ∷ unknown ∷ none ∷ parity ∷ single_bit_ecc ∷ multi_bit_ecc ∷ crc ∷ []

pub place : (e : MemoryErrorCorrection) → (i : ℕ) × (get_elem? all i ≡ some e)
place other = (0, refl)
place unknown = (1, refl)
place none = (2, refl)
place parity = (3, refl)
place single_bit_ecc = (4, refl)
place multi_bit_ecc = (5, refl)
place crc = (6, refl)
