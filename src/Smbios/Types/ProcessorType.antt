-- ===== src/Smbios/Types/ProcessorType.antt =====
-- `ProcessorType` of kernel/smbios/smbios.h.
use dvnetos.Base.{ℕ, ◌≡◌, refl, some, List, [], ◌∷◌, get_elem?}

pub data ProcessorType : Type 0 where
  other unknown central_processor math_processor dsp_processor video_processor : ProcessorType

unfoldable pub value : ProcessorType → ℕ
value other = 1
value unknown = 2
value central_processor = 3
value math_processor = 4
value dsp_processor = 5
value video_processor = 6

abbrev pub all : List ProcessorType
all = other ∷ unknown ∷ central_processor ∷ math_processor ∷ dsp_processor ∷ video_processor ∷ []

pub place : (e : ProcessorType) → (i : ℕ) × (get_elem? all i ≡ some e)
place other = (0, refl)
place unknown = (1, refl)
place central_processor = (2, refl)
place math_processor = (3, refl)
place dsp_processor = (4, refl)
place video_processor = (5, refl)
