-- ===== src/Smbios/Types/ChassisState.antt =====
-- `ChassisState` of kernel/smbios/smbios.h.
use dvnetos.Base.{ℕ, ◌≡◌, refl, some, List, [], ◌∷◌, get_elem?}

pub data ChassisState : Type 0 where
  other unknown safe warning critical non_recoverable : ChassisState

unfoldable pub value : ChassisState → ℕ
value other = 1
value unknown = 2
value safe = 3
value warning = 4
value critical = 5
value non_recoverable = 6

abbrev pub all : List ChassisState
all = other ∷ unknown ∷ safe ∷ warning ∷ critical ∷ non_recoverable ∷ []

pub place : (e : ChassisState) → (i : ℕ) × (get_elem? all i ≡ some e)
place other = (0, refl)
place unknown = (1, refl)
place safe = (2, refl)
place warning = (3, refl)
place critical = (4, refl)
place non_recoverable = (5, refl)
