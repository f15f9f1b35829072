-- ===== src/Smbios/Types/ChassisSecurityStatus.antt =====
-- `ChassisSecurityStatus` of kernel/smbios/smbios.h.
use dvnetos.Base.{ℕ, ◌≡◌, refl, some, List, [], ◌∷◌, get_elem?}

pub data ChassisSecurityStatus : Type 0 where
  other unknown none external_interface_locked_out external_interface_enabled :
      ChassisSecurityStatus

unfoldable pub value : ChassisSecurityStatus → ℕ
value other = 1
value unknown = 2
value none = 3
value external_interface_locked_out = 4
value external_interface_enabled = 5

abbrev pub all : List ChassisSecurityStatus
all = other ∷ unknown ∷ none ∷ external_interface_locked_out ∷ external_interface_enabled ∷ []

pub place : (e : ChassisSecurityStatus) → (i : ℕ) × (get_elem? all i ≡ some e)
place other = (0, refl)
place unknown = (1, refl)
place none = (2, refl)
place external_interface_locked_out = (3, refl)
place external_interface_enabled = (4, refl)
