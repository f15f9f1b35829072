-- ===== src/Smbios/Types/ProcessorStatus.antt =====
-- `ProcessorStatus` of kernel/smbios/smbios.h.
use dvnetos.Base.{ℕ, ◌≡◌, refl, some, List, [], ◌∷◌, get_elem?}

pub data ProcessorStatus : Type 0 where
  unknown cpu_enabled cpu_disabled_by_user cpu_disabled_by_bios cpu_idle other : ProcessorStatus

unfoldable pub value : ProcessorStatus → ℕ
value unknown = 0
value cpu_enabled = 1
value cpu_disabled_by_user = 2
value cpu_disabled_by_bios = 3
value cpu_idle = 4
value other = 7

abbrev pub all : List ProcessorStatus
all = unknown ∷ cpu_enabled ∷ cpu_disabled_by_user ∷ cpu_disabled_by_bios ∷ cpu_idle ∷ other ∷ []

pub place : (e : ProcessorStatus) → (i : ℕ) × (get_elem? all i ≡ some e)
place unknown = (0, refl)
place cpu_enabled = (1, refl)
place cpu_disabled_by_user = (2, refl)
place cpu_disabled_by_bios = (3, refl)
place cpu_idle = (4, refl)
place other = (5, refl)
