-- ===== src/MemMap.antt =====
-- kernel/memory/MemMap.cpp: the names of the types of memory, and the totals that `MemMap::init` prints
-- before it calls `Paging::init`.
pub mod Totals
mod Tests
use dvnetos.Base.{ℕ, none, some, List, [], ◌∷◌, get_elem?, leb, ◌==◌, if◌then◌else◌, String, add64}
use dvnetos.Paging.Memmap.{MemmapEntry}

abbrev pub mem_type_name : List String
mem_type_name =
    "usable" ∷ "reserved" ∷ "ACPI reclaimable" ∷ "ACPI NVS" ∷ "bad memory"
    ∷ "bootloader reclaimable" ∷ "kernel and modules" ∷ "framebuffer" ∷ []

unfoldable pub get_mem_map_type_description : (type_code : ℕ) → String
get_mem_map_type_description type_code = elim (get_elem? mem_type_name type_code) [
  | some name ↦ name
  | none ↦ "unknown"
]

-- `perTypeMemory` behind the loop over the entries. `last_type` is the number of the last type that has a
-- total, LIMINE_MEMMAP_FRAMEBUFFER of limine.h.
unfoldable pub per_type_memory : (last_type : ℕ) → List MemmapEntry → (ℕ → ℕ) → ℕ → ℕ
per_type_memory last_type [] totals = totals
per_type_memory last_type (e ∷ es) totals = per_type_memory last_type es (
    if leb e.type last_type
    then (λ t. if t == e.type then add64 (totals t) e.length else totals t)
    else totals)
