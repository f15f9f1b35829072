-- ===== src/MemMap/Tests.antt =====
-- The totals of a small memory map.
use dvnetos.Base.{ℕ, ◌+◌, ◌%◌, ◌^◌, ◌≡◌, refl, arith, List, [], ◌∷◌, leb, if◌then◌else◌}
use dvnetos.Paging.Memmap.{MemmapEntry}
use dvnetos.MemMap.{get_mem_map_type_description, per_type_memory}
use dvnetos.MemMap.Totals.{bytes_of_type, per_type_memory-total}

last_name : get_mem_map_type_description 7 ≡ "framebuffer"
unfolding get_mem_map_type_description
last_name = refl

no_name : get_mem_map_type_description 8 ≡ "unknown"
unfolding get_mem_map_type_description
no_name = refl

-- Two usable entries, and a reserved one between them.
abbrev entries : List MemmapEntry
entries =
    record { base = 0x1000; length = 0x3000; type = 0 }
    ∷ record { base = 0x4000; length = 0x1000; type = 1 }
    ∷ record { base = 0x5000; length = 0x2000; type = 0 }
    ∷ []

abbrev none_yet : ℕ → ℕ
none_yet t = 0

usable_total : per_type_memory 7 entries none_yet 0 ≡ 0x5000
unfolding per_type_memory
usable_total = refl

per_type_memory-total_example :
    per_type_memory 7 entries none_yet 0
    ≡ (if leb 0 7 then (none_yet 0 + bytes_of_type 0 entries) % 2 ^ 64 else none_yet 0)
per_type_memory-total_example = per_type_memory-total 7 0 entries none_yet (omega arith)
