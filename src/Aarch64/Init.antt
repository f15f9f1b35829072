-- ===== src/Aarch64/Init.antt =====
-- `Paging::init` of aarch64: the tables of the boot loader are walked, and their ranges mapped in new
-- tables. The registers, the memory map and the numbers of its types come from outside.
use dvnetos.Base.{
  ℕ, ◌%◌, Bool, ◌&&◌, ◌||◌, Option, none, some, ◌>>=◌, List, [], ◌∷◌, leb, ◌==◌, if◌then◌else◌,
  add64, sub64,
}
use dvnetos.Paging.{clear_page, page_size}
use dvnetos.Paging.Memmap.{MemmapEntry}
use dvnetos.Paging.Walk.{RangeData}
use dvnetos.Aarch64.{Paging, initial_pool_get_page, physical_to_virtual, map_memory}
use dvnetos.Aarch64.Walk.{page_table_to_ranges}

-- The numbers of limine.h that init uses, and the values that it reads.
pub record Boot : Type 0 where
  pub bootloader_reclaimable : ℕ
  pub kernel_and_modules : ℕ
  pub framebuffer : ℕ
  pub mode_4lvl : ℕ
  pub response_mode : Option ℕ
  pub ttbr0 : ℕ
  pub ttbr1 : ℕ
  pub tcr_el1 : ℕ

unfoldable pub is_type_to_map : Boot → (type : ℕ) → Bool
is_type_to_map boot type =
    type == boot.bootloader_reclaimable
    || (type == boot.kernel_and_modules || type == boot.framebuffer)

unfoldable pub ranges_overlap : RangeData → MemmapEntry → Bool
ranges_overlap r e =
    let end = add64 e.base e.length in
    leb r.physical_start end && leb e.base r.physical_end
    || (leb r.physical_start e.base && leb e.base r.physical_end
        || leb r.physical_start end && leb end r.physical_end)

-- The callback of init: the first mapping that overlaps the range and has a type to map.
unfoldable pub map_range : Boot → List MemmapEntry → RangeData → Paging → Option Paging
unfolding is_type_to_map ranges_overlap map_memory
map_range boot [] r p = some p
map_range boot (m ∷ ms) r p =
    let rest = map_range boot ms r p in
    if ranges_overlap r m && is_type_to_map boot m.type
    then map_memory p r.physical_start r.virtual_start r.size r.page_count r.flags
    else rest

-- `tmpPaging`: the tables of the boot loader.
unfoldable pub boot_paging : Boot → (hhdm_virtual_offset : ℕ) → Paging → Paging
unfolding physical_to_virtual
boot_paging boot hhdm_virtual_offset p =
    let tmp = record p { page_table_offset = hhdm_virtual_offset } in
    record {
      root1 = physical_to_virtual tmp boot.ttbr0;
      root2 = physical_to_virtual tmp boot.ttbr1;
      tcr_el1 = boot.tcr_el1;
      page_table_offset = hhdm_virtual_offset;
      higher_half_offset = hhdm_virtual_offset;
      words = p.words;
      pool = p.pool;
      used_count = p.used_count;
    }

-- The new paging, and the values for ttbr0_el1 and ttbr1_el1.
unfoldable pub init :
    Boot
    → List MemmapEntry
    → (hhdm_virtual_offset kernel_virtual_offset : ℕ) → Paging
    → Option (Paging × ℕ × ℕ)
unfolding initial_pool_get_page clear_page boot_paging map_range page_table_to_ranges
init boot mappings hhdm_virtual_offset kernel_virtual_offset p = do
  mode ← if hhdm_virtual_offset % page_size == 0 then boot.response_mode else none
  (root1, p1) ← if mode == boot.mode_4lvl then initial_pool_get_page p 1 else none
  (root2, p2) ← initial_pool_get_page p1 1
  let start = record p2 {
    root1 = root1;
    root2 = root2;
    tcr_el1 = boot.tcr_el1;
    page_table_offset = kernel_virtual_offset;
    words = clear_page (clear_page p2.words root1) root2;
  }
  p3 ←
      page_table_to_ranges (map_range boot mappings) (boot_paging boot hhdm_virtual_offset p)
        (λ q. q.words) (λ v. add64 v hhdm_virtual_offset) start
  some (p3, sub64 p3.root1 kernel_virtual_offset, sub64 p3.root2 kernel_virtual_offset)
