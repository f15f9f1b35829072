-- ===== src/Paging/Init.antt =====
-- `Paging::init` of x86-64: the tables of the boot loader are walked, and their ranges mapped in new
-- tables. cr3, the memory map and the numbers of its types come from outside.
use dvnetos.Base.{
  ℕ, ◌%◌, Bool, ◌&&◌, ◌||◌, Option, none, some, ◌>>=◌, List, [], ◌∷◌, leb, ◌==◌, if◌then◌else◌,
  add64, sub64,
}
use dvnetos.Paging.{Paging, clear_page, page_size, initial_pool_get_page, map_memory}
use dvnetos.Paging.Memmap.{MemmapEntry}
use dvnetos.Paging.Walk.{RangeData, page_table_to_ranges}

-- The numbers of limine.h that init uses, and the values that it reads.
pub record Boot : Type 0 where
  pub bootloader_reclaimable : ℕ
  pub kernel_and_modules : ℕ
  pub framebuffer : ℕ
  pub mode_4lvl : ℕ
  pub response_mode : Option ℕ
  pub cr3 : ℕ

unfoldable pub is_type_to_map : Boot → (type : ℕ) → Bool
is_type_to_map boot type =
    type == boot.bootloader_reclaimable
    || (type == boot.kernel_and_modules || type == boot.framebuffer)

unfoldable pub ranges_overlap : RangeData → MemmapEntry → Bool
ranges_overlap r e =
    let end = add64 e.base e.length in
    leb r.physical_start end && leb e.base r.physical_end
    || (leb r.physical_start e.base && leb e.base r.physical_end
        || leb r.physical_start end && leb end r.physical_end)

-- The callback of init: the first mapping that overlaps the range and has a type to map.
unfoldable pub map_range : Boot → List MemmapEntry → RangeData → Paging → Option Paging
unfolding is_type_to_map ranges_overlap map_memory
map_range boot [] r p = some p
map_range boot (m ∷ ms) r p =
    let rest = map_range boot ms r p in
    if ranges_overlap r m && is_type_to_map boot m.type
    then map_memory p r.physical_start r.virtual_start r.size r.page_count r.flags
    else rest

-- The words that the walk reads; none are read behind a panic.
abbrev pub words_of : Option Paging → ℕ → ℕ
words_of none x = 0
words_of (some p) x = p.words x

-- The new paging, and the value for cr3. A panic of the callback is the result of the walk.
unfoldable pub init :
    Boot
    → List MemmapEntry
    → (hhdm_virtual_offset kernel_virtual_offset : ℕ) → Paging
    → Option (Paging × ℕ)
unfolding initial_pool_get_page clear_page map_range page_table_to_ranges
init boot mappings hhdm_virtual_offset kernel_virtual_offset p = do
  mode ← if hhdm_virtual_offset % page_size == 0 then boot.response_mode else none
  (root, p1) ← if mode == boot.mode_4lvl then initial_pool_get_page p 1 else none
  let start = record p1 {
    root = root;
    page_table_offset = kernel_virtual_offset;
    words = clear_page p1.words root;
  }
  walked ←
      page_table_to_ranges (λ r o. o >>= map_range boot mappings r) words_of
        (λ v. add64 v hhdm_virtual_offset) (add64 boot.cr3 hhdm_virtual_offset) (some start)
  p2 ← walked
  some (p2, sub64 p2.root kernel_virtual_offset)
